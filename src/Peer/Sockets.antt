-- ===== src/Peer/Sockets.antt =====
-- `__sendreq` and `__recvinfo`, which `__init.cpp` and `server.cpp` both have, over the calls of the
-- system.
pub mod Carries
pub mod Deaf
pub mod Round
use assignments_computer_net.Base.{
  ℕ, ◌%◌, ◌^◌, ◌≡◌, Bool, true, Option, none, some, List, [], ◌∷◌, ◌++◌, take,
}
use assignments_computer_net.Peer.Text.{Bytes}
use assignments_computer_net.Peer.Search.{Datagram, Reaction, shows, sends, ignores, serve}
use assignments_computer_net.Peer.Node.{Node}
use assignments_computer_net.Transfer.System.{
  Fd, Outcome, finished, exited, undefined, unfinished, c_string,
}

-- The calls on sockets of SOCK_DGRAM. `bind` is to INADDR_ANY. The programs do not look at what
-- `sendto` gives. `arrive` is not called: a datagram for a port comes in from the network.
pub record Sockets : Type 1 where
  pub State : Type 0
  pub socket : State → Fd × State
  pub bind : Fd → ℕ → State → Bool × State
  pub sendto : Fd → Datagram → State → State
  pub recvfrom : Fd → ℕ → State → Option Bytes × State
  pub close : Fd → State → State
  pub arrive : ℕ → Bytes → State → State

module _ (N : Sockets) where
  -- A text that does not fit the buffer of 2048 bytes overflows it. `htons` keeps 16 bits of the port.
  unfoldable pub sendreq : Datagram → N.State → Outcome N.State
  sendreq d s = elim (c_string 2048 d.payload) [
    | none ↦ undefined
    | some sendline ↦
        let k = N.socket s in
        let sent = record d { port = d.port % 2 ^ 16; payload = sendline } in
        finished (N.close k.0 (N.sendto k.0 sent k.1))
  ]

  -- The system in which `recvfrom` is called. What `bind` gives is stored and not looked at.
  abbrev pub listening : ℕ → N.State → Fd × (Bool × N.State)
  listening port s = let k = N.socket s in (k.0, N.bind k.0 (port % 2 ^ 16) k.1)

  -- When `recvfrom` fails, the zero is written in front of the buffer.
  unfoldable pub recvinfo : ℕ → N.State → Outcome (Bytes × N.State)
  recvinfo port s =
      let l = listening port s in
      let n = N.recvfrom l.0 1000 l.1.1 in
      elim n.0 [
        | none ↦ undefined
        | some mesg ↦ elim (c_string 2048 mesg) [
          | none ↦ undefined
          | some op ↦ finished (op, N.close l.0 n.1)
        ]
      ]

  -- `cout` of an answer, the call of `__sendreq` in `search_func`, or nothing.
  unfoldable pub react : Reaction → N.State → Outcome N.State
  react (shows req) s = finished s
  react (sends none) s = undefined
  react (sends (some d)) s = sendreq d s
  react ignores s = finished s

  -- One round of the UDP server of a peer.
  unfoldable pub udp_round : Node → ℕ → N.State → Outcome N.State
  unfolding react
  udp_round my_node my_port s = elim (recvinfo my_port s) [
    | finished r ↦ react (serve r.0 my_node) r.1
    | exited r ↦ exited r.1
    | undefined ↦ undefined
    | unfinished ↦ unfinished
  ]

  -- What the manual pages say of such sockets: `sent` are the datagrams that went out, `next` is the one
  -- that a socket on a port gets first, and `on` the socket that is bound to a port.
  pub record IsUdp : Type 0 where
    pub sent : N.State → List Datagram
    pub next : ℕ → N.State → Option Bytes
    pub on : ℕ → N.State → Fd
    pub socket_sends : (s : N.State) → sent (N.socket s).1 ≡ sent s
    pub sendto_sends :
        (fd : ℕ) (d : Datagram) (s : N.State) → sent (N.sendto (some fd) d s) ≡ sent s ++ d ∷ []
    pub bind_sends : (fd : Fd) (port : ℕ) (s : N.State) → sent (N.bind fd port s).1 ≡ sent s
    pub recvfrom_sends : (fd : Fd) (n : ℕ) (s : N.State) → sent (N.recvfrom fd n s).1 ≡ sent s
    pub close_sends : (fd : Fd) (s : N.State) → sent (N.close fd s) ≡ sent s
    pub bind_on :
        (fd port : ℕ) (s : N.State)
        → (N.bind (some fd) port s).0 ≡ true
        → on port (N.bind (some fd) port s).1 ≡ some fd
    -- A datagram that is longer than the buffer loses its end.
    pub recvfrom_next :
        (fd port n : ℕ) (s : N.State) (text : Bytes)
        → on port s ≡ some fd
        → next port s ≡ some text
        → (N.recvfrom (some fd) n s).0 ≡ some (take n text)
    pub recvfrom_on :
        (fd : Fd) (port n : ℕ) (s : N.State) → on port (N.recvfrom fd n s).1 ≡ on port s
    pub close_on :
        (fd port : ℕ) (s : N.State) → on port s ≡ some fd → on port (N.close (some fd) s) ≡ none
    -- What comes in for a port without a socket is thrown away.
    pub arrive_nowhere :
        (port : ℕ) (text : Bytes) (s : N.State) → on port s ≡ none → N.arrive port text s ≡ s
