-- ===== src/Peer/Sockets/Carries.antt =====
-- A message from `__sendreq` to `__recvinfo`: the calls carry it as `transport` says.
use assignments_computer_net.Base.{
  ℕ, ◌%◌, ◌^◌, ◌≡◌, sym, ap, ◌∙◌, inl, inr, true, none, some, [], ◌∷◌, ◌++◌, take, Option-cases,
  >>=-some, >>=-none,
}
use assignments_computer_net.Peer.Text.{Bytes}
use assignments_computer_net.Peer.Search.{Datagram}
use assignments_computer_net.Peer.Transport.{transport}
use assignments_computer_net.Transfer.System.{Fd, finished, c_string}
use assignments_computer_net.Peer.Sockets.{Sockets, sendreq, listening, recvinfo, IsUdp}

module _ (N : Sockets) (U : IsUdp N) where
  -- The process gets a socket, and the port.
  pub record GetsPort (port : ℕ) (s : N.State) : Type 0 where
    pub fd : ℕ
    pub opens : (N.socket s).0 ≡ some fd
    pub bound : (listening N port s).1.0 ≡ true

  -- What is sent for a datagram.
  abbrev pub on_wire : Datagram → Bytes → Datagram
  on_wire d line = record d { port = d.port % 2 ^ 16; payload = line }

  pub sendreq-sent :
      (d : Datagram) (line : Bytes) (w : N.State) (fd : ℕ)
      → c_string 2048 d.payload ≡ some line
      → (N.socket w).0 ≡ some fd
      → (w' : N.State) × (sendreq N d w ≡ finished w')
        × (U.sent w' ≡ U.sent w ++ on_wire d line ∷ [])
  unfolding sendreq
  sendreq-sent d line w fd fits opens =
      let k = (N.socket w).1 in
      let sent = N.sendto (some fd) (on_wire d line) k in
      (
        N.close (some fd) sent,
        simp (fits, opens, sendreq),
        U.close_sends (some fd) sent
            ∙ (U.sendto_sends fd (on_wire d line) k
                ∙ ap (λ l. l ++ on_wire d line ∷ []) (U.socket_sends w)),
      )

  -- The socket is on the port before `recvfrom` is called.
  pub GetsPort-on :
      (port : ℕ) (s : N.State) (g : GetsPort port s)
      → U.on (port % 2 ^ 16) (listening N port s).1.1 ≡ some g.fd
  GetsPort-on port s g = bound_on (N.socket s).0 g.opens g.bound
    where
      bound_on :
          (k : Fd)
          → k ≡ some g.fd
          → (N.bind k (port % 2 ^ 16) (N.socket s).1).0 ≡ true
          → U.on (port % 2 ^ 16) (N.bind k (port % 2 ^ 16) (N.socket s).1).1 ≡ some g.fd
      bound_on none e b = absurd (cc e)
      bound_on (some fd) e b = U.bind_on fd (port % 2 ^ 16) (N.socket s).1 b ∙ e

  pub recvinfo-next :
      (port : ℕ) (s : N.State) (line text : Bytes)
      → GetsPort port s
      → U.next (port % 2 ^ 16) (listening N port s).1.1 ≡ some line
      → c_string 2048 (take 1000 line) ≡ some text
      → (s' : N.State) × (recvinfo N port s ≡ finished (text, s')) × (U.sent s' ≡ U.sent s)
  unfolding recvinfo
  recvinfo-next port s line text g comes ends =
      let l = listening N port s in
      let n = N.recvfrom l.0 1000 l.1.1 in
      let first =
        U.recvfrom_next g.fd (port % 2 ^ 16) 1000 l.1.1 line (GetsPort-on port s g) comes in
      let got : n.0 ≡ some (take 1000 line) =
        ap (λ k. (N.recvfrom k 1000 l.1.1).0) g.opens ∙ first in
      (
        N.close l.0 n.1,
        simp (got, ends, recvinfo),
        U.close_sends l.0 n.1
            ∙ (U.recvfrom_sends l.0 1000 l.1.1
                ∙ (U.bind_sends l.0 (port % 2 ^ 16) (N.socket s).1 ∙ U.socket_sends s)),
      )

  -- A message that `transport` carries is sent as one datagram, and when that is what the receiver's
  -- socket gets next, the receiver has the text that `transport` gives. Both processes get a socket, and
  -- the receiver the port that the message is sent to.
  pub sendreq-recvinfo :
      (d : Datagram) (text : Bytes) (w s : N.State) (fd : ℕ)
      → transport d.payload ≡ some text
      → (N.socket w).0 ≡ some fd
      → GetsPort d.port s
      → ((e : Datagram) (w' : N.State)
          → sendreq N d w ≡ finished w'
          → U.sent w' ≡ U.sent w ++ e ∷ []
          → U.next e.port (listening N d.port s).1.1 ≡ some e.payload)
      → (w' : N.State) × (s' : N.State) × (sendreq N d w ≡ finished w')
        × (recvinfo N d.port s ≡ finished (text, s'))
  unfolding transport
  sendreq-recvinfo d text w s fd carried opens g comes =
      elim (Option-cases (c_string 2048 d.payload)) [
        | inl long ↦ absurd (cc (>>=-none _ (λ l. c_string 2048 (take 1000 l)) long, carried))
        | inr (line, fits) ↦
            let ends = sym (>>=-some _ (λ l. c_string 2048 (take 1000 l)) line fits) ∙ carried in
            let (w', sends, sent) = sendreq-sent d line w fd fits opens in
            let (s', reads, _) =
              recvinfo-next d.port s line text g (comes (on_wire d line) w' sends sent) ends in
            (w', s', sends, reads)
      ]
