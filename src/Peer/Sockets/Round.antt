-- ===== src/Peer/Sockets/Round.antt =====
-- A round of a peer's UDP server, over the calls of the system, makes the hop that `Peer.Network` says.
use assignments_computer_net.Base.{
  ℕ, ◌%◌, ◌^◌, ◌≡◌, sym, ap, ◌∙◌, inl, inr, some, List, [], ◌∷◌, ◌++◌, take, Option-cases, >>=-some,
  >>=-none,
}
use assignments_computer_net.Peer.Text.{Bytes}
use assignments_computer_net.Peer.Node.{Node}
use assignments_computer_net.Peer.Decimal.{atoi}
use assignments_computer_net.Peer.Search.{Datagram, sends, serve}
use assignments_computer_net.Peer.Transport.{transport}
use assignments_computer_net.Peer.Network.{Hop, hop, node_at}
use assignments_computer_net.Transfer.System.{finished, c_string}
use assignments_computer_net.Peer.Sockets.{
  Sockets, sendreq, listening, recvinfo, react, udp_round, IsUdp,
}
use assignments_computer_net.Peer.Sockets.Carries.{GetsPort, on_wire, sendreq-sent, recvinfo-next}

-- What `__sendreq` puts on the wire for a text, when `transport` carries it.
transport-line :
    (msg text : Bytes)
    → transport msg ≡ some text
    → (line : Bytes) × (c_string 2048 msg ≡ some line)
      × (c_string 2048 (take 1000 line) ≡ some text)
unfolding transport
transport-line msg text e = elim (Option-cases (c_string 2048 msg)) [
  | inl long ↦ absurd (cc (>>=-none _ (λ l. c_string 2048 (take 1000 l)) long, e))
  | inr (line, fits) ↦
      (line, fits, sym (>>=-some _ (λ l. c_string 2048 (take 1000 l)) line fits) ∙ e)
]

module _ (N : Sockets) (U : IsUdp N) where
  -- What went out for a datagram, when its text fits the buffer.
  pub record Sent (d : Datagram) (s s' : N.State) : Type 0 where
    pub line : Bytes
    pub fits : c_string 2048 d.payload ≡ some line
    pub out : U.sent s' ≡ U.sent s ++ on_wire N U d line ∷ []

  -- The peer to which a hop goes.
  pub record Makes (ring : List Node) (d d' : Datagram) (s : N.State) : Type 0 where
    pub index : ℕ
    pub node : Node
    pub present : node_at index ring ≡ some node
    pub at_ip : node.ip ≡ d.ip
    pub at_port : atoi node.port ≡ some d.port
    pub after : N.State
    pub runs : udp_round N node d.port s ≡ finished after
    pub sent : Sent d' s after

  round_answers :
      (node : Node) (d' : Datagram) (text text' : Bytes) (port : ℕ) (s s' : N.State)
      → ((t : N.State) → (fd : ℕ) × ((N.socket t).0 ≡ some fd))
      → recvinfo N port s ≡ finished (text, s')
      → U.sent s' ≡ U.sent s
      → serve text node ≡ sends (some d')
      → transport d'.payload ≡ some text'
      → (after : N.State) × (udp_round N node port s ≡ finished after) × Sent d' s after
  unfolding udp_round
  round_answers node d' text text' port s s' opens reads silent reacts carried =
      let (line, fits, _) = transport-line d'.payload text' carried in
      let (fd, opened) = opens s' in
      let (after, done, out) = sendreq-sent N U d' line s' fd fits opened in
      let runs : udp_round N node port s ≡ sendreq N d' s' =
        simp (reads, reacts, udp_round, react) in
      (
        after,
        runs ∙ done,
        record {
          line = line;
          fits = fits;
          out = out ∙ ap (λ l. l ++ on_wire N U d' line ∷ []) silent;
        },
      )

  -- The round of the server, over the calls of the system, makes every hop of the ring. When what
  -- `__sendreq` sends for a datagram is what comes next on the port of the peer that the hop goes to, that
  -- peer's round ends, and it has sent exactly what `__sendreq` sends for the hop's next datagram. The
  -- process gets its sockets and the port, and the next datagram is one that is carried on.
  pub udp_round-Hop :
      (ring : List Node) (d d' : Datagram) (text' : Bytes) (s : N.State)
      → ((t : N.State) → (fd : ℕ) × ((N.socket t).0 ≡ some fd))
      → GetsPort N U d.port s
      → ((line : Bytes)
          → c_string 2048 d.payload ≡ some line
          → U.next (d.port % 2 ^ 16) (listening N d.port s).1.1 ≡ some line)
      → transport d'.payload ≡ some text'
      → Hop ring d d'
      → Makes ring d d' s
  udp_round-Hop ring d d' text' s opens g comes carried
        (hop j node text present at_ip at_port arrives reacts) =
      let (line, fits, ends) = transport-line d.payload text arrives in
      let (s', reads, silent) = recvinfo-next N U d.port s line text g (comes line fits) ends in
      let (after, runs, sent) =
        round_answers node d' text text' d.port s s' opens reads silent reacts carried in
      record {
        index = j;
        node = node;
        present = present;
        at_ip = at_ip;
        at_port = at_port;
        after = after;
        runs = runs;
        sent = sent;
      }
