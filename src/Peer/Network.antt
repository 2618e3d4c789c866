-- ===== src/Peer/Network.antt =====
-- The peers together: a message goes from peer to peer around the ring.
pub mod Travel
pub mod Registered
pub mod Made
pub mod Directory
use assignments_computer_net.Base.{
  ℕ, zero, suc, ◌+◌, ◌%◌, ◌^◌, ◌≡◌, ◌<◌, ◌≤◌, refl, ap, ◌∙◌, Option, none, some, List, [], ◌∷◌,
  ◌++◌, length, false,
}
use assignments_computer_net.Peer.Text.{Bytes, Lacks, colon}
use assignments_computer_net.Peer.Decimal.{print_int, atoi}
use assignments_computer_net.Peer.Node.{Node}
use assignments_computer_net.Peer.Ring.{field}
use assignments_computer_net.Peer.Transport.{transport}
use assignments_computer_net.Peer.Search.{Datagram, Reaction, sends, serve}

-- The node at an index.
abbrev pub node_at : ℕ → List Node → Option Node
node_at = field (λ d. d)

-- A datagram reaches the peer that is bound to its address and port, and that peer's round of the
-- server sends the next one. The network itself may also lose it; then nothing more happens.
pub data Hop (ring : List Node) (d d' : Datagram) : Type 0 where
  hop :
      (j : ℕ) (node : Node) (text : Bytes)
      → node_at j ring ≡ some node
      → node.ip ≡ d.ip
      → atoi node.port ≡ some d.port
      → transport d.payload ≡ some text
      → serve text node ≡ sends (some d')
      → Hop ring d d'

-- So many of these in a row.
pub data Hops (ring : List Node) : ℕ → Datagram → Datagram → Type 0 where
  stays : {d : Datagram} → Hops ring 0 d d
  goes :
      {n : ℕ} {d d' d'' : Datagram} → Hop ring d d' → Hops ring n d' d'' → Hops ring (suc n) d d''

-- The peers form a ring: each has an address and a port in decimal, and its successor is the address
-- of the peer behind it.
pub record IsRing (ring : List Node) : Type 0 where
  pub ip : ℕ → Bytes
  pub port : ℕ → ℕ
  pub clean : (j : ℕ) → Lacks colon (ip j)
  pub small : (j : ℕ) → port j < 2 ^ 31
  pub node : ℕ → Node
  pub present : (j : ℕ) → j < length ring → node_at j ring ≡ some (node j)
  pub at_ip : (j : ℕ) → j < length ring → (node j).ip ≡ ip j
  pub at_port : (j : ℕ) → j < length ring → (node j).port ≡ print_int (port j)
  pub next :
      (j : ℕ)
      → j < length ring
      → (node j).scr
        ≡ ip ((j + 1) % length ring) ++ colon ∷ print_int (port ((j + 1) % length ring))
