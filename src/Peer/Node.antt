-- ===== src/Peer/Node.antt =====
-- `oat_hash` and the class `Node`.
use Prim.Native.Nat.{bit_xor}
use assignments_computer_net.Base.{
  ℕ, ◌+◌, ◌-◌, ◌*◌, ◌/◌, ◌%◌, ◌^◌, ◌≡◌, List, [], ◌∷◌, ◌++◌, ltb, if◌then◌else◌,
}
use assignments_computer_net.Peer.Text.{
  Bytes, colon, Lacks, open_stream, getline, getline-append, getline-whole,
}
use assignments_computer_net.Peer.Map.{FileMap}

-- A `char` is signed on the platform of the program: bytes from 128 on are negative, and are
-- extended to 64 bits.
abbrev pub widen : ℕ → ℕ
widen c = if ltb c 128 then c else 2 ^ 64 - 256 + c

-- One round of the loop, in unsigned 64-bit arithmetic.
unfoldable pub mix : ℕ → ℕ → ℕ
mix h c =
    let h1 = (h + widen c) % 2 ^ 64 in
    let h2 = (h1 + h1 * 2 ^ 10 % 2 ^ 64) % 2 ^ 64 in bit_xor h2 (h2 / 2 ^ 6)

unfoldable pub absorb : ℕ → Bytes → ℕ
unfolding mix
absorb h [] = h
absorb h (c ∷ p) = absorb (mix h c) p

unfoldable pub oat_hash : Bytes → ℕ
unfolding absorb
oat_hash p =
    let h = absorb 0 p in
    let h1 = (h + h * 2 ^ 3 % 2 ^ 64) % 2 ^ 64 in
    let h2 = bit_xor h1 (h1 / 2 ^ 11) in (h2 + h2 * 2 ^ 15 % 2 ^ 64) % 2 ^ 64

pub record Node : Type 0 where
  pub ip : Bytes
  pub port : Bytes
  pub ip_port : Bytes
  pub node_id : ℕ
  pub scr : Bytes
  pub pdr : Bytes
  pub my_file : List Bytes
  pub my_file_info : FileMap

-- `Node ()`. It leaves the identifier as the memory had it: `garbage`.
abbrev pub blank : ℕ → Node
blank garbage = record {
  ip = [];
  port = [];
  ip_port = [];
  node_id = garbage;
  scr = [];
  pdr = [];
  my_file = [];
  my_file_info = [];
}

-- The source hashes a copy of the address in a buffer of 2048 bytes, up to its first zero. Here it is the
-- whole address: one that comes in a message has at most 1000 bytes and no zero.
pub set_ip_port : Node → Bytes → Node
set_ip_port n address =
    let first = getline colon n.ip (open_stream address) in
    let second = getline colon n.port first.1 in
    record n {
      ip_port = address;
      ip = first.0;
      port = second.0;
      node_id = oat_hash address;
      scr = [];
      pdr = [];
    }

-- `Node (ip_port)`.
unfoldable pub new_node : Bytes → Node
unfolding set_ip_port
new_node [] = blank 0
new_node (c ∷ address) = set_ip_port (blank 0) (c ∷ address)

unfoldable pub set_successor : Node → Bytes → Node
set_successor n address = record n { scr = address }

unfoldable pub set_predecessor : Node → Bytes → Node
set_predecessor n address = record n { pdr = address }

-- An address is split at its colon, whatever the node held before.
pub set_ip_port_lem :
    (n : Node) (ip port : Bytes)
    → Lacks colon ip
    → Lacks colon port
    → set_ip_port n (ip ++ colon ∷ port) ≡ record n {
      ip = ip;
      port = port;
      ip_port = ip ++ colon ∷ port;
      node_id = oat_hash (ip ++ colon ∷ port);
      scr = [];
      pdr = [];
    }
unfolding set_ip_port
set_ip_port_lem n ip port h k =
    simp (getline-append colon n.ip ip port h, getline-whole colon n.port port k)
