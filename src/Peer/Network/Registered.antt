-- ===== src/Peer/Network/Registered.antt =====
-- The nodes that have registered, and the ring that the bootstrap program makes of them.
use assignments_computer_net.Base.{
  ℕ, zero, suc, ◌^◌, ◌≡◌, ◌<◌, refl, ap, some, List, [], ◌∷◌, ◌++◌, length, arith,
}
use assignments_computer_net.Peer.Text.{Bytes, Lacks, colon, All}
use assignments_computer_net.Peer.Decimal.{print_int}
use assignments_computer_net.Peer.Node.{Node, blank}
use assignments_computer_net.Peer.Ring.{field, place_between, link, sort_nodes}
use assignments_computer_net.Peer.Ring.Keeps.{sort_nodes-All}
use assignments_computer_net.Peer.Ring.Linked.{field_kept}
use assignments_computer_net.Peer.Bootstrap.{Fresh, link-keeps}

-- A node as its registration leaves it.
pub record Registered (d : Node) : Type 0 where
  pub at : Bytes
  pub number : ℕ
  pub no_colon : Lacks colon at
  pub is_int : number < 2 ^ 31
  pub same_ip : d.ip ≡ at
  pub same_port : d.port ≡ print_int number
  pub same_address : d.ip_port ≡ at ++ colon ∷ print_int number
  pub new : d.my_file_info ≡ []

abbrev pub AllRegistered : List Node → Type 0
AllRegistered = All Registered

pub sort_nodes-Registered :
    (nodes : List Node) → AllRegistered nodes → AllRegistered (sort_nodes nodes)
sort_nodes-Registered = sort_nodes-All Registered

-- The address and the port at an index.
abbrev pub ip_of : (nodes : List Node) → AllRegistered nodes → ℕ → Bytes
ip_of [] rs j = []
ip_of (d ∷ nodes) rs zero = rs.0.at
ip_of (d ∷ nodes) rs (suc j) = ip_of nodes rs.1 j

abbrev pub port_of : (nodes : List Node) → AllRegistered nodes → ℕ → ℕ
port_of [] rs j = 0
port_of (d ∷ nodes) rs zero = rs.0.number
port_of (d ∷ nodes) rs (suc j) = port_of nodes rs.1 j

pub ip_of-Lacks :
    (nodes : List Node) (rs : AllRegistered nodes) (j : ℕ) → Lacks colon (ip_of nodes rs j)
ip_of-Lacks [] rs j = tt
ip_of-Lacks (d ∷ nodes) rs zero = rs.0.no_colon
ip_of-Lacks (d ∷ nodes) rs (suc j) = ip_of-Lacks nodes rs.1 j

pub port_of-lt :
    (nodes : List Node) (rs : AllRegistered nodes) (j : ℕ) → port_of nodes rs j < 2 ^ 31
port_of-lt [] rs j = omega arith
port_of-lt (d ∷ nodes) rs zero = rs.0.is_int
port_of-lt (d ∷ nodes) rs (suc j) = port_of-lt nodes rs.1 j

module _ (nodes : List Node) (rs : AllRegistered nodes) where
  pub record Fields (j : ℕ) : Type 0 where
    pub ips : field (λ d. d.ip) j nodes ≡ some (ip_of nodes rs j)
    pub ports : field (λ d. d.port) j nodes ≡ some (print_int (port_of nodes rs j))
    pub addresses :
        field (λ d. d.ip_port) j nodes
        ≡ some (ip_of nodes rs j ++ colon ∷ print_int (port_of nodes rs j))

pub Fields-all :
    (nodes : List Node) (rs : AllRegistered nodes) (j : ℕ) → j < length nodes → Fields nodes rs j
Fields-all [] rs j h = absurd (omega arith)
Fields-all (d ∷ nodes) rs zero h = record {
  ips = ap some rs.0.same_ip;
  ports = ap some rs.0.same_port;
  addresses = ap some rs.0.same_address;
}
Fields-all (d ∷ nodes) rs (suc j) h =
    let f = Fields-all nodes rs.1 j (omega arith) in
    record { ips = f.ips; ports = f.ports; addresses = f.addresses }

-- The node at an index, and an empty one out of the array.
abbrev pub node_of : List Node → ℕ → Node
node_of [] j = blank 0
node_of (d ∷ nodes) zero = d
node_of (d ∷ nodes) (suc j) = node_of nodes j

pub field-node_of :
    {A : Type 0} (f : Node → A) (nodes : List Node) (j : ℕ)
    → j < length nodes
    → field f j nodes ≡ some (f (node_of nodes j))
field-node_of f [] j h = absurd (omega arith)
field-node_of f (d ∷ nodes) zero h = refl
field-node_of f (d ∷ nodes) (suc j) h = field-node_of f nodes j (omega arith)

pub link-field :
    {A : Type 0} (f : Node → A) (j : ℕ) (nodes ring : List Node)
    → ((next prev : Bytes) (d : Node) → f (place_between next prev d) ≡ f d)
    → link nodes ≡ some ring
    → field f j ring ≡ field f j nodes
link-field f j nodes ring same e =
    link-keeps (field f j)
      (λ i next prev l. field_kept f (place_between next prev) i j l (same next prev)) nodes ring e

pub AllRegistered-Fresh : (nodes : List Node) → AllRegistered nodes → Fresh nodes
AllRegistered-Fresh [] rs = tt
AllRegistered-Fresh (d ∷ nodes) rs = (rs.0.new, AllRegistered-Fresh nodes rs.1)
