-- ===== src/Peer/Ring.antt =====
-- The ring of peers in `__init.cpp`: the nodes sorted by identifiers, and each node's neighbours.
pub mod Linked
pub mod Keeps
use mathlib.Core.List.{Perm}
use mathlib.Core.List.Perm
use assignments_computer_net.Base.{
  Bool-cases, inl, inr, ℕ, zero, suc, ◌+◌, ◌-◌, ◌%◌, ◌≤◌, ◌<◌, ◌≡◌, ◌≢◌, refl, sym, ◌∙◌, ap, ◌⊎◌,
  inl, inr, Bool, true, false, Option, none, some, List, [], ◌∷◌, arith, ltb, if◌then◌else◌, ◌>>=◌,
  length, >>=-some, subst,
}
use assignments_computer_net.Peer.Text.{Bytes}
use assignments_computer_net.Peer.Node.{Node, set_successor, set_predecessor}
use assignments_computer_net.Peer.Lookup.{ids, IsSorted}

-- `std::sort` by `operator<`, which compares identifiers. It leaves open how equal ones stand; here
-- they keep their order.
unfoldable pub place : Node → List Node → List Node
place d [] = d ∷ []
place d (e ∷ nodes) =
    let more = place d nodes in if ltb e.node_id d.node_id then e ∷ more else d ∷ e ∷ nodes

unfoldable pub sort_nodes : List Node → List Node
unfolding place
sort_nodes [] = []
sort_nodes (d ∷ nodes) = place d (sort_nodes nodes)

-- A member of the node at index `i`; `none` out of the array.
abbrev pub field : {A : Type 0} → (Node → A) → ℕ → List Node → Option A
field f i [] = none
field f zero (d ∷ nodes) = some (f d)
field f (suc i) (d ∷ nodes) = field f i nodes

-- The array with the node at index `i` changed.
abbrev pub change : ℕ → (Node → Node) → List Node → List Node
change i g [] = []
change zero g (d ∷ nodes) = g d ∷ nodes
change (suc i) g (d ∷ nodes) = d ∷ change i g nodes

abbrev pub place_between : Bytes → Bytes → Node → Node
place_between next prev d = set_predecessor (set_successor d next) prev

-- One round: the source's `(i-1+n)%n` is the `%` of `i + n - 1`.
unfoldable pub link_round : ℕ → ℕ → List Node → Option (List Node)
link_round n i nodes = do
  next ← field (λ d. d.ip_port) ((i + 1) % n) nodes
  prev ← field (λ d. d.ip_port) ((i + n - 1) % n) nodes
  some (change i (place_between next prev) nodes)

unfoldable pub link_loop : ℕ → ℕ → ℕ → List Node → Option (List Node)
unfolding link_round
link_loop zero n i nodes = some nodes
link_loop (suc rounds) n i nodes = do
  nodes' ← link_round n i nodes
  link_loop rounds n (i + 1) nodes'

unfoldable pub link : List Node → Option (List Node)
unfolding link_loop
link nodes = link_loop (length nodes) (length nodes) 0 nodes

place-IsSorted :
    (d : Node) (nodes : List Node) → IsSorted (ids nodes) → IsSorted (ids (place d nodes))
unfolding place
place-IsSorted d [] s = tt
place-IsSorted d (e ∷ []) s = ground arith
place-IsSorted d (e ∷ b ∷ nodes) s = ground (arith, place-IsSorted d (b ∷ nodes) s.1)

place-Perm : (d : Node) (nodes : List Node) → Perm (d ∷ nodes) (place d nodes)
unfolding place
place-Perm d [] = Perm.refl (d ∷ [])
place-Perm d (e ∷ nodes) = elim (Bool-cases (ltb e.node_id d.node_id)) [
  | inl below ↦ rw below (Perm.trans (Perm.swap e d nodes) (Perm.cons e (place-Perm d nodes)))
  | inr high ↦ rw high (Perm.refl (d ∷ e ∷ nodes))
]

-- The sorting keeps the nodes, each as often as it was there, and puts them in the order of their
-- identifiers.
pub sort_nodes-IsSorted :
    (nodes : List Node) → Perm nodes (sort_nodes nodes) × IsSorted (ids (sort_nodes nodes))
unfolding sort_nodes
sort_nodes-IsSorted [] = (Perm.refl [], tt)
sort_nodes-IsSorted (d ∷ nodes) =
    let rest = sort_nodes-IsSorted nodes in
    (
      Perm.trans (Perm.cons d rest.0) (place-Perm d (sort_nodes nodes)),
      place-IsSorted d (sort_nodes nodes) rest.1,
    )
