-- ===== src/Peer/Bootstrap.antt =====
-- `__init.cpp` from the sorting of the registered nodes to the publishing of their files.
use assignments_computer_net.Base.{
  ℕ, zero, suc, ◌+◌, ◌%◌, ◌-◌, ◌<◌, ◌≡◌, refl, sym, ap, subst, ◌∙◌, inl, inr, Option, none, some,
  List, [], ◌∷◌, arith, ◌>>=◌, >>=-some, Option-cases, length,
}
use mathlib.Core.Option.{some-injective}
use assignments_computer_net.Peer.Text.{Bytes, All}
use assignments_computer_net.Peer.Node.{Node, oat_hash, set_successor, set_predecessor}
use assignments_computer_net.Peer.Lookup.{ids, IsSorted, successor, first_at_least}
use assignments_computer_net.Peer.Map.{find}
use assignments_computer_net.Peer.Ring.{
  field, change, place_between, link_round, link_loop, link, place, sort_nodes, sort_nodes-IsSorted,
}
use assignments_computer_net.Peer.Ring.Linked.{link-Rounds, field_kept}
use assignments_computer_net.Peer.Publish.{known, last_of, last_owner, publish, publish-known}

unfoldable pub bootstrap : List Node → Option (List Node)
bootstrap nodes = do ring ← link (sort_nodes nodes); publish ring

-- Whatever the change of the neighbours at one index keeps, the linking keeps.
module _ {B : Type 0} (F : List Node → B)
    (keeps : (i : ℕ) (next prev : Bytes) (nodes : List Node)
      → F (change i (place_between next prev) nodes) ≡ F nodes) where
  link_round-keeps :
      (n i : ℕ) (nodes nodes' : List Node) → link_round n i nodes ≡ some nodes' → F nodes' ≡ F nodes
  unfolding link_round
  link_round-keeps n i nodes nodes' e =
      elim (Option-cases (field (λ d. d.ip_port) ((i + 1) % n) nodes)) [
        | inl null ↦ ground (arith, null)
        | inr (next, read) ↦ elim (Option-cases (field (λ d. d.ip_port) ((i + n - 1) % n) nodes)) [
          | inl null ↦ ground (arith, null, read)
          | inr (prev, read') ↦
              let made : link_round n i nodes ≡ some (change i (place_between next prev) nodes) =
                >>=-some _ _ next read ∙ >>=-some _ _ prev read' in
              subst (λ l. F l ≡ F nodes) (some-injective _ _ (sym made ∙ e))
                (keeps i next prev nodes)
        ]
      ]

  link_loop-keeps :
      (rounds n i : ℕ) (nodes ring : List Node)
      → link_loop rounds n i nodes ≡ some ring
      → F ring ≡ F nodes
  unfolding link_loop
  link_loop-keeps zero n i nodes ring e = ap F (some-injective _ _ (sym e))
  link_loop-keeps (suc rounds) n i nodes ring e = elim (Option-cases (link_round n i nodes)) [
    | inl null ↦ ground (arith, null)
    | inr (nodes', read) ↦
        link_loop-keeps rounds n (i + 1) nodes' ring (sym (>>=-some _ _ nodes' read) ∙ e)
        ∙ link_round-keeps n i nodes nodes' read
  ]

pub ids-place_between :
    (i : ℕ) (next prev : Bytes) (nodes : List Node)
    → ids (change i (place_between next prev) nodes) ≡ ids nodes
unfolding set_successor set_predecessor
ids-place_between i next prev [] = refl
ids-place_between zero next prev (d ∷ nodes) = refl
ids-place_between (suc i) next prev (d ∷ nodes) =
    ap (λ l. d.node_id ∷ l) (ids-place_between i next prev nodes)

pub last_owner-place_between :
    (file : Bytes) (i : ℕ) (next prev : Bytes) (nodes : List Node) (o : Option Bytes)
    → last_owner file (change i (place_between next prev) nodes) o ≡ last_owner file nodes o
unfolding set_successor set_predecessor
last_owner-place_between file i next prev [] o = refl
last_owner-place_between file zero next prev (d ∷ nodes) o = refl
last_owner-place_between file (suc i) next prev (d ∷ nodes) o =
    last_owner-place_between file i next prev nodes (last_of file d.ip_port d.my_file o)

pub known-place_between :
    (file : Bytes) (j i : ℕ) (next prev : Bytes) (nodes : List Node)
    → known file j (change i (place_between next prev) nodes) ≡ known file j nodes
unfolding set_successor set_predecessor
known-place_between file j i next prev nodes =
    field_kept (λ d. find file d.my_file_info) (place_between next prev) i j nodes (λ d. refl)

first_at_least-lt :
    (x i : ℕ) (ks : List ℕ) (j : ℕ) → first_at_least x i ks ≡ some j → j < i + length ks
unfolding first_at_least
first_at_least-lt x i [] j e = cc
first_at_least-lt x i (k ∷ ks) j e = ground (arith, first_at_least-lt x (i + 1) ks j)

pub successor-lt : (x : ℕ) (ks : List ℕ) → 0 < length ks → successor x ks < length ks
successor-lt x ks h = elim (Option-cases (first_at_least x 0 ks)) [
  | inl past ↦ rw (past, successor) h
  | inr (j, found) ↦ rw (found, successor) (omega (arith, first_at_least-lt x 0 ks j found))
]

-- A node that has registered has no part of the file map yet.
abbrev pub Fresh : List Node → Type 0
Fresh = All (λ d. d.my_file_info ≡ [])

pub known-Fresh :
    (file : Bytes) (j : ℕ) (nodes : List Node)
    → Fresh nodes
    → j < length (ids nodes)
    → known file j nodes ≡ some none
unfolding find
known-Fresh file j [] f h = absurd (omega arith)
known-Fresh file zero (d ∷ nodes) f h = rw f.0 refl
known-Fresh file (suc j) (d ∷ nodes) f h = known-Fresh file j nodes f.1 (omega arith)

pub link-keeps :
    {B : Type 0} (F : List Node → B)
    → ((i : ℕ) (next prev : Bytes) (nodes : List Node)
        → F (change i (place_between next prev) nodes) ≡ F nodes)
    → (nodes ring : List Node) → link nodes ≡ some ring
    → F ring ≡ F nodes
unfolding link
link-keeps F keeps nodes ring e =
    link_loop-keeps F keeps (length nodes) (length nodes) 0 nodes ring e

pub length-ids : (nodes : List Node) → length (ids nodes) ≡ length nodes
length-ids [] = refl
length-ids (d ∷ nodes) = ap suc (length-ids nodes)

pub place-Fresh :
    (d : Node) (nodes : List Node) → d.my_file_info ≡ [] → Fresh nodes → Fresh (place d nodes)
unfolding place
place-Fresh d [] h f = (h, f)
place-Fresh d (e ∷ nodes) h f = ground (arith, place-Fresh d nodes h f.1)

length-place : (d : Node) (nodes : List Node) → length (place d nodes) ≡ suc (length nodes)
unfolding place
length-place d [] = refl
length-place d (e ∷ nodes) = ground (arith, length-place d nodes)

pub sort_nodes-Fresh : (nodes : List Node) → Fresh nodes → Fresh (sort_nodes nodes)
unfolding sort_nodes
sort_nodes-Fresh [] f = f
sort_nodes-Fresh (d ∷ nodes) f = place-Fresh d (sort_nodes nodes) f.0 (sort_nodes-Fresh nodes f.1)

pub length-sort_nodes : (nodes : List Node) → length (sort_nodes nodes) ≡ length nodes
unfolding sort_nodes
length-sort_nodes [] = refl
length-sort_nodes (d ∷ nodes) = length-place d (sort_nodes nodes) ∙ ap suc (length-sort_nodes nodes)

-- The bootstrap program's work on at least one node, none with a file map yet, from the sorting to
-- the publishing, never fails. The nodes it ends with have the identifiers of the sorted ones in
-- their order, and the one that is responsible for a file answers a search for it with the last of
-- its owners in that order, or does not know it if nobody has it.
pub bootstrap-known :
    (file : Bytes) (nodes : List Node)
    → 0 < length nodes
    → Fresh nodes
    → (ring : List Node) × (bootstrap nodes ≡ some ring)
      × (ids ring ≡ ids (sort_nodes nodes))
      × (known file (successor (oat_hash file) (ids ring)) ring
          ≡ some (last_owner file (sort_nodes nodes) none))
unfolding bootstrap
bootstrap-known file nodes some' fresh =
    let sorted = sort_nodes nodes in
    let order = (sort_nodes-IsSorted nodes).1 in
    let linked = link-Rounds sorted in
    let same : ids linked.0 ≡ ids sorted =
      link-keeps ids ids-place_between sorted linked.0 linked.1 in
    let place = successor (oat_hash file) (ids linked.0) in
    let before : known file place linked.0 ≡ some none =
      link-keeps (known file place) (known-place_between file place) sorted linked.0 linked.1
      ∙ known-Fresh file place sorted (sort_nodes-Fresh nodes fresh) (
          subst (λ l. successor (oat_hash file) l < length (ids sorted)) (sym same)
            (successor-lt (oat_hash file) (ids sorted)
              (omega (arith, length-ids sorted, length-sort_nodes nodes, some')))) in
    let done = publish-known file linked.0 none (subst IsSorted (sym same) order) before in
    (
      done.0,
      >>=-some _ _ linked.0 linked.1 ∙ done.1,
      done.2 ∙ same,
      subst
            (λ l.
              known file (successor (oat_hash file) l) done.0
              ≡ some (last_owner file linked.0 none))
            (sym done.2) done.3
          ∙ ap some (
              link-keeps (λ l. last_owner file l none)
                (λ i next prev l. last_owner-place_between file i next prev l none) sorted linked.0
                linked.1),
    )
