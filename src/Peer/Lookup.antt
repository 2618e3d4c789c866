-- ===== src/Peer/Lookup.antt =====
-- `map_file_to_node`: the node that is responsible for an identifier.
use assignments_computer_net.Base.{
  ℕ, ◌+◌, ◌≤◌, ◌≡◌, refl, ◌∙◌, ◌⊎◌, inl, inr, Option, none, some, List, [], ◌∷◌, arith, leb_iff,
  ==_iff, Bool-cases, ap, leb, ◌==◌, if◌then◌else◌,
}
use assignments_computer_net.Peer.Node.{Node}

-- `poss`: the identifiers that are not below `x`.
candidates : ℕ → List ℕ → List ℕ
candidates x [] = []
candidates x (k ∷ ks) = let more = candidates x ks in if leb x k then k ∷ more else more

-- `std::sort` on numbers.
insert : ℕ → List ℕ → List ℕ
insert k [] = k ∷ []
insert k (j ∷ ks) = let more = insert k ks in if leb k j then k ∷ j ∷ ks else j ∷ more

sort : List ℕ → List ℕ
unfolding insert
sort [] = []
sort (k ∷ ks) = insert k (sort ks)

-- The second loop: the first index from `i` on with identifier `k`; NULL is `none`.
index_of : ℕ → ℕ → List ℕ → Option ℕ
index_of k i [] = none
index_of k i (j ∷ ks) = let more = index_of k (i + 1) ks in if k == j then some i else more

choose : List ℕ → List ℕ → Option ℕ
unfolding index_of
choose [] all_ids = some 0
choose (k ∷ _) all_ids = index_of k 0 all_ids

abbrev pub ids : List Node → List ℕ
ids [] = []
ids (n ∷ nodes) = n.node_id ∷ ids nodes

-- The index of the node in the array; NULL is `none`.
pub map_file_to_node : ℕ → List Node → Option ℕ
unfolding choose sort candidates
map_file_to_node x all_info = choose (sort (candidates x (ids all_info))) (ids all_info)

-- Each identifier is at most the next.
abbrev pub IsSorted : List ℕ → Type 0
IsSorted [] = Unit {0}
IsSorted (k ∷ []) = Unit {0}
IsSorted (k ∷ j ∷ ks) = (k ≤ j) × IsSorted (j ∷ ks)

-- The specification: the first place from `i` on that is not below `x`.
unfoldable pub first_at_least : ℕ → ℕ → List ℕ → Option ℕ
first_at_least x i [] = none
first_at_least x i (k ∷ ks) =
    let more = first_at_least x (i + 1) ks in if leb x k then some i else more

-- The successor of `x` on the ring: past the last node it is the first one.
abbrev pub successor : ℕ → List ℕ → ℕ
successor x all_ids = elim (first_at_least x 0 all_ids) [ none ↦ 0 | some i ↦ i ]

-- In a sorted list the candidates are sorted already.
IsSorted-tail : (k : ℕ) (ks : List ℕ) → IsSorted (k ∷ ks) → IsSorted ks
IsSorted-tail k [] h = tt
IsSorted-tail k (j ∷ ks) h = h.1

candidates_above : (x k : ℕ) (ks : List ℕ) → x ≤ k → IsSorted (k ∷ ks) → candidates x ks ≡ ks
unfolding candidates
candidates_above x k [] h s = refl
candidates_above x k (j ∷ ks) h s = ground (arith, candidates_above x j ks (omega arith) s.1)

sort_sorted : (ks : List ℕ) → IsSorted ks → sort ks ≡ ks
unfolding sort insert
sort_sorted [] s = refl
sort_sorted (k ∷ []) s = refl
sort_sorted (k ∷ j ∷ ks) s = ground (arith, sort_sorted (j ∷ ks) s.1)

-- The search from any index, over the rest of a sorted array.
choose_from :
    (x i : ℕ) (all_ids : List ℕ)
    → IsSorted all_ids
    → ((sort (candidates x all_ids) ≡ []) × (first_at_least x i all_ids ≡ none))
      ⊎ ((k : ℕ) × (ks : List ℕ) × (sort (candidates x all_ids) ≡ k ∷ ks)
          × (x ≤ k)
          × (index_of k i all_ids ≡ first_at_least x i all_ids)
          × ((j : ℕ) × (first_at_least x i all_ids ≡ some j)))
unfolding candidates first_at_least index_of
choose_from x i [] s = inl (unfold sort in refl, refl)
choose_from x i (k ∷ ks) s = elim (Bool-cases (leb x k)) [
  | inl high ↦
      let above : x ≤ k = (leb_iff x k).0 high in
      let all : candidates x (k ∷ ks) ≡ k ∷ ks = rw (high, candidates_above x k ks above s) refl in
      inr (
        k,
        ks,
        ap sort all ∙ sort_sorted (k ∷ ks) s,
        above,
        rw (high, (==_iff k k).1 refl) refl,
        (i, rw high refl),
      )
  | inr low ↦
      let skip : candidates x (k ∷ ks) ≡ candidates x ks = rw low refl in
      elim (choose_from x (i + 1) ks (IsSorted-tail k ks s)) [
        | inl (none', gone) ↦ inl (ap sort skip ∙ none', rw low gone)
        | inr (c, cs, first, above, same, (j, found)) ↦
            inr (c, cs, ap sort skip ∙ first, above, ground (arith, same), (j, rw low found))
      ]
]

-- On an array sorted by identifiers `map_file_to_node` never returns NULL: it returns the first node
-- whose identifier is not below `x`, and the first node of all if there is none.
pub map_file_to_node-successor :
    (x : ℕ) (all_info : List Node)
    → IsSorted (ids all_info)
    → map_file_to_node x all_info ≡ some (successor x (ids all_info))
unfolding map_file_to_node choose
map_file_to_node-successor x all_info s = elim (choose_from x 0 (ids all_info) s) [
  | inl (none', gone) ↦ ap (λ l. choose l (ids all_info)) none' ∙ rw (gone, successor) refl
  | inr (k, ks, first, above, same, (j, found)) ↦
      ap (λ l. choose l (ids all_info)) first ∙ (same ∙ rw (found, successor) refl)
]
