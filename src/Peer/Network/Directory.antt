-- ===== src/Peer/Network/Directory.antt =====
-- The ring that the bootstrap program makes answers searches like one directory.
use mathlib.Core.Option.{some-injective}
use native.Mathlib.Nat.{mod-lt, add-mod-mod, mod-eq_of_lt, add-mod_right}
use assignments_computer_net.Base.{
  ℕ, suc, ◌+◌, ◌-◌, ◌%◌, ◌≡◌, ◌<◌, sym, ap, subst, ◌∙◌, inl, inr, none, some, List, [], length,
  arith, >>=-some,
}
use assignments_computer_net.Peer.Text.{Bytes}
use assignments_computer_net.Peer.Map.{find}
use assignments_computer_net.Peer.Node.{Node, oat_hash}
use assignments_computer_net.Peer.Lookup.{ids, IsSorted, successor}
use assignments_computer_net.Peer.Ring.{sort_nodes, sort_nodes-IsSorted}
use assignments_computer_net.Peer.Ring.Linked.{link-Rounds}
use assignments_computer_net.Peer.Publish.{known, publish-known, last_owner, index_same_or_not}
use assignments_computer_net.Peer.Bootstrap.{
  bootstrap, length-ids, length-sort_nodes, successor-lt, link-keeps, ids-place_between,
  known-place_between, known-Fresh,
}
use assignments_computer_net.Peer.Network.{Hops, IsRing}
use assignments_computer_net.Peer.Network.Registered.{
  AllRegistered, sort_nodes-Registered, node_of, AllRegistered-Fresh,
}
use assignments_computer_net.Peer.Network.Travel.{
  Asks, to_peer, answer_of, Found, search_reaches, search_circulates,
}
use assignments_computer_net.Peer.Network.Made.{
  Made, Made-IsRing, place_of, place_of-lt, finds_elsewhere, finds_there, only_there, out_size,
}

module _ (s : List Node) (rs : AllRegistered s) (M : Made s rs) where
  abbrev n : ℕ
  n = length s

  -- How far it is from `j` to `p`.
  distance : ℕ → ℕ → ℕ
  distance j p = (p + n - j) % n

  distance_lem : (j p : ℕ) → j < n → p < n → (j + distance j p) % n ≡ p
  unfolding distance
  distance_lem j p hj hp =
      let whole : j + (p + n - j) ≡ p + n = omega (arith, hj) in
      add-mod-mod j (p + n - j) n ∙ (ap (λ k. k % n) whole ∙ (add-mod_right p n ∙ mod-eq_of_lt hp))

  distance-lt : (j p : ℕ) → 0 < n → distance j p < n
  unfolding distance
  distance-lt j p h = mod-lt (p + n - j) h

  module _ (file ip : Bytes) (port : ℕ) (A : Asks file ip port) (j : ℕ) (below : j < n) where
    Made-answers :
        (owner : Bytes)
        → last_owner file s none ≡ some owner
        → (k : ℕ) × (k < n)
          × Hops M.out
              (suc k)
              (to_peer M.out (Made-IsRing s rs M) file ip port A j)
              (answer_of M.out (Made-IsRing s rs M) file ip port A owner)
    unfolding Made-IsRing
    Made-answers owner has =
        let pos : 0 < n = omega (arith, below) in
        let p = place_of s rs M file in
        let m = distance j p in
        let F : Found M.out (Made-IsRing s rs M) file ip port A m j =
          search_reaches M.out (Made-IsRing s rs M) file ip port A m j owner
            (subst (λ k. j < k) (sym (out_size s rs M)) below)
            (ap (λ k. find file (node_of M.out ((j + m) % k)).my_file_info) (out_size s rs M)
              ∙ (ap (λ k. find file (node_of M.out k).my_file_info)
                    (distance_lem j p below (place_of-lt s rs M file pos))
                  ∙ (finds_there s rs M file pos ∙ has))) in
        let i = (j + F.hops) % length M.out in
        let inside : i < n =
          subst (λ k. i < k) (out_size s rs M)
            (mod-lt (j + F.hops) (subst (λ k. 0 < k) (sym (out_size s rs M)) pos)) in
        let same : F.owner ≡ owner =
          some-injective _ _ (only_there s rs M file i F.owner inside F.knows ∙ has) in
        (
          F.hops,
          omega (arith, F.near, distance-lt j p pos),
          subst
              (λ o.
                Hops M.out (suc F.hops) (to_peer M.out (Made-IsRing s rs M) file ip port A j)
                  (answer_of M.out (Made-IsRing s rs M) file ip port A o))
              same F.arrives,
        )

    Made-circulates :
        (k : ℕ)
        → last_owner file s none ≡ none
        → Hops M.out k
            (to_peer M.out (Made-IsRing s rs M) file ip port A j)
            (to_peer M.out (Made-IsRing s rs M) file ip port A ((j + k) % length M.out))
    unfolding Made-IsRing
    Made-circulates k unowned =
        search_circulates M.out (Made-IsRing s rs M) file ip port A k j
          (subst (λ l. j < l) (sym (out_size s rs M)) below)
          (λ i inside.
            let inside' = subst (λ l. i < l) (out_size s rs M) inside in
            elim (index_same_or_not i (place_of s rs M file)) [
              | inr apart ↦ finds_elsewhere s rs M file i inside' apart
              | inl here ↦
                  ap (λ l. find file (node_of M.out l).my_file_info) here
                  ∙ (finds_there s rs M file (omega (arith, inside')) ∙ unowned)
            ])

bootstrap-Made :
    (nodes : List Node) (rs : AllRegistered nodes)
    → 0 < length nodes
    → (M : Made (sort_nodes nodes) (sort_nodes-Registered nodes rs)) × (bootstrap nodes
        ≡ some M.out)
unfolding bootstrap
bootstrap-Made nodes rs some' =
    let s = sort_nodes nodes in
    let order = (sort_nodes-IsSorted nodes).1 in
    let (linked, links, rounds) = link-Rounds s in
    let same : ids linked ≡ ids s = link-keeps ids ids-place_between s linked links in
    let order' = subst IsSorted (sym same) order in
    let p = successor (oat_hash []) (ids linked) in
    let below : p < length (ids s) =
      subst (λ l. successor (oat_hash []) l < length (ids s)) (sym same)
        (successor-lt (oat_hash []) (ids s)
          (omega (arith, length-ids s, length-sort_nodes nodes, some'))) in
    let new : known [] p linked ≡ some none =
      link-keeps (known [] p) (known-place_between [] p) s linked links
      ∙ known-Fresh [] p s (AllRegistered-Fresh s (sort_nodes-Registered nodes rs)) below in
    let (out, publishes, out_same, _) = publish-known [] linked none order' new in
    (
      record {
        linked = linked;
        links = links;
        rounds = rounds;
        out = out;
        publishes = publishes;
        order = order;
        linked_ids = same;
        out_ids = out_same ∙ same;
      },
      >>=-some _ _ linked links ∙ publishes,
    )

-- The peers together are a directory: after the bootstrap program's work on the registered nodes, a
-- search that starts at any peer for a file that somebody has is answered to the asker, with the last
-- owner in the order of the identifiers, after fewer forwardings than there are peers, none of which
-- is lost. The request is one that peers answer or pass on.
pub bootstrap-answers :
    (nodes : List Node) (rs : AllRegistered nodes) (file ip owner : Bytes) (port j : ℕ)
    (A : Asks file ip port)
    → j < length nodes
    → last_owner file (sort_nodes nodes) none ≡ some owner
    → (ring : List Node) × (bootstrap nodes ≡ some ring)
      × (R : IsRing ring) × (k : ℕ) × (k < length nodes)
      × Hops ring (suc k) (to_peer ring R file ip port A j) (answer_of ring R file ip port A owner)
bootstrap-answers nodes rs file ip owner port j A below has =
    let s = sort_nodes nodes in
    let rs' = sort_nodes-Registered nodes rs in
    let size = length-sort_nodes nodes in
    let (M, made) = bootstrap-Made nodes rs (omega (arith, below)) in
    let (k, less, hops) =
      Made-answers s rs' M file ip port A j (subst (λ l. j < l) (sym size) below) owner has in
    (M.out, made, Made-IsRing s rs' M, k, omega (arith, less, size), hops)

-- A search for a file that no registered node has, from any of them, is passed on for ever: after any
-- number of messages it is on its way to the peer that many places behind the first. Every node is as its
-- registration left it: an address without a colon, a port below 2 ^ 31 in decimal, and no file map yet.
-- The file name and the asker's address have no space, the asker is an address without a colon and a
-- port below 2 ^ 31, and the request has at most 1000 bytes, no zero byte and no `owner_of` in it.
pub bootstrap-circulates :
    (nodes : List Node) (rs : AllRegistered nodes) (file ip : Bytes) (port j k : ℕ)
    (A : Asks file ip port)
    → j < length nodes
    → last_owner file (sort_nodes nodes) none ≡ none
    → (ring : List Node) × (bootstrap nodes ≡ some ring)
      × (R : IsRing ring) × Hops ring k
          (to_peer ring R file ip port A j)
          (to_peer ring R file ip port A ((j + k) % length ring))
bootstrap-circulates nodes rs file ip port j k A below unowned =
    let s = sort_nodes nodes in
    let rs' = sort_nodes-Registered nodes rs in
    let (M, made) = bootstrap-Made nodes rs (omega (arith, below)) in
    (
      M.out,
      made,
      Made-IsRing s rs' M,
      Made-circulates s rs' M file ip port A j
          (subst (λ l. j < l) (sym (length-sort_nodes nodes)) below) k unowned,
    )
