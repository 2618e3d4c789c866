-- ===== src/Peer/Ring/Keeps.antt =====
-- A property of each node that the sorting and the linking keep.
use mathlib.Core.Option.{some-injective}
use assignments_computer_net.Base.{
  ℕ, zero, suc, ◌+◌, ◌-◌, ◌%◌, ◌≡◌, sym, subst, ◌∙◌, inl, inr, some, List, [], ◌∷◌, ltb, length,
  >>=-some, Bool-cases, Option-cases, arith,
}
use assignments_computer_net.Peer.Text.{Bytes, All}
use assignments_computer_net.Peer.Node.{Node}
use assignments_computer_net.Peer.Ring.{
  place, sort_nodes, field, change, place_between, link_round, link_loop, link,
}

module _ (Q : Node → Type 0) where
  place-All : (d : Node) (nodes : List Node) → Q d → All Q nodes → All Q (place d nodes)
  unfolding place
  place-All d [] q qs = (q, tt)
  place-All d (e ∷ nodes) q qs = elim (Bool-cases (ltb e.node_id d.node_id)) [
    | inl below ↦ rw below (qs.0, place-All d nodes q qs.1)
    | inr high ↦ rw high (q, qs)
  ]

  pub sort_nodes-All : (nodes : List Node) → All Q nodes → All Q (sort_nodes nodes)
  unfolding sort_nodes
  sort_nodes-All [] qs = tt
  sort_nodes-All (d ∷ nodes) qs = place-All d (sort_nodes nodes) qs.0 (sort_nodes-All nodes qs.1)

  pub change-All :
      (i : ℕ) (g : Node → Node) (nodes : List Node)
      → ((d : Node) → Q d → Q (g d))
      → All Q nodes
      → All Q (change i g nodes)
  change-All i g [] h qs = tt
  change-All zero g (d ∷ nodes) h qs = (h d qs.0, qs.1)
  change-All (suc i) g (d ∷ nodes) h qs = (qs.0, change-All i g nodes h qs.1)

  field-All :
      {A : Type 0} (f : Node → A) (W : A → Type 0) (i : ℕ) (nodes : List Node) (a : A)
      → ((d : Node) → Q d → W (f d))
      → All Q nodes
      → field f i nodes ≡ some a
      → W a
  field-All f W i [] a h qs e = absurd cc
  field-All f W zero (d ∷ nodes) a h qs e = subst W (some-injective _ _ e) (h d qs.0)
  field-All f W (suc i) (d ∷ nodes) a h qs e = field-All f W i nodes a h qs.1 e

module _ (Q : Node → Type 0) (W : Bytes → Type 0) (address : (d : Node) → Q d → W d.ip_port)
    (between : (next prev : Bytes) (d : Node)
      → W next
      → W prev
      → Q d
      → Q (place_between next prev d)) where
  link_round-All :
      (n i : ℕ) (nodes nodes' : List Node)
      → All Q nodes
      → link_round n i nodes ≡ some nodes'
      → All Q nodes'
  unfolding link_round
  link_round-All n i nodes nodes' qs e =
      let after = field (λ d. d.ip_port) ((i + 1) % n) nodes in
      let before = field (λ d. d.ip_port) ((i + n - 1) % n) nodes in
      elim (Option-cases after) [
        | inl null ↦ absurd (ground (arith, null))
        | inr (next, read) ↦ elim (Option-cases before) [
          | inl null ↦ absurd (ground (arith, null, read))
          | inr (prev, read') ↦
              let made : link_round n i nodes ≡ some (change i (place_between next prev) nodes) =
                >>=-some _ _ next read ∙ >>=-some _ _ prev read' in
              subst (All Q) (some-injective _ _ (sym made ∙ e)) (
                change-All Q i (place_between next prev) nodes
                  (λ d q.
                    between next prev d
                      (field-All Q (λ c. c.ip_port) W ((i + 1) % n) nodes next address qs read)
                      (field-All Q (λ c. c.ip_port) W ((i + n - 1) % n) nodes prev address qs read')
                      q)
                  qs)
        ]
      ]

  link_loop-All :
      (rounds n i : ℕ) (nodes ring : List Node)
      → All Q nodes
      → link_loop rounds n i nodes ≡ some ring
      → All Q ring
  unfolding link_loop
  link_loop-All zero n i nodes ring qs e = subst (All Q) (some-injective _ _ e) qs
  link_loop-All (suc rounds) n i nodes ring qs e = elim (Option-cases (link_round n i nodes)) [
    | inl null ↦ absurd (ground (arith, null))
    | inr (nodes', read) ↦
        link_loop-All rounds n (i + 1) nodes' ring (link_round-All n i nodes nodes' qs read)
          (sym (>>=-some _ _ nodes' read) ∙ e)
  ]

  pub link-All : (nodes ring : List Node) → All Q nodes → link nodes ≡ some ring → All Q ring
  unfolding link
  link-All nodes ring qs e = link_loop-All (length nodes) (length nodes) 0 nodes ring qs e
