-- ===== src/Peer/Ring/Linked.antt =====
-- Linking the nodes makes a ring.
use native.Mathlib.Nat.{mod-lt, mod-eq_of_lt, mod_self, add-mod_right}
use assignments_computer_net.Base.{
  ℕ, zero, suc, ◌+◌, ◌-◌, ◌%◌, ◌<◌, ◌≡◌, ◌≢◌, refl, sym, ◌∙◌, ap, ◌⊎◌, inl, inr, Option, some, List,
  [], ◌∷◌, arith, length, >>=-some, subst,
}
use assignments_computer_net.Peer.Text.{Bytes}
use assignments_computer_net.Peer.Node.{Node, set_successor, set_predecessor}
use assignments_computer_net.Peer.Ring.{field, change, place_between, link_round, link_loop, link}

-- Reading a changed array.
pub field_defined :
    {A : Type 0} (f : Node → A) (i : ℕ) (nodes : List Node)
    → i < length nodes
    → (b : A) × (field f i nodes ≡ some b)
field_defined f i [] h = absurd (omega arith)
field_defined f zero (d ∷ nodes) h = (f d, refl)
field_defined f (suc i) (d ∷ nodes) h = field_defined f i nodes (omega arith)

length-change :
    (i : ℕ) (g : Node → Node) (nodes : List Node) → length (change i g nodes) ≡ length nodes
length-change i g [] = refl
length-change zero g (d ∷ nodes) = refl
length-change (suc i) g (d ∷ nodes) = ap suc (length-change i g nodes)

pub field_kept :
    {A : Type 0} (f : Node → A) (g : Node → Node) (i j : ℕ) (nodes : List Node)
    → ((d : Node) → f (g d) ≡ f d)
    → field f j (change i g nodes) ≡ field f j nodes
field_kept f g i j [] h = refl
field_kept f g zero zero (d ∷ nodes) h = ap some (h d)
field_kept f g zero (suc j) (d ∷ nodes) h = refl
field_kept f g (suc i) zero (d ∷ nodes) h = refl
field_kept f g (suc i) (suc j) (d ∷ nodes) h = field_kept f g i j nodes h

pub field_other :
    {A : Type 0} (f : Node → A) (g : Node → Node) (i j : ℕ) (nodes : List Node)
    → j ≢ i
    → field f j (change i g nodes) ≡ field f j nodes
field_other f g i j [] h = refl
field_other f g zero zero (d ∷ nodes) h = absurd (h refl)
field_other f g zero (suc j) (d ∷ nodes) h = refl
field_other f g (suc i) zero (d ∷ nodes) h = refl
field_other f g (suc i) (suc j) (d ∷ nodes) h = field_other f g i j nodes (λ e. h (ap suc e))

field_set :
    {A : Type 0} (f : Node → A) (g : Node → Node) (i : ℕ) (nodes : List Node) (b : A)
    → i < length nodes
    → ((d : Node) → f (g d) ≡ b)
    → field f i (change i g nodes) ≡ some b
field_set f g i [] b l h = absurd (omega arith)
field_set f g zero (d ∷ nodes) b l h = ap some (h d)
field_set f g (suc i) (d ∷ nodes) b l h = field_set f g i nodes b (omega arith) h

abbrev pub address : ℕ → List Node → Option Bytes
address = field (λ d. d.ip_port)

-- The node at `j` names the addresses that `before` has on both sides of `j`.
pub record Between (before : List Node) (n : ℕ) (nodes : List Node) (j : ℕ) : Type 0 where
  pub next_side : field (λ d. d.scr) j nodes ≡ address ((j + 1) % n) before
  pub previous_side : field (λ d. d.pdr) j nodes ≡ address ((j + n - 1) % n) before

-- After `i` rounds the addresses are as they were, and the first `i` nodes are linked.
pub record Rounds (before : List Node) (n i : ℕ) (nodes : List Node) : Type 0 where
  pub size : length nodes ≡ n
  pub addresses : (j : ℕ) → address j nodes ≡ address j before
  pub linked : (j : ℕ) → j < i → Between before n nodes j

lt_or_eq : (j i : ℕ) → j < i + 1 → (j < i) ⊎ (j ≡ i)
lt_or_eq j i h = ground arith

link_round-Rounds :
    (before : List Node) (n i : ℕ) (nodes : List Node)
    → i < n
    → Rounds before n i nodes
    → (nodes' : List Node) × (link_round n i nodes ≡ some nodes') × Rounds before n (i + 1) nodes'
unfolding link_round set_successor set_predecessor
link_round-Rounds before n i nodes below r =
    let next =
      field_defined (λ d. d.ip_port) ((i + 1) % n) nodes
        (subst (λ m. (i + 1) % n < m) (sym r.size) (mod-lt (i + 1) (omega arith))) in
    let prev =
      field_defined (λ d. d.ip_port) ((i + n - 1) % n) nodes
        (subst (λ m. (i + n - 1) % n < m) (sym r.size) (mod-lt (i + n - 1) (omega arith))) in
    let g = place_between next.0 prev.0 in
    let here : i < length nodes = omega (arith, r.size) in
    (
      change i g nodes,
      >>=-some _ _ _ next.1 ∙ >>=-some _ _ _ prev.1,
      record {
        size = length-change i g nodes ∙ r.size;
        addresses = λ j. field_kept (λ d. d.ip_port) g i j nodes (λ d. refl) ∙ r.addresses j;
        linked = λ j below'. elim (lt_or_eq j i below') [
          | inl earlier ↦
              let apart : j ≢ i = omega arith in
              record {
                next_side =
                    field_other (λ d. d.scr) g i j nodes apart ∙ (r.linked j earlier).next_side;
                previous_side =
                    field_other (λ d. d.pdr) g i j nodes apart ∙ (r.linked j earlier).previous_side;
              }
          | inr same ↦ subst (Between before n (change i g nodes)) (sym same) (record {
            next_side =
                field_set (λ d. d.scr) g i nodes next.0 here (λ d. refl)
                ∙ (sym next.1 ∙ r.addresses ((i + 1) % n));
            previous_side =
                field_set (λ d. d.pdr) g i nodes prev.0 here (λ d. refl)
                ∙ (sym prev.1 ∙ r.addresses ((i + n - 1) % n));
          })
        ];
      },
    )

link_loop-Rounds :
    (rounds : ℕ) (before : List Node) (n i : ℕ) (nodes : List Node)
    → i + rounds ≡ n
    → Rounds before n i nodes
    → (ring : List Node) × (link_loop rounds n i nodes ≡ some ring) × Rounds before n n ring
unfolding link_loop
link_loop-Rounds zero before n i nodes e r =
    (nodes, refl, subst (λ k. Rounds before n k nodes) (omega (arith, e)) r)
link_loop-Rounds (suc rounds) before n i nodes e r =
    let one = link_round-Rounds before n i nodes (omega (arith, e)) r in
    let rest = link_loop-Rounds rounds before n (i + 1) one.0 (omega (arith, e)) one.2 in
    (rest.0, >>=-some _ _ _ one.1 ∙ rest.1, rest.2)

pub link-Rounds :
    (nodes : List Node)
    → (ring : List Node) × (link nodes ≡ some ring)
      × Rounds nodes (length nodes) (length nodes) ring
unfolding link
link-Rounds nodes =
    link_loop-Rounds (length nodes) nodes (length nodes) 0 nodes (omega arith)
      (record { size = refl; addresses = λ j. refl; linked = λ j below. absurd (omega arith) })

-- One step on the ring and one step back.
there_and_back : (j n : ℕ) → j < n → ((j + 1) % n + n - 1) % n ≡ j
there_and_back j n below =
    let past : j < n → j + 1 + n - 1 ≡ j + n = λ _. omega arith in
    let last : j + 1 ≡ n → 0 + n - 1 ≡ j = λ end. omega (arith, end) in
    elim (lt_or_eq (j + 1) n (omega arith)) [
      | inl inside ↦
          ap (λ k. (k + n - 1) % n) (mod-eq_of_lt inside)
          ∙ (ap (λ k. k % n) (past below) ∙ (add-mod_right j n ∙ mod-eq_of_lt below))
      | inr end ↦
          ap (λ k. (k + n - 1) % n) (ap (λ k. k % n) end ∙ mod_self n)
          ∙ (ap (λ k. k % n) (last end) ∙ mod-eq_of_lt below)
    ]

-- Linking never fails, and the nodes form a ring: the node at an index names the address of the
-- node behind it, around the end, as its successor, and that node names its address as its
-- predecessor. No node changes its address.
pub link-ring :
    (nodes : List Node) (j : ℕ)
    → j < length nodes
    → (ring : List Node) × (link nodes ≡ some ring)
      × (length ring ≡ length nodes)
      × (field (λ d. d.ip_port) j ring ≡ field (λ d. d.ip_port) j nodes)
      × (field (λ d. d.scr) j ring ≡ field (λ d. d.ip_port) ((j + 1) % length nodes) ring)
      × (field (λ d. d.pdr) ((j + 1) % length nodes) ring ≡ field (λ d. d.ip_port) j ring)
link-ring nodes j below =
    let n = length nodes in
    let made = link-Rounds nodes in
    let r : Rounds nodes n n made.0 = made.2 in
    let next : (j + 1) % n < n = mod-lt (j + 1) (omega arith) in
    (
      made.0,
      made.1,
      r.size,
      r.addresses j,
      (r.linked j below).next_side ∙ sym (r.addresses ((j + 1) % n)),
      (r.linked ((j + 1) % n) next).previous_side
          ∙ (ap (λ k. address k nodes) (there_and_back j n below) ∙ sym (r.addresses j)),
    )
