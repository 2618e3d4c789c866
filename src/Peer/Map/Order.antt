-- ===== src/Peer/Map/Order.antt =====
-- The order of the keys of a `std::map`, which an assignment keeps.
use Prim.Native.Nat.{Ordering}
use assignments_computer_net.Base.{◌≡◌, refl, sym, subst, [], ◌∷◌, ◌++◌, arith}
use assignments_computer_net.Peer.Text.{Bytes, All}
use assignments_computer_net.Peer.Map.{
  compare_bytes, FileMap, insert, Below, Continues, IsSorted, compare_bytes_self,
}

compare_bytes_flip :
    (k j : Bytes) → compare_bytes k j ≡ Ordering.gt → compare_bytes j k ≡ Ordering.lt
unfolding compare_bytes
compare_bytes_flip [] [] h = cc
compare_bytes_flip [] (d ∷ t) h = cc
compare_bytes_flip (c ∷ s) [] h = refl
compare_bytes_flip (c ∷ s) (d ∷ t) h = ground (arith, compare_bytes_flip s t)

compare_bytes_flop :
    (k j : Bytes) → compare_bytes k j ≡ Ordering.lt → compare_bytes j k ≡ Ordering.gt
unfolding compare_bytes
compare_bytes_flop [] [] h = cc
compare_bytes_flop [] (d ∷ t) h = refl
compare_bytes_flop (c ∷ s) [] h = cc
compare_bytes_flop (c ∷ s) (d ∷ t) h = ground (arith, compare_bytes_flop s t)

compare_bytes_trans :
    (k j i : Bytes)
    → compare_bytes k j ≡ Ordering.lt
    → compare_bytes j i ≡ Ordering.lt
    → compare_bytes k i ≡ Ordering.lt
unfolding compare_bytes
compare_bytes_trans [] [] i h l = cc
compare_bytes_trans (c ∷ s) [] i h l = cc
compare_bytes_trans [] (d ∷ t) [] h l = cc
compare_bytes_trans [] (d ∷ t) (e ∷ u) h l = refl
compare_bytes_trans (c ∷ s) (d ∷ t) [] h l = cc
compare_bytes_trans (c ∷ s) (d ∷ t) (e ∷ u) h l = ground (arith, compare_bytes_trans s t u)

-- Every key of the map is above `k`.
abbrev Above : Bytes → FileMap → Type 0
Above k = All (λ e. compare_bytes k e.0 ≡ Ordering.lt)

-- Each key is below the ones behind it.
abbrev pub IsOrdered : FileMap → Type 0
IsOrdered [] = Unit {0}
IsOrdered ((k, v) ∷ m) = Above k m × IsOrdered m

Above-trans : (k j : Bytes) (m : FileMap) → compare_bytes k j ≡ Ordering.lt → Above j m → Above k m
Above-trans k j [] h a = tt
Above-trans k j (e ∷ m) h a = (compare_bytes_trans k j e.0 h a.0, Above-trans k j m h a.1)

Above-insert :
    (j k v : Bytes) (m : FileMap)
    → compare_bytes j k ≡ Ordering.lt
    → Above j m
    → Above j (insert k v m)
unfolding insert
Above-insert j k v [] h a = (h, tt)
Above-insert j k v (e ∷ m) h a = ground (arith, Above-insert j k v m h a.1)

data OrderingCase (o : Ordering) : Type 0 where
  below : o ≡ Ordering.lt → OrderingCase o
  same : o ≡ Ordering.eq → OrderingCase o
  above : o ≡ Ordering.gt → OrderingCase o

Ordering-cases : (o : Ordering) → OrderingCase o
Ordering-cases Ordering.lt = below refl
Ordering-cases Ordering.eq = same refl
Ordering-cases Ordering.gt = above refl

module _ (k v j w : Bytes) (m : FileMap) where
  insert-lt : compare_bytes k j ≡ Ordering.lt → insert k v ((j, w) ∷ m) ≡ (k, v) ∷ (j, w) ∷ m
  unfolding insert
  insert-lt h = rw (h, insert) refl

  insert-eq : compare_bytes k j ≡ Ordering.eq → insert k v ((j, w) ∷ m) ≡ (j, v) ∷ m
  unfolding insert
  insert-eq h = rw (h, insert) refl

  insert-gt : compare_bytes k j ≡ Ordering.gt → insert k v ((j, w) ∷ m) ≡ (j, w) ∷ insert k v m
  unfolding insert
  insert-gt h = rw (h, insert) refl

-- An assignment keeps the order.
pub insert-IsOrdered : (k v : Bytes) (m : FileMap) → IsOrdered m → IsOrdered (insert k v m)
unfolding insert
insert-IsOrdered k v [] o = (tt, tt)
insert-IsOrdered k v ((j, w) ∷ m) o = elim (Ordering-cases (compare_bytes k j)) [
  | below h ↦ subst IsOrdered (sym (insert-lt k v j w m h)) ((h, Above-trans k j m h o.0), o)
  | same h ↦ subst IsOrdered (sym (insert-eq k v j w m h)) o
  | above h ↦
      subst IsOrdered (sym (insert-gt k v j w m h))
        (Above-insert j k v m (compare_bytes_flip k j h) o.0, insert-IsOrdered k v m o.1)
]

Below-snoc :
    (j k v : Bytes) (before : FileMap)
    → Below j before
    → compare_bytes k j ≡ Ordering.lt
    → Below j (before ++ (k, v) ∷ [])
Below-snoc j k v [] b h = (compare_bytes_flop k j h, tt)
Below-snoc j k v (e ∷ before) b h = (b.0, Below-snoc j k v before b.1 h)

All-Below :
    (k v : Bytes) (before m : FileMap)
    → Above k m
    → All (λ e. Below e.0 before) m
    → All (λ e. Below e.0 (before ++ (k, v) ∷ [])) m
All-Below k v before [] a b = tt
All-Below k v before (e ∷ m) a b =
    (Below-snoc e.0 k v before b.0 a.0, All-Below k v before m a.1 b.1)

Continues-IsOrdered :
    (before m : FileMap) → IsOrdered m → All (λ e. Below e.0 before) m → Continues before m
Continues-IsOrdered before [] o b = tt
Continues-IsOrdered before ((k, v) ∷ m) o b =
    (b.0, Continues-IsOrdered (before ++ (k, v) ∷ []) m o.1 (All-Below k v before m o.0 b.1))

All-Below-nil : (m : FileMap) → All (λ e. Below e.0 []) m
All-Below-nil [] = tt
All-Below-nil (e ∷ m) = (tt, All-Below-nil m)

pub IsSorted-IsOrdered : (m : FileMap) → IsOrdered m → IsSorted m
IsSorted-IsOrdered m o = Continues-IsOrdered [] m o (All-Below-nil m)

-- What holds of each entry, and of the new one.
pub insert-All :
    (Q : Bytes × Bytes → Type 0) (k v : Bytes) (m : FileMap)
    → ((j : Bytes) → compare_bytes k j ≡ Ordering.eq → Q (j, v))
    → All Q m
    → All Q (insert k v m)
unfolding insert
insert-All Q k v [] h qs = (h k (compare_bytes_self k), tt)
insert-All Q k v ((j, w) ∷ m) h qs = elim (Ordering-cases (compare_bytes k j)) [
  | below e ↦ subst (All Q) (sym (insert-lt k v j w m e)) (h k (compare_bytes_self k), qs)
  | same e ↦ subst (All Q) (sym (insert-eq k v j w m e)) (h j e, qs.1)
  | above e ↦ subst (All Q) (sym (insert-gt k v j w m e)) (qs.0, insert-All Q k v m h qs.1)
]
