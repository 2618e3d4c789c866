-- ===== src/Peer/Map.antt =====
-- `std::map<string, string>`: an association list in the order of its keys.
pub mod Order
use Prim.Native.Nat.{compare, Ordering}
use assignments_computer_net.Base.{◌≡◌, ◌≢◌, refl, Option, none, some, List, [], ◌∷◌, ◌++◌, arith}
use assignments_computer_net.Peer.Text.{Bytes}

-- `std::string::compare`: byte by byte, and a proper prefix is smaller.
unfoldable pub compare_bytes : Bytes → Bytes → Ordering
compare_bytes [] [] = Ordering.eq
compare_bytes [] (c ∷ s) = Ordering.lt
compare_bytes (c ∷ s) [] = Ordering.gt
compare_bytes (c ∷ s) (d ∷ t) =
    let more = compare_bytes s t in
    elim (compare c d) [
      | Ordering.lt ↦ Ordering.lt
      | Ordering.eq ↦ more
      | Ordering.gt ↦ Ordering.gt
    ]

abbrev pub FileMap : Type 0
FileMap = List (Bytes × Bytes)

-- `map[k] = v`.
pub insert : Bytes → Bytes → FileMap → FileMap
insert k v [] = (k, v) ∷ []
insert k v ((j, w) ∷ m) =
    let more = insert k v m in
    elim (compare_bytes k j) [
      | Ordering.lt ↦ (k, v) ∷ (j, w) ∷ m
      | Ordering.eq ↦ (j, v) ∷ m
      | Ordering.gt ↦ (j, w) ∷ more
    ]

-- `map.find (k)`.
unfoldable pub find : Bytes → FileMap → Option Bytes
find k [] = none
find k ((j, w) ∷ m) =
    let more = find k m in elim (compare_bytes k j) [ Ordering.eq ↦ some w | _ ↦ more ]

-- Every key of the map is below `k`.
abbrev pub Below : Bytes → FileMap → Type 0
Below k [] = Unit {0}
Below k ((j, w) ∷ m) = (compare_bytes k j ≡ Ordering.gt) × Below k m

-- `m` goes on from `before` in the order of the keys.
abbrev pub Continues : FileMap → FileMap → Type 0
Continues before [] = Unit {0}
Continues before ((k, v) ∷ m) = Below k before × Continues (before ++ (k, v) ∷ []) m

abbrev pub IsSorted : FileMap → Type 0
IsSorted = Continues []

pub insert-append : (k v : Bytes) (m : FileMap) → Below k m → insert k v m ≡ m ++ (k, v) ∷ []
unfolding insert
insert-append k v [] b = refl
insert-append k v ((j, w) ∷ m) b = ground (arith, insert-append k v m b.1)

pub compare_bytes_self : (k : Bytes) → compare_bytes k k ≡ Ordering.eq
unfolding compare_bytes
compare_bytes_self [] = refl
compare_bytes_self (c ∷ s) = ground (arith, compare_bytes_self s)

pub eq_of_compare_bytes : (k j : Bytes) → compare_bytes k j ≡ Ordering.eq → k ≡ j
unfolding compare_bytes
eq_of_compare_bytes [] [] h = refl
eq_of_compare_bytes [] (d ∷ t) h = cc
eq_of_compare_bytes (c ∷ s) [] h = cc
eq_of_compare_bytes (c ∷ s) (d ∷ t) h = ground (arith, eq_of_compare_bytes s t)

-- A stored key is found with its value.
pub find-insert_self : (k v : Bytes) (m : FileMap) → find k (insert k v m) ≡ some v
unfolding find insert
find-insert_self k v [] = ground (arith, compare_bytes_self k)
find-insert_self k v ((j, w) ∷ m) = ground (arith, compare_bytes_self k, find-insert_self k v m)

-- Another key is found as before.
pub find-insert_other :
    (k j v : Bytes) (m : FileMap)
    → compare_bytes k j ≢ Ordering.eq
    → find k (insert j v m) ≡ find k m
unfolding find insert
find-insert_other k j v [] h = ground arith
find-insert_other k j v ((i, w) ∷ m) h =
    ground (arith, find-insert_other k j v m h, eq_of_compare_bytes j i)
