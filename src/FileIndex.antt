-- ===== src/FileIndex.antt =====
-- `list_of_files` of assignment 5 (`FIS_Server.cpp`), up to the call of `insert`, whose arguments are
-- missing there: the names for which it is reached. The directory is an argument.
use mathlib.Core.Logic.{◌≢◌}
use assignments_computer_net.Base.{
  ℕ, zero, suc, ◌+◌, ◌≡◌, ◌<◌, ◌≤◌, refl, ap, ◌∙◌, inl, inr, Bool, true, false, ◌&&◌, ◌||◌, not,
  Option, none, some, List, [], ◌∷◌, ◌++◌, length, length-append, get_elem?, arith, ltb, ltb_of_lt,
  ◌==◌, if◌then◌else◌, if-false, if-true, ◌>>=◌, >>=-some, >>=-none, Option-cases,
}
use assignments_computer_net.Peer.Text.{Bytes, Lacks}
use assignments_computer_net.Peer.Search.{codes}

-- `struct dirent`.
pub record Dirent : Type 0 where
  pub d_name : Bytes
  pub d_type : ℕ

abbrev pub dot : ℕ
dot = 46

abbrev drop : ℕ → Bytes → Bytes
drop zero s = s
drop (suc n) [] = []
drop (suc n) (c ∷ s) = drop n s

-- `while (d_name[i] != '.') i--` from `i` = `n` - 1. Without a dot it leaves the array: `none`.
find_dot : ℕ → Bytes → Option ℕ
find_dot zero name = none
find_dot (suc i) name = do c ← get_elem? name i; if c == dot then some i else find_dot i name

-- `file_type`, a buffer of 100 bytes, the last one for the zero.
pub file_type : Bytes → Option Bytes
unfolding find_dot
file_type name = do
  i ← find_dot (length name) name
  if ltb (length (drop i name)) 100 then some (drop i name) else none

-- `strcmp` with 0.
abbrev same_text : Bytes → Bytes → Bool
same_text [] [] = true
same_text [] (d ∷ t) = false
same_text (c ∷ s) [] = false
same_text (c ∷ s) (d ∷ t) = c == d && same_text s t

is_listed : Bytes → Bool
is_listed ext =
    same_text ext (codes ".txt")
    || same_text ext (codes ".cpp")
    || same_text ext (codes ".py")
    || same_text ext (codes ".c")

abbrev is_hidden : Bytes → Bool
is_hidden [] = false
is_hidden (c ∷ name) = c == dot

-- One round for an entry; directories have the type 4.
list_entry : Dirent → List Bytes → Option (List Bytes)
unfolding file_type is_listed
list_entry dir table =
    if not (is_hidden dir.d_name) && not (dir.d_type == 4)
    then (do
      ext ← file_type dir.d_name
      some (if is_listed ext then table ++ dir.d_name ∷ [] else table))
    else some table

pub list_of_files : List Dirent → List Bytes → Option (List Bytes)
unfolding list_entry
list_of_files [] table = some table
list_of_files (dir ∷ dirs) table = do table' ← list_entry dir table; list_of_files dirs table'

drop-append : (a t : Bytes) → drop (length a) (a ++ t) ≡ t
drop-append [] t = refl
drop-append (c ∷ a) t = drop-append a t

get_elem?-append : (a t : Bytes) (i : ℕ) → get_elem? (a ++ t) (length a + i) ≡ get_elem? t i
get_elem?-append [] t i = ap (get_elem? t) (omega arith)
get_elem?-append (c ∷ a) t i =
    let e : suc (length a) + i ≡ suc (length a + i) = omega arith in
    ap (get_elem? (c ∷ a ++ t)) e ∙ get_elem?-append a t i

get_elem?-Lacks :
    (b : Bytes) (i : ℕ)
    → Lacks dot b
    → i < length b
    → (c : ℕ) × (get_elem? b i ≡ some c) × (c ≢ dot)
get_elem?-Lacks [] i h l = absurd (omega arith)
get_elem?-Lacks (c ∷ b) zero h l = (c, refl, h.0)
get_elem?-Lacks (c ∷ b) (suc i) h l = get_elem?-Lacks b i h.1 (omega arith)

find_dot-more :
    (i c : ℕ) (name : Bytes)
    → get_elem? name i ≡ some c
    → c ≢ dot
    → find_dot (suc i) name ≡ find_dot i name
unfolding find_dot
find_dot-more i c name e other =
    let no' : (c == dot) ≡ false = ground (arith, other) in >>=-some _ _ c e ∙ if-false _ _ _ no'

find_dot-append :
    (a b : Bytes) (k : ℕ)
    → Lacks dot b
    → k ≤ length b
    → find_dot (suc (length a + k)) (a ++ dot ∷ b) ≡ some (length a)
unfolding find_dot
find_dot-append a b zero h l =
    >>=-some _ _ dot (get_elem?-append a (dot ∷ b) 0) ∙ ap some (omega arith)
find_dot-append a b (suc k) h l =
    let (c, e, other) = get_elem?-Lacks b k h (omega (arith, l)) in
    let same : length a + suc k ≡ suc (length a + k) = omega arith in
    find_dot-more (length a + suc k) c (a ++ dot ∷ b) (get_elem?-append a (dot ∷ b) (suc k) ∙ e)
      other
    ∙ (ap (λ i. find_dot i (a ++ dot ∷ b)) same ∙ find_dot-append a b k h (omega (arith, l)))

find_dot-none : (n : ℕ) (name : Bytes) → Lacks dot name → n ≤ length name → find_dot n name ≡ none
unfolding find_dot
find_dot-none zero name h l = refl
find_dot-none (suc n) name h l =
    let (c, e, other) = get_elem?-Lacks name n h (omega (arith, l)) in
    find_dot-more n c name e other ∙ find_dot-none n name h (omega (arith, l))

-- The type of a file is its name from the last dot on, when that has at most 99 bytes.
pub file_type-append :
    (a b : Bytes) → Lacks dot b → length b < 99 → file_type (a ++ dot ∷ b) ≡ some (dot ∷ b)
unfolding file_type
file_type-append a b h short =
    let size : length (a ++ dot ∷ b) ≡ suc (length a + length b) =
      omega (arith, length-append a (dot ∷ b)) in
    let found : find_dot (length (a ++ dot ∷ b)) (a ++ dot ∷ b) ≡ some (length a) =
      ap (λ n. find_dot n (a ++ dot ∷ b)) size ∙ find_dot-append a b (length b) h (omega arith) in
    let rest : drop (length a) (a ++ dot ∷ b) ≡ dot ∷ b = drop-append a (dot ∷ b) in
    let fits : ltb (suc (length b)) 100 ≡ true =
      ltb_of_lt (suc (length b)) 100 (omega (arith, short)) in
    >>=-some _ _ (length a) found ∙ rw (rest, fits) refl

both : (a b : Bool) → a ≡ false → b ≡ false → (not a && not b) ≡ true
both a b h k = ground arith

is_hidden-Lacks : (name : Bytes) → Lacks dot name → is_hidden name ≡ false
is_hidden-Lacks [] h = refl
is_hidden-Lacks (c ∷ name) h = ground arith

-- An entry that is neither hidden nor a directory, and whose name has no dot, makes the loop leave
-- the array, wherever the entry stands in the directory.
pub list_of_files_undefined :
    (before after : List Dirent) (dir : Dirent) (table : List Bytes)
    → Lacks dot dir.d_name
    → dir.d_type ≢ 4
    → list_of_files (before ++ dir ∷ after) table ≡ none
unfolding list_of_files list_entry file_type
list_of_files_undefined [] after dir table plain other =
    let shown : (not (is_hidden dir.d_name) && not (dir.d_type == 4)) ≡ true =
      both (is_hidden dir.d_name) (dir.d_type == 4) (is_hidden-Lacks dir.d_name plain)
        (ground (arith, other)) in
    let lost : file_type dir.d_name ≡ none =
      >>=-none _ _ (find_dot-none (length dir.d_name) dir.d_name plain (omega arith)) in
    >>=-none _ _ (if-true _ _ _ shown ∙ >>=-none _ _ lost)
list_of_files_undefined (d ∷ before) after dir table plain other =
    elim (Option-cases (list_entry d table)) [
      | inl none' ↦ >>=-none _ _ none'
      | inr (table', some') ↦
          >>=-some _ _ table' some' ∙ list_of_files_undefined before after dir table' plain other
    ]
