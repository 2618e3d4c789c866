-- ===== src/Peer/Text.antt =====
-- `std::string` as a list of bytes, and `std::getline` on a `std::istringstream`.
use assignments_computer_net.Base.{
  ℕ, ◌≡◌, ◌≢◌, refl, Bool, true, false, not, ◌&&◌, Option, none, some, List, [], ◌∷◌, ◌++◌, arith,
  ◌==◌, if◌then◌else◌,
}

abbrev pub Bytes : Type 0
Bytes = List ℕ

abbrev pub space : ℕ
space = b' '

abbrev pub colon : ℕ
colon = b':'

abbrev pub All {ℓ κ} : {A : Type ℓ} → (A → Type κ) → List A → Type κ
All Q [] = Unit
All Q (x ∷ xs) = Q x × All Q xs

-- The text has no byte `d`.
abbrev pub Lacks : ℕ → Bytes → Type 0
Lacks d = All (λ c. c ≢ d)

pub Lacks-append : (d : ℕ) (s t : Bytes) → Lacks d s → Lacks d t → Lacks d (s ++ t)
Lacks-append d [] t h k = k
Lacks-append d (c ∷ s) t h k = (h.0, Lacks-append d s t h.1 k)

-- The unread bytes and the two state bits of a stream.
pub record Stream : Type 0 where
  pub rest : Bytes
  pub eof : Bool
  pub failed : Bool

abbrev pub open_stream : Bytes → Stream
open_stream s = record { rest = s; eof = false; failed = false }

-- The bytes in front of the first `d`, and those behind it if there is one.
unfoldable pub split_at : ℕ → Bytes → Bytes × Option Bytes
split_at d [] = ([], none)
split_at d (c ∷ s) = let r = split_at d s in if c == d then ([], some s) else (c ∷ r.0, r.1)

abbrev pub is_nil : Bytes → Bool
is_nil [] = true
is_nil (c ∷ s) = false

abbrev extract : Bytes × Option Bytes → Bytes × Stream
extract (t, some rest) = (t, open_stream rest)
extract (t, none) = (t, record { rest = []; eof = true; failed = is_nil t })

-- `getline (stream, old, d)`: the new value of the string, and the stream. A stream that is not
-- good fails and leaves the string as it was; the end of the text with nothing read fails too.
unfoldable pub getline : ℕ → Bytes → Stream → Bytes × Stream
getline d old s =
    if not s.eof && not s.failed
    then extract (split_at d s.rest)
    else (old, record s { failed = true })

split_at-append : (d : ℕ) (t rest : Bytes) → Lacks d t → split_at d (t ++ d ∷ rest) ≡ (t, some rest)
unfolding split_at
split_at-append d [] rest h = ground arith
split_at-append d (c ∷ t) rest h = ground (arith, split_at-append d t rest h.1)

split_at-whole : (d : ℕ) (t : Bytes) → Lacks d t → split_at d t ≡ (t, none)
unfolding split_at
split_at-whole d [] h = refl
split_at-whole d (c ∷ t) h = ground (arith, split_at-whole d t h.1)

-- A token that its delimiter follows is read whole.
pub getline-append :
    (d : ℕ) (old t rest : Bytes)
    → Lacks d t
    → getline d old (open_stream (t ++ d ∷ rest)) ≡ (t, open_stream rest)
unfolding getline
getline-append d old t rest h = rw (split_at-append d t rest h) refl

-- So is the last one, which ends the stream.
pub getline-whole :
    (d : ℕ) (old t : Bytes)
    → Lacks d t
    → getline d old (open_stream t) ≡ (t, record { rest = []; eof = true; failed = is_nil t })
unfolding getline
getline-whole d old t h = rw (split_at-whole d t h) refl
