-- ===== src/Peer/Decimal.antt =====
-- `sprintf ("%d")` of a number that is not negative, and `sscanf ("%d")`.
use assignments_computer_net.Base.{
  ◌++◌, ◌≤◌, length, ◌⊎◌, ℕ, zero, suc, ◌+◌, ◌-◌, ◌*◌, ◌/◌, ◌%◌, ◌^◌, ◌<◌, ◌≡◌, refl, sym, ap, ◌∙◌,
  inl, inr, Bool-cases, Bool, ◌&&◌, ◌||◌, Option, none, some, [], ◌∷◌, arith, ltb, leb, ◌==◌,
  if◌then◌else◌,
}
use assignments_computer_net.Peer.Text.{Bytes, Lacks}

abbrev pub is_digit : ℕ → Bool
is_digit c = leb b'0' c && leb c b'9'

-- The digits of `n` in front of `out`, with fuel for the rounds.
unfoldable pub digits : ℕ → ℕ → Bytes → Bytes
digits zero n out = out
digits (suc fuel) n out =
    let more = digits fuel (n / 10) ((b'0' + n % 10) ∷ out) in
    if ltb n 10 then (b'0' + n) ∷ out else more

unfoldable pub print_int : ℕ → Bytes
unfolding digits
print_int n = digits (suc n) n []

-- Digits to the first other byte.
scan_digits : ℕ → Bytes → ℕ
scan_digits n [] = n
scan_digits n (c ∷ s) =
    let more = scan_digits (n * 10 + (c - b'0')) s in if is_digit c then more else n

abbrev is_blank : ℕ → Bool
is_blank c = c == b' ' || (leb 9 c && leb c 13)

skip_blanks : Bytes → Bytes
skip_blanks [] = []
skip_blanks (c ∷ s) = let more = skip_blanks s in if is_blank c then more else c ∷ s

-- A conversion that fails, or leaves the range of an int, is `none`.
scan_unsigned : Bytes → Option ℕ
unfolding scan_digits
scan_unsigned [] = none
scan_unsigned (c ∷ s) =
    if is_digit c
    then (let n = scan_digits 0 (c ∷ s) in if ltb n (2 ^ 31) then some n else none)
    else none

-- The rounds that `for (j = 0; j < nf; j++)` makes: a negative number gives none.
scan_signed : Bytes → Option ℕ
unfolding scan_unsigned
scan_signed [] = none
scan_signed (c ∷ s) =
    if c == b'-'
    then (elim (scan_unsigned s) [ none ↦ none | some n ↦ some 0 ])
    else if c == b'+'
    then scan_unsigned s
    else scan_unsigned (c ∷ s)

pub scan_count : Bytes → Option ℕ
unfolding scan_signed skip_blanks
scan_count s = scan_signed (skip_blanks s)

-- `atoi`: 0 without a digit. A negative number, or one that leaves the range of an int, is `none`.
pub atoi : Bytes → Option ℕ
unfolding scan_digits skip_blanks
atoi s =
    let t = skip_blanks s in
    elim t [
      | [] ↦ some 0
      | c ∷ more ↦
          if c == b'-'
          then none
          else let n = scan_digits 0 (if c == b'+' then more else c ∷ more) in
            if ltb n (2 ^ 31) then some n else none
    ]

scan_digits-digits :
    (fuel n : ℕ) (out : Bytes) → n < fuel → scan_digits 0 (digits fuel n out) ≡ scan_digits n out
unfolding digits scan_digits
scan_digits-digits zero n out h = absurd (omega arith)
scan_digits-digits (suc fuel) n out h =
    ground (arith, scan_digits-digits fuel (n / 10) ((b'0' + n % 10) ∷ out))

digits_first :
    (fuel n : ℕ) (out : Bytes)
    → n < fuel
    → (c : ℕ) × (s : Bytes) × (digits fuel n out ≡ c ∷ s) × (b'0' < c + 1) × (c < b'9' + 1)
unfolding digits
digits_first zero n out h = absurd (omega arith)
digits_first (suc fuel) n out h = elim (Bool-cases (ltb n 10)) [
  | inl last ↦ (b'0' + n, out, rw last refl, omega arith, ground arith)
  | inr more ↦
      let (c, s, e, low, high) =
        digits_first fuel (n / 10) ((b'0' + n % 10) ∷ out) (ground arith) in
      (c, s, rw more e, low, high)
]

scan_count-cons :
    (c n : ℕ) (s : Bytes)
    → b'0' < c + 1
    → c < b'9' + 1
    → scan_digits 0 (c ∷ s) ≡ n
    → n < 2 ^ 31
    → scan_count (c ∷ s) ≡ some n
unfolding scan_count
scan_count-cons c n s low high e h = ground arith

-- What is printed is read back.
pub scan_count-print_int : (n : ℕ) → n < 2 ^ 31 → scan_count (print_int n) ≡ some n
unfolding print_int scan_digits
scan_count-print_int n h =
    let (c, s, e, low, high) = digits_first (suc n) n [] (omega arith) in
    let value : scan_digits 0 (c ∷ s) ≡ n =
      ap (scan_digits 0) (sym e) ∙ scan_digits-digits (suc n) n [] (omega arith) in
    ap scan_count e ∙ scan_count-cons c n s low high value h

-- And `atoi` reads it back.
atoi-cons :
    (c n : ℕ) (s : Bytes)
    → b'0' < c + 1
    → c < b'9' + 1
    → scan_digits 0 (c ∷ s) ≡ n
    → n < 2 ^ 31
    → atoi (c ∷ s) ≡ some n
unfolding atoi
atoi-cons c n s low high e h = ground arith

pub atoi-print_int : (n : ℕ) → n < 2 ^ 31 → atoi (print_int n) ≡ some n
unfolding print_int scan_digits
atoi-print_int n h =
    let (c, s, e, low, high) = digits_first (suc n) n [] (omega arith) in
    let value : scan_digits 0 (c ∷ s) ≡ n =
      ap (scan_digits 0) (sym e) ∙ scan_digits-digits (suc n) n [] (omega arith) in
    ap atoi e ∙ atoi-cons c n s low high value h

digits-Lacks :
    (d fuel n : ℕ) (out : Bytes)
    → (d < b'0') ⊎ (b'9' < d)
    → Lacks d out
    → Lacks d (digits fuel n out)
unfolding digits
digits-Lacks d zero n out other h = h
digits-Lacks d (suc fuel) n out other h =
    ground (arith, digits-Lacks d fuel (n / 10) ((b'0' + n % 10) ∷ out))

-- A printed number has digits only.
pub print_int-Lacks : (d n : ℕ) → (d < b'0') ⊎ (b'9' < d) → Lacks d (print_int n)
unfolding print_int
print_int-Lacks d n other = digits-Lacks d (suc n) n [] other tt

digits-append :
    (fuel n : ℕ) (out rest : Bytes) → digits fuel n (out ++ rest) ≡ digits fuel n out ++ rest
unfolding digits
digits-append zero n out rest = refl
digits-append (suc fuel) n out rest =
    ground (arith, digits-append fuel (n / 10) ((b'0' + n % 10) ∷ out) rest)

-- `atoi` stops at the end of the line.
pub atoi-line : (n : ℕ) → n < 2 ^ 31 → atoi (print_int n ++ 10 ∷ []) ≡ some n
unfolding print_int scan_digits
atoi-line n h =
    let (c, s, e, low, high) = digits_first (suc n) n (10 ∷ []) (omega arith) in
    let value : scan_digits 0 (c ∷ s) ≡ n =
      ap (scan_digits 0) (sym e) ∙ scan_digits-digits (suc n) n (10 ∷ []) (omega arith) in
    ap atoi (sym (digits-append (suc n) n [] (10 ∷ [])) ∙ e) ∙ atoi-cons c n s low high value h

abbrev tens : ℕ → ℕ
tens zero = 1
tens (suc k) = 10 * tens k

length-digits_le :
    (k fuel n : ℕ) (out : Bytes)
    → n < tens (suc k)
    → length (digits fuel n out) ≤ suc k + length out
unfolding digits
length-digits_le k zero n out h = omega arith
length-digits_le zero (suc fuel) n out h = ground arith
length-digits_le (suc k) (suc fuel) n out h =
    ground (arith, length-digits_le k fuel (n / 10) ((b'0' + n % 10) ∷ out))

-- An int has at most ten digits.
pub length-print_int_le : (n : ℕ) → n < 2 ^ 31 → length (print_int n) ≤ 10
unfolding print_int
length-print_int_le n h = length-digits_le 9 (suc n) n [] (omega (arith, h))
