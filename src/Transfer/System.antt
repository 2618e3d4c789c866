-- ===== src/Transfer/System.antt =====
-- What the programs use of the operating system. A descriptor is `none` for -1, and so is the
-- answer of a call that fails.
use assignments_computer_net.Base.{
  refl, ap, ℕ, ◌-◌, ◌≡◌, ◌≢◌, ◌<◌, ◌≤◌, Bool, Option, none, some, [], ◌∷◌, ◌++◌, length, take,
  arith, ◌==◌, if◌then◌else◌,
}
use assignments_computer_net.Peer.Text.{Bytes, All}

abbrev pub Fd : Type 0
Fd = Option ℕ

pub record System : Type 1 where
  pub State : Type 0
  -- `read (fd, buffer, size)` gives the bytes that it puts at the front of the buffer.
  pub read : Fd → ℕ → State → Option Bytes × State
  pub write : Fd → Bytes → State → Option ℕ × State
  -- `write` with the count -1, which is the largest `size_t`.
  pub write_minus_one : Fd → State → Option ℕ × State
  -- `open` for reading, and for writing with O_CREAT and O_TRUNC.
  pub open_read : Bytes → State → Fd × State
  pub open_write : Bytes → State → Fd × State
  pub close : Fd → State → State
  -- The size that `stat` gives.
  pub stat_size : Bytes → State → Option ℕ
  pub socket : State → Fd × State
  pub inet_aton : Bytes → Bool
  pub connect : Fd → Bytes → ℕ → State → Bool × State
  pub accept : Fd → State → Fd × State

-- How a program, or a part of it, ends. `undefined` is undefined
-- behaviour, or an int that is negative or too large, which the model does not follow. A loop that
-- is out of fuel is `unfinished`.
pub data Outcome (A : Type 0) : Type 0 where
  finished exited : A → Outcome A
  undefined unfinished : Outcome A

-- The cases of an outcome, with their equation.
pub data Ending {A : Type 0} (o : Outcome A) : Type 0 where
  finishes : (a : A) → o ≡ finished a → Ending o
  exits : (a : A) → o ≡ exited a → Ending o
  derails : o ≡ undefined → Ending o
  stalls : o ≡ unfinished → Ending o

pub Ending-cases : {A : Type 0} (o : Outcome A) → Ending o
Ending-cases (finished a) = finishes a refl
Ending-cases (exited a) = exits a refl
Ending-cases undefined = derails refl
Ending-cases unfinished = stalls refl

pub finished-injective : {A : Type 0} (a b : A) → finished a ≡ finished b → a ≡ b
finished-injective a b e = ap (λ o. elim o [ finished x ↦ x | _ ↦ a ]) e

-- `buffer` as a C string: `size` bytes, zero behind the bytes that were read. Without a zero the
-- string does not end in the buffer, which is undefined.
unfoldable pub c_string : ℕ → Bytes → Option Bytes
c_string room [] = if room == 0 then none else some []
c_string room (c ∷ t) =
    let rest = c_string (room - 1) t in
    if c == 0 then some [] else elim rest [ none ↦ none | some s ↦ some (c ∷ s) ]

-- What the manual pages say of the streams behind the descriptors: `pending` are the bytes that
-- reads will still give up to the end, `sent` the bytes that writes took.
pub record IsStream (S : System) : Type 0 where
  pub pending : Fd → S.State → Bytes
  pub sent : Fd → S.State → Bytes
  pub file : Bytes → S.State → Bytes
  -- A read takes bytes from the front, and none only at the end.
  pub read_takes :
      (fd : Fd) (size : ℕ) (s : S.State) (t : Bytes)
      → (S.read fd size s).0 ≡ some t
      → pending fd s ≡ t ++ pending fd (S.read fd size s).1
  pub read_end :
      (fd : Fd) (size : ℕ) (s : S.State)
      → 0 < size
      → (S.read fd size s).0 ≡ some []
      → pending fd s ≡ []
  pub read_sends_nothing :
      (fd g : Fd) (size : ℕ) (s : S.State) → sent g (S.read fd size s).1 ≡ sent g s
  -- A write takes as many bytes from the front as it says.
  pub write_gives :
      (fd : Fd) (t : Bytes) (s : S.State) (k : ℕ)
      → (S.write fd t s).0 ≡ some k
      → sent fd (S.write fd t s).1 ≡ sent fd s ++ take k t
  pub write_elsewhere :
      (fd g : Fd) (t : Bytes) (s : S.State) → g ≢ fd → sent g (S.write fd t s).1 ≡ sent g s
  pub write_reads_nothing :
      (fd g : Fd) (t : Bytes) (s : S.State) → pending g (S.write fd t s).1 ≡ pending g s
  -- A file that was opened for reading is read from its front.
  pub open_read_file :
      (name : Bytes) (s : S.State) (fd : ℕ)
      → (S.open_read name s).0 ≡ some fd
      → pending (some fd) (S.open_read name s).1 ≡ file name s
  pub open_read_sends_nothing :
      (name : Bytes) (g : Fd) (s : S.State) → sent g (S.open_read name s).1 ≡ sent g s
  -- A new descriptor for writing has nothing written; the others are as they were.
  pub open_write_new :
      (name : Bytes) (s : S.State) (fd : ℕ)
      → (S.open_write name s).0 ≡ some fd
      → sent (some fd) (S.open_write name s).1 ≡ []
  pub open_write_reads_nothing :
      (name : Bytes) (g : Fd) (s : S.State) → pending g (S.open_write name s).1 ≡ pending g s
  pub close_sends_nothing : (fd g : Fd) (s : S.State) → sent g (S.close fd s) ≡ sent g s
  pub stat_size_file :
      (name : Bytes) (s : S.State) (n : ℕ) → S.stat_size name s ≡ some n → n ≡ length (file name s)
  pub read_keeps_files :
      (fd : Fd) (size : ℕ) (name : Bytes) (s : S.State)
      → file name (S.read fd size s).1 ≡ file name s

pub c_string_all :
    (room : ℕ) (t : Bytes) → All (λ c. c ≢ 0) t → length t < room → c_string room t ≡ some t
unfolding c_string
c_string_all room [] h l = ground arith
c_string_all room (c ∷ t) h l = ground (arith, c_string_all (room - 1) t h.1)

-- A text that does not fit has no room for its zero.
pub c_string_over :
    (room : ℕ) (t : Bytes) → All (λ c. c ≢ 0) t → room ≤ length t → c_string room t ≡ none
unfolding c_string
c_string_over room [] h l = ground arith
c_string_over room (c ∷ t) h l = ground (arith, c_string_over (room - 1) t h.1)

pub c_string-append :
    (room : ℕ) (t rest : Bytes) → All (λ c. c ≢ 0) t → c_string room (t ++ 0 ∷ rest) ≡ some t
unfolding c_string
c_string-append room [] rest h = refl
c_string-append room (c ∷ t) rest h = ground (arith, c_string-append (room - 1) t rest h.1)
