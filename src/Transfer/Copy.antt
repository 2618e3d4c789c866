-- ===== src/Transfer/Copy.antt =====
-- The loop `do { bzero; num = read; d = write } while (num > 0)` that all the programs share.
pub mod Short
use mathlib.Core.Option.{some-injective}
use assignments_computer_net.Base.{
  ℕ, zero, suc, ◌+◌, ◌≡◌, ◌≢◌, ◌<◌, refl, sym, ap, ◌∙◌, Option, none, some, [], ◌∷◌, ◌++◌, length,
  take, take_all, length-take_le, arith, append_assoc, length-append,
}
use assignments_computer_net.Peer.Text.{Bytes}
use assignments_computer_net.Transfer.System.{Fd, System, IsStream}

module _ (S : System) where
  -- The return value of `write` is not used. `none` is a loop that is out of fuel.
  unfoldable pub copy : ℕ → ℕ → Fd → Fd → S.State → Option S.State
  copy zero size from to s = none
  copy (suc fuel) size from to s =
      let num = S.read from size s in
      elim num.0 [
        | none ↦ some (S.write_minus_one to num.1).1
        | some [] ↦ some (S.write to [] num.1).1
        | some (c ∷ t) ↦ copy fuel size from to (S.write to (c ∷ t) num.1).1
      ]

  -- Every read succeeds, and every write takes all of its bytes.
  pub record IsReliable (from to : Fd) : Type 0 where
    pub reads : (size : ℕ) (s : S.State) → (t : Bytes) × ((S.read from size s).0 ≡ some t)
    pub writes : (t : Bytes) (s : S.State) → (S.write to t s).0 ≡ some (length t)

  module _ (fuel size : ℕ) (from to : Fd) (s : S.State) where
    pub copy-failed :
        (S.read from size s).0 ≡ none
        → copy (suc fuel) size from to s ≡ some (S.write_minus_one to (S.read from size s).1).1
    unfolding copy
    copy-failed e = rw (e, copy) refl

    pub copy-ended :
        (S.read from size s).0 ≡ some []
        → copy (suc fuel) size from to s ≡ some (S.write to [] (S.read from size s).1).1
    unfolding copy
    copy-ended e = rw (e, copy) refl

    pub copy-more :
        (c : ℕ) (t : Bytes)
        → (S.read from size s).0 ≡ some (c ∷ t)
        → copy (suc fuel) size from to s
          ≡ copy fuel size from to (S.write to (c ∷ t) (S.read from size s).1).1
    unfolding copy
    copy-more c t e = rw (e, copy) refl

  -- What a read can give.
  pub data Read (r : Option Bytes) : Type 0 where
    failed : r ≡ none → Read r
    ended : r ≡ some [] → Read r
    more : (c : ℕ) (t : Bytes) → r ≡ some (c ∷ t) → Read r

  pub Read-cases : (r : Option Bytes) → Read r
  Read-cases none = failed refl
  Read-cases (some []) = ended refl
  Read-cases (some (c ∷ t)) = more c t refl

module _ (S : System) (L : IsStream S) where
  pub after_read :
      (from to : Fd) (size : ℕ) (s : S.State) (c : ℕ) (t : Bytes)
      → (S.read from size s).0 ≡ some (c ∷ t)
      → L.pending from s ≡ c ∷ t ++ L.pending from (S.write to (c ∷ t) (S.read from size s).1).1
  after_read from to size s c t e =
      L.read_takes from size s (c ∷ t) e
      ∙ ap (λ l. c ∷ t ++ l) (sym (L.write_reads_nothing to from (c ∷ t) (S.read from size s).1))

  pub written :
      (from to : Fd) (size : ℕ) (s : S.State) (t : Bytes)
      → IsReliable S from to
      → (S.read from size s).0 ≡ some t
      → L.sent to (S.write to t (S.read from size s).1).1 ≡ L.sent to s ++ t
  written from to size s t R e =
      L.write_gives to t (S.read from size s).1 (length t) (R.writes t (S.read from size s).1)
      ∙ (ap (λ l. L.sent to (S.read from size s).1 ++ l) (take_all t)
          ∙ ap (λ l. l ++ t) (L.read_sends_nothing from to size s))

  -- The loop ends, whatever the reads and writes answer: as many rounds as there are bytes to read,
  -- and one more, are enough.
  pub copy_total :
      (fuel size : ℕ) (from to : Fd) (s : S.State)
      → length (L.pending from s) < fuel
      → (s' : S.State) × (copy S fuel size from to s ≡ some s')
  copy_total zero size from to s h = absurd (omega arith)
  copy_total (suc fuel) size from to s h = elim (Read-cases S (S.read from size s).0) [
    | failed e ↦ (_, copy-failed S fuel size from to s e)
    | ended e ↦ (_, copy-ended S fuel size from to s e)
    | more c t e ↦
        let next = (S.write to (c ∷ t) (S.read from size s).1).1 in
        let less : length (L.pending from next) < fuel = omega (
          arith,
          ap length (after_read from to size s c t e),
          length-append (c ∷ t) (L.pending from next),
          h,
        ) in
        let rest = copy_total fuel size from to next less in
        (rest.0, copy-more S fuel size from to s c t e ∙ rest.1)
  ]

  -- With a buffer that is not empty, when every read succeeds and every write takes all of its bytes, the loop sends exactly what was
  -- to be read, behind what was sent before; as many rounds as there are bytes, and one more, are
  -- enough.
  pub copy-IsReliable :
      (fuel size : ℕ) (from to : Fd) (s : S.State)
      → 0 < size
      → IsReliable S from to
      → length (L.pending from s) < fuel
      → (s' : S.State) × (copy S fuel size from to s ≡ some s')
        × (L.sent to s' ≡ L.sent to s ++ L.pending from s)
  copy-IsReliable zero size from to s room R h = absurd (omega arith)
  copy-IsReliable (suc fuel) size from to s room R h = elim (Read-cases S (S.read from size s).0) [
    | failed e ↦ cc ((R.reads size s).1, e)
    | ended e ↦ (
      _,
      copy-ended S fuel size from to s e,
      written from to size s [] R e
          ∙ ap (λ l. L.sent to s ++ l) (sym (L.read_end from size s room e)),
    )
    | more c t e ↦
        let next = (S.write to (c ∷ t) (S.read from size s).1).1 in
        let less : length (L.pending from next) < fuel = omega (
          arith,
          ap length (after_read from to size s c t e),
          length-append (c ∷ t) (L.pending from next),
          h,
        ) in
        let rest = copy-IsReliable fuel size from to next room R less in
        (
          rest.0,
          copy-more S fuel size from to s c t e ∙ rest.1,
          rest.2
              ∙ (ap (λ l. l ++ L.pending from next) (written from to size s (c ∷ t) R e)
                  ∙ (append_assoc (L.sent to s) (c ∷ t) (L.pending from next)
                      ∙ ap (λ l. L.sent to s ++ l) (sym (after_read from to size s c t e)))),
        )
  ]

  -- What else was written stays as it was.
  pub copy_elsewhere :
      (fuel size : ℕ) (from to g : Fd) (s s' : S.State)
      → IsReliable S from to
      → g ≢ to
      → copy S fuel size from to s ≡ some s'
      → L.sent g s' ≡ L.sent g s
  unfolding copy
  copy_elsewhere zero size from to g s s' R other e = cc
  copy_elsewhere (suc fuel) size from to g s s' R other e =
      let step : (t : Bytes) → L.sent g (S.write to t (S.read from size s).1).1 ≡ L.sent g s = λ t.
        L.write_elsewhere to g t (S.read from size s).1 other
        ∙ L.read_sends_nothing from g size s in
      elim (Read-cases S (S.read from size s).0) [
        | failed r ↦ cc ((R.reads size s).1, r)
        | ended r ↦
            ap (L.sent g) (some-injective _ _ (sym e ∙ copy-ended S fuel size from to s r))
            ∙ step []
        | more c t r ↦
            copy_elsewhere fuel size from to g (S.write to (c ∷ t) (S.read from size s).1).1 s' R
              other (sym (copy-more S fuel size from to s c t r) ∙ e)
            ∙ step (c ∷ t)
      ]
