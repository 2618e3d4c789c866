-- ===== src/Transfer/Copy/Short.antt =====
-- The loop with writes that take fewer bytes than they are given.
use mathlib.Core.Option.{some-injective}
use assignments_computer_net.Base.{
  ℕ, zero, suc, ◌+◌, ◌≡◌, ◌<◌, ◌≤◌, sym, ap, ◌∙◌, some, [], ◌∷◌, ◌++◌, length, take, length-take_le,
  arith, length-append,
}
use assignments_computer_net.Peer.Text.{Bytes}
use assignments_computer_net.Transfer.System.{Fd, System, IsStream}
use assignments_computer_net.Transfer.Copy.{
  copy, copy-ended, copy-more, copy_total, failed, ended, more, Read-cases, after_read,
}

take_at_most : (k : ℕ) (t : Bytes) → length (take k t) ≤ length t
take_at_most zero t = omega arith
take_at_most (suc k) [] = omega arith
take_at_most (suc k) (c ∷ t) = omega (arith, take_at_most k t)

module _ (S : System) (L : IsStream S) where
  -- Every read and every write succeeds, but a write may take fewer bytes than it was given.
  pub record Succeeds (from to : Fd) : Type 0 where
    pub reads : (size : ℕ) (s : S.State) → (t : Bytes) × ((S.read from size s).0 ≡ some t)
    pub writes : (t : Bytes) (s : S.State) → (k : ℕ) × ((S.write to t s).0 ≡ some k)

  -- The state in which the next round of the loop begins, after a read of `t`.
  abbrev pub next_round : ℕ → Fd → Fd → Bytes → S.State → S.State
  next_round size from to t s = (S.write to t (S.read from size s).1).1

  -- In this round or a later one, a write takes fewer bytes than the read before it gave.
  pub data Shortens (size : ℕ) (from to : Fd) : S.State → Type 0 where
    now :
        {s : S.State} (c k : ℕ) (t : Bytes)
        → (S.read from size s).0 ≡ some (c ∷ t)
        → (S.write to (c ∷ t) (S.read from size s).1).0 ≡ some k
        → k < length (c ∷ t)
        → Shortens size from to s
    later :
        {s : S.State} (c : ℕ) (t : Bytes)
        → (S.read from size s).0 ≡ some (c ∷ t)
        → Shortens size from to (next_round size from to (c ∷ t) s)
        → Shortens size from to s

  -- What a round sends is at most what its write takes.
  round_sends :
      (size : ℕ) (from to : Fd) (s : S.State) (t : Bytes) (k : ℕ)
      → (S.write to t (S.read from size s).1).0 ≡ some k
      → (length (L.sent to (next_round size from to t s)) ≤ length (L.sent to s) + k)
        × (length (L.sent to (next_round size from to t s)) ≤ length (L.sent to s) + length t)
  round_sends size from to s t k e =
      let took = ap length (
        L.write_gives to t (S.read from size s).1 k e
        ∙ ap (λ l. l ++ take k t) (L.read_sends_nothing from to size s)) in
      let sum = length-append (L.sent to s) (take k t) in
      (omega (arith, took, sum, length-take_le k t), omega (arith, took, sum, take_at_most k t))

  pending_round :
      (size : ℕ) (from to : Fd) (s : S.State) (c : ℕ) (t : Bytes)
      → (S.read from size s).0 ≡ some (c ∷ t)
      → length (L.pending from s)
        ≡ length (c ∷ t) + length (L.pending from (next_round size from to (c ∷ t) s))
  pending_round size from to s c t e =
      ap length (after_read S L from to size s c t e)
      ∙ length-append (c ∷ t) (L.pending from (next_round size from to (c ∷ t) s))

  copy_at_most :
      (fuel size : ℕ) (from to : Fd) (s s' : S.State)
      → Succeeds from to
      → copy S fuel size from to s ≡ some s'
      → length (L.sent to s') ≤ length (L.sent to s) + length (L.pending from s)
  unfolding copy
  copy_at_most zero size from to s s' G e = absurd (cc e)
  copy_at_most (suc fuel) size from to s s' G e = elim (Read-cases S (S.read from size s).0) [
    | failed r ↦ absurd (cc ((G.reads size s).1, r))
    | ended r ↦
        let (k, taken) = G.writes [] (S.read from size s).1 in
        let same = some-injective _ _ (sym e ∙ copy-ended S fuel size from to s r) in
        omega
          (arith, ap (λ u. length (L.sent to u)) same, (round_sends size from to s [] k taken).1)
    | more c t r ↦
        let (k, taken) = G.writes (c ∷ t) (S.read from size s).1 in
        let rest =
          copy_at_most fuel size from to (next_round size from to (c ∷ t) s) s' G
            (sym (copy-more S fuel size from to s c t r) ∙ e) in
        omega (
          arith,
          rest,
          (round_sends size from to s (c ∷ t) k taken).1,
          pending_round size from to s c t r,
        )
  ]

  Shortens-copy :
      (fuel size : ℕ) (from to : Fd) (s s' : S.State)
      → Succeeds from to
      → Shortens size from to s
      → copy S fuel size from to s ≡ some s'
      → length (L.sent to s') < length (L.sent to s) + length (L.pending from s)
  unfolding copy
  Shortens-copy zero size from to s s' G h e = absurd (cc e)
  Shortens-copy (suc fuel) size from to s s' G (now c k t r taken less) e =
      let rest =
        copy_at_most fuel size from to (next_round size from to (c ∷ t) s) s' G
          (sym (copy-more S fuel size from to s c t r) ∙ e) in
      omega (
        arith,
        rest,
        less,
        (round_sends size from to s (c ∷ t) k taken).0,
        pending_round size from to s c t r,
      )
  Shortens-copy (suc fuel) size from to s s' G (later c t r h) e =
      let (k, taken) = G.writes (c ∷ t) (S.read from size s).1 in
      let rest =
        Shortens-copy fuel size from to (next_round size from to (c ∷ t) s) s' G h
          (sym (copy-more S fuel size from to s c t r) ∙ e) in
      omega (
        arith,
        rest,
        (round_sends size from to s (c ∷ t) k taken).1,
        pending_round size from to s c t r,
      )

  -- A write that takes fewer bytes than it was given is not made up for. When every read and every
  -- write succeeds, but in some round a write takes fewer bytes than were read, the loop ends all the
  -- same, after at most as many rounds as there are bytes, and one more, and has sent fewer bytes than
  -- there were to be read.
  pub copy_short :
      (fuel size : ℕ) (from to : Fd) (s : S.State)
      → Succeeds from to
      → Shortens size from to s
      → length (L.pending from s) < fuel
      → (s' : S.State) × (copy S fuel size from to s ≡ some s')
        × (length (L.sent to s') < length (L.sent to s) + length (L.pending from s))
  copy_short fuel size from to s G h enough =
      let (s', ends) = copy_total S L fuel size from to s enough in
      (s', ends, Shortens-copy fuel size from to s s' G h ends)
