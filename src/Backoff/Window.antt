-- ===== src/Backoff/Window.antt =====
-- The window of slots that `GetBackoffTime` draws from.
use native.Mathlib.Nat.{pow-suc, one-le-pow, pow-le-pow_right}
use native.Mathlib.Decide.{dec_lt}
use native.Mathlib.Numerals.{add-one}
use assignments_computer_net.Base.{
  ℕ, zero, suc, ◌+◌, ◌-◌, ◌*◌, ◌%◌, ◌^◌, ◌≤◌, ◌<◌, ◌≡◌, refl, subst, ◌⊎◌, ◌↔◌, Option, none, some,
  arith, ltb, if◌then◌else◌,
}
use assignments_computer_net.Backoff.{
  Random, IsUniform, Backoff, exponent, max_slot, incr_num_retries, get_backoff_time,
}

two-pow-suc : (k : ℕ) → 2 ^ (k + 1) ≡ 2 * 2 ^ k
two-pow-suc k = rw add-one (omega (arith, pow-suc 2 k))

two-le-pow : (k : ℕ) → 0 < k → 2 ≤ 2 ^ k
two-le-pow zero h = elim h [ ]
two-le-pow (suc k) h = omega (arith, pow-suc 2 k, one-le-pow k 2)

module _ {R : Random} where
  -- The upper end of the next window, from the one before.
  abbrev pub widen : Backoff R → ℕ → ℕ
  widen b top =
      if ltb b.num_backoff_retries b.ceiling
      then if ltb b.max_slots (2 * top + 1) then b.max_slots else 2 * top + 1
      else top

  abbrev pub widen? : Backoff R → Option ℕ → Option ℕ
  widen? b none = none
  widen? b (some top) = some (widen b top)

  exponent-incr :
      (b : Backoff R)
      → 0 < b.ceiling
      → b.num_backoff_retries < 2 ^ 32 - 1
      → exponent (incr_num_retries b)
        ≡ (if ltb b.num_backoff_retries b.ceiling then exponent b + 1 else exponent b)
  unfolding exponent incr_num_retries
  exponent-incr b pos fits = ground arith

  exponent-le-ceiling : (b : Backoff R) → 0 < b.ceiling → exponent b ≤ b.ceiling
  unfolding exponent
  exponent-le-ceiling b pos = ground arith

  -- With a ceiling from 1 to 31, one more retry doubles the window while the count is below the
  -- ceiling, never past `m_maxSlots`, and leaves it as it is from there on.
  pub max_slot-incr :
      (b : Backoff R)
      → 0 < b.ceiling
      → b.ceiling < 32
      → b.num_backoff_retries < 2 ^ 32 - 1
      → max_slot (incr_num_retries b) ≡ widen? b (max_slot b)
  unfolding max_slot incr_num_retries
  max_slot-incr b pos small fits = ground (
    arith,
    exponent-incr b pos fits,
    exponent-le-ceiling b pos,
    exponent-le-ceiling (incr_num_retries b) pos,
    two-pow-suc (exponent b),
    one-le-pow (exponent b) 2,
  )

  -- The window is undefined exactly when the exponent leaves a uint32_t: 32 retries or more, and
  -- either no ceiling or one that is itself too large.
  pub max_slot-none_iff :
      (b : Backoff R)
      → (max_slot b ≡ none) ↔ ((32 ≤ b.num_backoff_retries) × ((b.ceiling ≡ 0) ⊎ (32 ≤ b.ceiling)))
  unfolding max_slot exponent
  max_slot-none_iff b = grind arith

module _ {R : Random} where
  -- What `max_slot` returns where it is defined.
  top_slot : Backoff R → ℕ
  top_slot b = let top = 2 ^ exponent b - 1 in if ltb b.max_slots top then b.max_slots else top

  exponent_bounds :
      (b : Backoff R)
      → 0 < b.ceiling
      → 0 < b.num_backoff_retries
      → (0 < exponent b) × (exponent b ≤ b.ceiling) × (exponent b ≤ b.num_backoff_retries)
  unfolding exponent
  exponent_bounds b pos tried = ground arith

  max_slot-top_slot : (b : Backoff R) → exponent b < 32 → max_slot b ≡ some (top_slot b)
  unfolding max_slot top_slot
  max_slot-top_slot b h = ground arith

  top_slot_bounds :
      (b : Backoff R)
      → 0 < exponent b
      → b.min_slots ≤ 1
      → b.min_slots ≤ b.max_slots
      → (b.min_slots ≤ top_slot b) × (top_slot b ≤ b.max_slots) × (top_slot b < 2 ^ exponent b)
  unfolding top_slot
  top_slot_bounds b pos low ordered = ground (arith, two-le-pow (exponent b) pos)

module _ (R : Random) (U : IsUniform R) where
  get_value_bounds :
      (r : R.Rng) (lo hi : ℕ)
      → lo ≤ hi
      → (lo ≤ (R.get_value r lo hi).0) × ((R.get_value r lo hi).0 ≤ hi)
  get_value_bounds r lo hi h = elim (dec_lt lo hi) [
    | yes p ↦ (U.lower r lo hi h, omega (arith, U.upper r lo hi p))
    | no p ↦ (
      U.lower r lo hi h,
      let same : lo ≡ hi = omega arith in
          subst (λ n. (R.get_value r lo n).0 ≤ n) same (omega (arith, U.single r lo)),
    )
  ]

  -- With a ceiling from 1 to 31, at least one retry, and `m_minSlots` at most 1 and at most
  -- `m_maxSlots`, the delay is defined and is a number of slots that is at least `m_minSlots`, at
  -- most `m_maxSlots`, below 2 ^ retries and below 2 ^ ceiling; only the random variable moves.
  pub get_backoff_time_bounds :
      (b : Backoff R)
      → 0 < b.ceiling
      → b.ceiling < 32
      → 0 < b.num_backoff_retries
      → b.min_slots ≤ 1
      → b.min_slots ≤ b.max_slots
      → (slots : ℕ) × (rng : R.Rng) × (get_backoff_time b
          ≡ some (R.scale slots b.slot_time, record b { rng = rng }))
        × (b.min_slots ≤ slots)
        × (slots ≤ b.max_slots)
        × (slots < 2 ^ b.num_backoff_retries)
        × (slots < 2 ^ b.ceiling)
  unfolding get_backoff_time
  get_backoff_time_bounds b pos small tried low ordered =
      let (e_pos, e_ceiling, e_retries) = exponent_bounds b pos tried in
      let (low_top, top_high, top_pow) = top_slot_bounds b e_pos low ordered in
      let (low_v, v_top) = get_value_bounds b.rng b.min_slots (top_slot b) low_top in
      (
        (R.get_value b.rng b.min_slots (top_slot b)).0,
        (R.get_value b.rng b.min_slots (top_slot b)).1,
        rw (max_slot-top_slot b (omega arith)) refl,
        low_v,
        omega arith,
        omega (arith, pow-le-pow_right {n = 2} (omega arith) e_retries),
        omega (arith, pow-le-pow_right {n = 2} (omega arith) e_ceiling),
      )

module _ {R : Random} where
  exponent-lt : (b : Backoff R) → 0 < b.ceiling → b.ceiling < 32 → exponent b < 32
  unfolding exponent
  exponent-lt b pos small = ground arith

  pub get_backoff_time-some :
      (b : Backoff R)
      → 0 < b.ceiling
      → b.ceiling < 32
      → (t : R.Time) × (b' : Backoff R) × (get_backoff_time (incr_num_retries b) ≡ some (t, b'))
        × (b'.ceiling ≡ b.ceiling)
        × (b'.max_retries ≡ b.max_retries)
        × (b'.num_backoff_retries ≡ (b.num_backoff_retries + 1) % 2 ^ 32)
  unfolding get_backoff_time incr_num_retries
  get_backoff_time-some b pos small =
      let b' = incr_num_retries b in
      let drawn = R.get_value b'.rng b'.min_slots (top_slot b') in
      (
        R.scale drawn.0 b'.slot_time,
        record b' { rng = drawn.1 },
        rw (max_slot-top_slot b' (exponent-lt b' pos small)) refl,
        refl,
        refl,
        refl,
      )
