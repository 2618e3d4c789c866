-- ===== src/Backoff.antt =====
-- `Backoff` of assignment 4/assign_4_12CS10046_12CS30022/backoff.cc: the retry counter and the
-- random delay of a station that found the wire busy. The random variable and the arithmetic of
-- simulated time belong to ns-3 and are parameters (`Random`); its times are opaque.
pub mod Window
pub mod Retries
use assignments_computer_net.Base.{
  ℕ, ◌+◌, ◌-◌, ◌%◌, ◌^◌, ◌≤◌, ◌<◌, ◌≡◌, Bool, ◌&&◌, Option, none, some, ltb, leb, if◌then◌else◌,
  ◌>>=◌,
}

-- ns-3's times and its uniform random variable. `get_value r lo hi` is the value that
-- `GetValue (lo, hi)` returns, cut to a uint32_t as the caller does, and the variable after it.
pub record Random : Type 1 where
  pub Time : Type 0
  pub micro_seconds : ℕ → Time
  pub scale : ℕ → Time → Time
  pub Rng : Type 0
  pub fresh : Rng
  pub get_value : Rng → ℕ → ℕ → ℕ × Rng
  pub set_stream : ℕ → Rng → Rng

-- What ns-3 documents of `GetValue`: a value from [lo, hi), and `lo` where the two are equal.
pub record IsUniform (R : Random) : Type 0 where
  pub lower : (r : R.Rng) (lo hi : ℕ) → lo ≤ hi → lo ≤ (R.get_value r lo hi).0
  pub upper : (r : R.Rng) (lo hi : ℕ) → lo < hi → (R.get_value r lo hi).0 < hi
  pub single : (r : R.Rng) (n : ℕ) → (R.get_value r n n).0 ≡ n

pub record Backoff (R : Random) : Type 0 where
  pub slot_time : R.Time
  pub min_slots : ℕ
  pub max_slots : ℕ
  pub ceiling : ℕ
  pub max_retries : ℕ
  pub num_backoff_retries : ℕ
  pub rng : R.Rng

module _ {R : Random} where
  unfoldable pub reset_backoff_time : Backoff R → Backoff R
  reset_backoff_time b = record b { num_backoff_retries = 0 }

  pub max_retries_reached : Backoff R → Bool
  max_retries_reached b = leb b.max_retries b.num_backoff_retries

  -- The counter is a uint32_t.
  unfoldable pub incr_num_retries : Backoff R → Backoff R
  incr_num_retries b = record b { num_backoff_retries = (b.num_backoff_retries + 1) % 2 ^ 32 }

  pub assign_streams : Backoff R → ℕ → Backoff R × ℕ
  assign_streams b stream = (record b { rng = R.set_stream stream b.rng }, 1)

  -- `SetBackoffParams` of the device writes the same five fields.
  pub set_params : Backoff R → R.Time → ℕ → ℕ → ℕ → ℕ → Backoff R
  set_params b slot_time min_slots max_slots ceiling max_retries = record b {
    slot_time = slot_time;
    min_slots = min_slots;
    max_slots = max_slots;
    ceiling = ceiling;
    max_retries = max_retries;
  }

  -- The exponent that `GetBackoffTime` keeps in its local variable `ceiling`.
  unfoldable pub exponent : Backoff R → ℕ
  exponent b =
      if ltb 0 b.ceiling && ltb b.ceiling b.num_backoff_retries
      then b.ceiling
      else b.num_backoff_retries

  -- `(uint32_t) pow (2, e) - 1`, cut at `m_maxSlots`. The cast of a double that no uint32_t holds
  -- is undefined: `none`.
  unfoldable pub max_slot : Backoff R → Option ℕ
  max_slot b =
      if ltb (exponent b) 32
      then some (let top = 2 ^ exponent b - 1 in if ltb b.max_slots top then b.max_slots else top)
      else none

  -- The delay, and the object with its random variable moved on.
  pub get_backoff_time : Backoff R → Option (R.Time × Backoff R)
  get_backoff_time b = do
    top ← max_slot b
    let drawn = R.get_value b.rng b.min_slots top
    some (R.scale drawn.0 b.slot_time, record b { rng = drawn.1 })

module _ (R : Random) where
  -- `Backoff ()`.
  unfoldable pub default : Backoff R
  unfolding reset_backoff_time
  default = reset_backoff_time (record {
    slot_time = R.micro_seconds 1;
    min_slots = 1;
    max_slots = 1000;
    ceiling = 10;
    max_retries = 1000;
    num_backoff_retries = 0;
    rng = R.fresh;
  })

  -- `Backoff (slotTime, …)`. It leaves the counter as the memory had it: `garbage`.
  pub with_params : ℕ → R.Time → ℕ → ℕ → ℕ → ℕ → Backoff R
  with_params garbage slot_time min_slots max_slots ceiling max_retries = record {
    slot_time = slot_time;
    min_slots = min_slots;
    max_slots = max_slots;
    ceiling = ceiling;
    max_retries = max_retries;
    num_backoff_retries = garbage;
    rng = R.fresh;
  }
