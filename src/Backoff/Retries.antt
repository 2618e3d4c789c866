-- ===== src/Backoff/Retries.antt =====
-- The retry counter.
use assignments_computer_net.Base.{
  ℕ, zero, suc, ◌^◌, ◌≤◌, ◌<◌, ◌≡◌, refl, ◌∙◌, ap, ◌↔◌, true, false, arith, leb_iff,
}
use assignments_computer_net.Backoff.{
  Random, Backoff, reset_backoff_time, incr_num_retries, max_retries_reached,
}

module _ {R : Random} where
  abbrev pub incr_times : ℕ → Backoff R → Backoff R
  incr_times zero b = b
  incr_times (suc k) b = incr_num_retries (incr_times k b)

  incr_times_count :
      (k : ℕ) (b : Backoff R)
      → k < 2 ^ 32
      → incr_times k (reset_backoff_time b) ≡ record b { num_backoff_retries = k }
  unfolding reset_backoff_time incr_num_retries
  incr_times_count zero b h = refl
  incr_times_count (suc k) b h =
      ap incr_num_retries (incr_times_count k b (omega arith))
      ∙ ap (λ n. record b { num_backoff_retries = n }) (omega arith)

  -- After a reset, `MaxRetriesReached` answers yes exactly from the `m_maxRetries`-th increment on,
  -- as long as there are fewer than 2 ^ 32 of them.
  pub max_retries_reached_iff :
      (k : ℕ) (b : Backoff R)
      → k < 2 ^ 32
      → (max_retries_reached (incr_times k (reset_backoff_time b)) ≡ true) ↔ (b.max_retries ≤ k)
  unfolding max_retries_reached
  max_retries_reached_iff k b h = rw (incr_times_count k b h) (leb_iff b.max_retries k)

  pub max_retries_reached-false :
      (b : Backoff R) → max_retries_reached b ≡ false → b.num_backoff_retries < b.max_retries
  unfolding max_retries_reached
  max_retries_reached-false b h = ground arith
