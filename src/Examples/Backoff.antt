-- ===== src/Examples/Backoff.antt =====
-- `Backoff` with the parameters of its default constructor.
use assignments_computer_net.Base.{ℕ, ◌<◌, ◌≤◌, ◌≡◌, refl, ◌↔◌, ◌⊎◌, true, none, some, arith, ◌^◌}
use assignments_computer_net.Backoff.{
  Backoff, exponent, max_slot, get_backoff_time, reset_backoff_time, max_retries_reached,
}
use assignments_computer_net.Backoff.Window.{max_slot-none_iff, get_backoff_time_bounds}
use assignments_computer_net.Backoff.Retries.{incr_times, max_retries_reached_iff}
use assignments_computer_net.Examples.Toy.{toy_random, toy_random-IsUniform}

-- Three retries, so slots from 1 to 7.
abbrev third : Backoff toy_random
third = record {
  slot_time = 1000;
  min_slots = 1;
  max_slots = 1000;
  ceiling = 10;
  max_retries = 1000;
  num_backoff_retries = 3;
  rng = 5;
}

third_window : max_slot third ≡ some 7
unfolding max_slot exponent
third_window = refl

max_slot-none_iff_example : (max_slot third ≡ none) ↔ ((32 ≤ 3) × ((◌≡◌ {A = ℕ} 10 0) ⊎ (32 ≤ 10)))
max_slot-none_iff_example = max_slot-none_iff third

get_backoff_time_bounds_example :
    (slots : ℕ) × (rng : ℕ) × (get_backoff_time third
      ≡ some (toy_random.scale slots third.slot_time, record third { rng = rng }))
    × (1 ≤ slots)
    × (slots ≤ 1000)
    × (slots < 2 ^ 3)
    × (slots < 2 ^ 10)
get_backoff_time_bounds_example =
    get_backoff_time_bounds toy_random toy_random-IsUniform third (omega arith) (omega arith)
      (omega arith) (omega arith) (omega arith)

max_retries_reached_iff_example :
    (max_retries_reached (incr_times 4 (reset_backoff_time third)) ≡ true) ↔ (1000 ≤ 4)
max_retries_reached_iff_example = max_retries_reached_iff 4 third (omega arith)
