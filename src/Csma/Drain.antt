-- ===== src/Csma/Drain.antt =====
-- How much a device still has to do for the packets that it holds.
pub mod Start
pub mod Fires
pub mod Send
pub mod Whole
use assignments_computer_net.Base.{
  ℕ, ◌+◌, ◌-◌, ◌^◌, ◌<◌, ◌≤◌, ◌≡◌, true, Option, none, some, List, [], ◌∷◌, ◌++◌,
}
use assignments_computer_net.Csma.Platform.{Platform, IsFifo}
use assignments_computer_net.Csma.Device.{TxState, ready, busy, gap, backoff, Event, Device}
use assignments_computer_net.Csma.Invariant.{pkt_list}

-- The events that packets in the queue may take: a retry for each of `max` busy wires, the end of the
-- transmission, and the end of the gap behind it.
abbrev pub budget {ℓ} : {A : Type ℓ} → ℕ → List A → ℕ
budget max [] = 0
budget max (p ∷ ps) = max + 2 + budget max ps

abbrev pub rank_at : {E A : Type 0} → TxState → List E → ℕ → ℕ → List A → ℕ
rank_at ready es max num ps = 0
rank_at busy [] max num ps = 0
rank_at busy (e ∷ es) max num ps = 2 + budget max ps
rank_at gap [] max num ps = 0
rank_at gap (e ∷ es) max num ps = 1 + budget max ps
rank_at backoff [] max num ps = 0
rank_at backoff (e ∷ es) max num ps = max - num + 3 + budget max ps

module _ {P : Platform} (F : IsFifo P) where
  -- The events that can fire at most, with `num` of the `max` retries of the current packet behind.
  abbrev pub rank : Device P → ℕ
  rank d =
      rank_at d.tx_state d.events d.backoff_params.max_retries d.backoff_params.num_backoff_retries
        (F.to_list d.queue)

  -- A device that waits for no event is ready and holds no packet.
  abbrev pub IsServing : Device P → Type 0
  IsServing d =
      d.events ≡ [] → (d.tx_state ≡ ready) × (pkt_list P d.current_pkt ++ F.to_list d.queue ≡ [])

  -- `r` is a normal return of a device that serves its packets, with at most `bound` events to come.
  pub record Settles (bound max : ℕ) (r : Option (Device P)) : Type 0 where
    pub after : Device P
    pub returns : r ≡ some after
    pub low : rank after ≤ bound
    pub serving : IsServing after
    pub enabled : after.send_enable ≡ true
    pub same_max : after.backoff_params.max_retries ≡ max
