-- ===== src/Csma/Transmit.antt =====
-- The transmitter: `TransmitStart`, `TransmitAbort`, `TransmitCompleteEvent` and
-- `TransmitReadyEvent`. `none` stands for a failed NS_ASSERT, a null pointer or an undefined cast.
pub mod Steps
pub mod Events
use assignments_computer_net.Base.{
  ℕ, zero, suc, ◌≡◌, refl, Bool, true, false, ◌||◌, not, Option, none, some, if◌then◌else◌, ◌>>=◌,
}
use assignments_computer_net.Backoff.{
  Backoff, max_retries_reached, incr_num_retries, get_backoff_time, reset_backoff_time,
}
use assignments_computer_net.Csma.Platform.{Platform, Wire, idle, transmitting}
use assignments_computer_net.Csma.Device.{
  TxState, ready, busy, gap, backoff, retry, complete, reopen, mac_tx_backoff, phy_tx_begin,
  phy_tx_end, phy_tx_drop, sniffer, promisc_sniffer, Device, emit, schedule,
}

abbrev pub is_ready : TxState → Bool
is_ready ready = true
is_ready _ = false

abbrev pub is_busy : TxState → Bool
is_busy busy = true
is_busy _ = false

abbrev pub is_gap : TxState → Bool
is_gap gap = true
is_gap _ = false

abbrev pub is_backoff : TxState → Bool
is_backoff backoff = true
is_backoff _ = false

abbrev pub is_idle : Wire → Bool
is_idle idle = true
is_idle _ = false

abbrev pub is_transmitting : Wire → Bool
is_transmitting transmitting = true
is_transmitting _ = false

-- NS_ASSERT.
abbrev pub check : Bool → Option (Unit {0})
check true = some tt
check false = none

infixl 5 ◌>>◌
abbrev pub ◌>>◌ {ℓ} : {B : Type ℓ} → Option (Unit {0}) → Option B → Option B
m >> k = m >>= λ _. k

pub check-pass {ℓ} : {B : Type ℓ} (b : Bool) (k : Option B) → b ≡ true → (check b >> k) ≡ k
check-pass b k h = rw h refl

pub check-fail {ℓ} : {B : Type ℓ} (b : Bool) (k : Option B) → b ≡ false → (check b >> k) ≡ none
check-fail b k h = rw h refl

abbrev pub is_null {ℓ} : {A : Type ℓ} → Option A → Bool
is_null none = true
is_null (some _) = false

module _ {P : Platform} where
  abbrev pub clear_pkt : Device P → Device P
  clear_pkt d = record d { current_pkt = none }

  -- The common tail of `TransmitAbort` and `TransmitReadyEvent`. The argument `again` is the call
  -- of `TransmitStart`.
  unfoldable pub send_next : (Device P → Option (Device P)) → Device P → Option (Device P)
  send_next again d = if P.is_empty d.queue then some d else do
    let taken = P.dequeue d.queue
    pkt ← taken.0
    again (
        emit (promisc_sniffer pkt)
          (emit (sniffer pkt) (record d { queue = taken.1; current_pkt = some pkt })))

  unfoldable pub transmit_abort : (Device P → Option (Device P)) → Device P → Option (Device P)
  transmit_abort again d = do
    pkt ← d.current_pkt
    check (is_backoff d.tx_state)
    send_next again (record (clear_pkt (emit (phy_tx_drop pkt) d)) {
      backoff_params = reset_backoff_time d.backoff_params;
      tx_state = ready;
    })

  abbrev pub retrying : P.Packet → P.random.Time × Backoff P.random → Device P → Device P
  retrying pkt drawn d =
      schedule drawn.0 retry (record (emit (mac_tx_backoff pkt) d) { backoff_params = drawn.1 })

  unfoldable pub schedule_retry : P.Packet → Device P → Option (Device P)
  schedule_retry pkt d = do
    drawn ← get_backoff_time (incr_num_retries d.backoff_params)
    some (retrying pkt drawn d)

  -- The branch of `TransmitStart` for a busy wire.
  unfoldable pub back_off : (Device P → Option (Device P)) → P.Packet → Device P → Option (Device P)
  back_off again pkt d =
      let d' = record d { tx_state = backoff } in
      if max_retries_reached d.backoff_params
      then transmit_abort again d'
      else schedule_retry pkt d'

  -- The channel accepted the packet.
  abbrev pub began : P.Packet → P.Channel → P.Rate → Device P → Device P
  began pkt c rate d = schedule (P.calculate_tx_time rate (P.get_size pkt)) complete (
      emit (phy_tx_begin pkt) (record d {
        channel = some c;
        backoff_params = reset_backoff_time d.backoff_params;
        tx_state = busy;
      }))

  -- The channel refused it.
  abbrev pub refused : P.Packet → P.Channel → Device P → Device P
  refused pkt c d = record (clear_pkt (emit (phy_tx_drop pkt) d)) {
    channel = some c;
    tx_state = ready;
  }

  -- The branch for an idle wire.
  unfoldable pub start_on_wire : P.Packet → P.Channel → Device P → Option (Device P)
  start_on_wire pkt c d =
      let started = P.channel_start c pkt d.device_id in
      if started.0
      then (do rate ← d.bps; some (began pkt started.1 rate d))
      else some (refused pkt started.1 d)

  -- `TransmitStart`, with its call through `TransmitAbort` as an argument.
  unfoldable pub start_with : (Device P → Option (Device P)) → Device P → Option (Device P)
  start_with again d = do
    pkt ← d.current_pkt
    if not d.send_enable then some (clear_pkt (emit (phy_tx_drop pkt) d)) else do
      check (is_ready d.tx_state || is_backoff d.tx_state)
      c ← d.channel
      if is_idle (P.get_state c) then start_on_wire pkt c d else back_off again pkt d

  unfoldable pub start_fuel : ℕ → Device P → Option (Device P)
  start_fuel zero d = none
  start_fuel (suc fuel) d = start_with (start_fuel fuel) d

  -- Each abort takes a packet from the queue, so one call for each packet and one more are enough.
  unfoldable pub transmit_start : Device P → Option (Device P)
  transmit_start d = start_fuel (suc (P.get_n_packets d.queue)) d

  unfoldable pub transmit_complete_event : Device P → Option (Device P)
  transmit_complete_event d = do
    check (is_busy d.tx_state)
    c ← d.channel
    check (is_transmitting (P.get_state c))
    pkt ← d.current_pkt
    some (
        schedule d.interframe_gap reopen (
          clear_pkt (
            emit (phy_tx_end pkt) (record d { tx_state = gap; channel = some (P.channel_end c) }))))

  unfoldable pub transmit_ready_event : Device P → Option (Device P)
  transmit_ready_event d = do
    check (is_gap d.tx_state)
    check (is_null d.current_pkt)
    send_next transmit_start (record d { tx_state = ready })
