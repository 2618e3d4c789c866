-- ===== src/Csma/Run/Disposed.antt =====
-- An event that fires after `DoDispose`, which does not cancel it.
use assignments_computer_net.Base.{◌≡◌, refl, inl, inr, true, none, some, [], ◌∷◌}
use assignments_computer_net.Csma.Platform.{Platform}
use assignments_computer_net.Csma.Device.{
  TxState, ready, busy, gap, backoff, retry, complete, reopen, Device, Event,
}
use assignments_computer_net.Csma.Invariant.{IsSound, Phase}
use assignments_computer_net.Csma.Getters.{do_dispose}
use assignments_computer_net.Csma.Transmit.{
  transmit_start, start_fuel, start_with, transmit_complete_event,
}
use assignments_computer_net.Csma.Transmit.Events.{run_event}

module _ {P : Platform} where
  -- A device that was disposed of while it had a frame in hand and its send side was on: the event it
  -- waits for meets the null pointer that `DoDispose` leaves for the channel.
  pub run_event-do_dispose :
      (d : Device P) (t : P.random.Time) (e : Event) (p : P.Packet)
      → IsSound d
      → d.current_pkt ≡ some p
      → d.send_enable ≡ true
      → d.events ≡ (t, e) ∷ []
      → run_event e (record (do_dispose d) { events = [] }) ≡ none
  unfolding run_event do_dispose transmit_complete_event transmit_start start_fuel start_with
  run_event-do_dispose d t e p h cur on due = go d.tx_state e refl h.phase due
    where
      go :
          (s : TxState) (ev : Event)
          → d.tx_state ≡ s
          → Phase P s d.current_pkt d.events d.channel
          → d.events ≡ (t, ev) ∷ []
          → run_event ev (record (do_dispose d) { events = [] }) ≡ none
      go ready ev s (_, none') due' = cc
      go busy retry s (_, (t', e'), _) due' = cc
      go busy complete s (holds, _, wire) due' = simp (s, transmit_complete_event)
      go busy reopen s (_, (t', e'), _) due' = cc
      go gap ev s (null, _) due' = cc
      go backoff retry s (inl _) due' = simp (s, cur, on, transmit_start, start_fuel, start_with)
      go backoff retry s (inr (_, none')) due' = cc
      go backoff complete s (inl (_, (t', e'))) due' = cc
      go backoff complete s (inr (_, none')) due' = cc
      go backoff reopen s (inl (_, (t', e'))) due' = cc
      go backoff reopen s (inr (_, none')) due' = cc
