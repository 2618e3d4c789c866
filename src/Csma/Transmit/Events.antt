-- ===== src/Csma/Transmit/Events.antt =====
-- The two scheduled members that are not `TransmitStart`, and the start of a queued packet.
use assignments_computer_net.Base.{
  suc, ◌≡◌, refl, inl, inr, Option, none, some, [], ◌∷◌, append_assoc, arith, length,
}
use assignments_computer_net.Csma.Platform.{Platform, IsFifo, IsChannel, transmitting}
use assignments_computer_net.Csma.Device.{
  TxState, ready, busy, gap, backoff, retry, complete, reopen, Device, Event, emit, schedule,
  phy_tx_end,
}
use assignments_computer_net.Csma.Invariant.{IsAttached, IsSound, Leads, Phase}
use assignments_computer_net.Csma.Transmit.{
  transmit_start, transmit_complete_event, transmit_ready_event, clear_pkt, check-pass, is_gap,
  is_null,
}
use assignments_computer_net.Csma.Transmit.Steps.{
  Leads-from, moved, send_next-Leads, transmit_start-Leads,
}

-- The call that the simulator makes when an event fires.
unfoldable pub run_event : {P : Platform} → Event → Device P → Option (Device P)
run_event retry d = transmit_start d
run_event complete d = transmit_complete_event d
run_event reopen d = transmit_ready_event d

module _ {P : Platform} (F : IsFifo P) (C : IsChannel P) where
  complete-Leads :
      (d : Device P)
      → IsAttached d
      → d.events ≡ []
      → d.tx_state ≡ busy
      → (p : P.Packet) × (d.current_pkt ≡ some p)
      → (c : P.Channel) × (d.channel ≡ some c) × (P.get_state c ≡ transmitting)
      → Leads F d (transmit_complete_event d)
  unfolding transmit_complete_event
  complete-Leads d a e s (p, cur) (c, wire, on) = record {
    after = schedule d.interframe_gap reopen (
        clear_pkt
          (emit (phy_tx_end p) (record d { tx_state = gap; channel = some (P.channel_end c) })));
    returns = simp (s, wire, on, cur) refl;
    sound = record {
      attached = record {
        wire = (P.channel_end c, refl);
        rate = a.rate;
        ceiling_pos = a.ceiling_pos;
        ceiling_lt = a.ceiling_lt;
      };
      phase = rw e (refl, (d.interframe_gap, refl));
    };
    same_line = simp (cur, append_assoc) refl;
    same_enable = refl;
    same_link = refl;
  }

  ready-Leads :
      (d : Device P)
      → IsAttached d
      → d.events ≡ []
      → d.tx_state ≡ gap
      → d.current_pkt ≡ none
      → Leads F d (transmit_ready_event d)
  unfolding transmit_ready_event
  ready-Leads d a e s cur =
      rw
        (
          check-pass (is_gap d.tx_state) _ (rw s refl),
          check-pass (is_null d.current_pkt) _ (rw cur refl),
        )
        (Leads-from F C refl refl refl (
          send_next-Leads F C (suc (length (F.to_list d.queue))) transmit_start
            (record d { tx_state = ready })
            (λ d' p a' s' c' e' _. transmit_start-Leads F C d' p a' s' c' e')
            (moved F C a refl refl refl) refl cur e (omega arith)))

  -- An event that a sound device waits for fires without a failed assertion, to a sound device.
  pub run_event-Leads :
      (d : Device P) (t : P.random.Time) (ev : Event)
      → IsSound d
      → d.events ≡ (t, ev) ∷ []
      → Leads F d (run_event ev (record d { events = [] }))
  unfolding run_event
  run_event-Leads d t ev h e = go d.tx_state ev refl h.phase e
    where
      idle : Device P
      idle = record d { events = [] }

      a : IsAttached idle
      a = moved F C h.attached refl refl refl

      go :
          (s : TxState) (ev : Event)
          → d.tx_state ≡ s
          → Phase P s d.current_pkt d.events d.channel
          → d.events ≡ (t, ev) ∷ []
          → Leads F d (run_event ev idle)
      go ready ev s (_, none') e = cc
      go busy retry s (_, (t', e'), _) e = cc
      go busy complete s (holds, _, wire) e =
          Leads-from F C refl refl refl (complete-Leads idle a refl s holds wire)
      go busy reopen s (_, (t', e'), _) e = cc
      go gap retry s (_, (t', e')) e = cc
      go gap complete s (_, (t', e')) e = cc
      go gap reopen s (cur, _) e = Leads-from F C refl refl refl (ready-Leads idle a refl s cur)
      go backoff retry s (inl ((p, cur), _)) e =
          Leads-from F C refl refl refl (transmit_start-Leads F C idle p a (inr s) cur refl)
      go backoff retry s (inr (_, none')) e = cc
      go backoff complete s (inl (_, (t', e'))) e = cc
      go backoff complete s (inr (_, none')) e = cc
      go backoff reopen s (inl (_, (t', e'))) e = cc
      go backoff reopen s (inr (_, none')) e = cc
