-- ===== src/Csma/Drain/Fires.antt =====
-- An event that fires brings an active device closer to its rest.
use assignments_computer_net.Base.{
  ℕ, suc, ◌+◌, ◌^◌, ◌<◌, ◌≤◌, ◌≡◌, refl, inl, inr, true, Option, none, some, [], ◌∷◌, arith, length,
}
use assignments_computer_net.Csma.Platform.{Platform, IsFifo, IsChannel, IsWilling, transmitting}
use assignments_computer_net.Csma.Device.{
  TxState, ready, busy, gap, backoff, Event, retry, complete, reopen, Device, emit, schedule,
  phy_tx_end,
}
use assignments_computer_net.Csma.Invariant.{IsSound, Phase}
use assignments_computer_net.Csma.Transmit.{
  transmit_start, transmit_complete_event, transmit_ready_event, clear_pkt, check-pass, is_gap,
  is_null,
}
use assignments_computer_net.Csma.Transmit.Steps.{moved}
use assignments_computer_net.Csma.Transmit.Events.{run_event}
use assignments_computer_net.Csma.Drain.{budget, rank, IsServing, Settles}
use assignments_computer_net.Csma.Drain.Start.{send_next-Settles, transmit_start-Settles}

module _ {P : Platform} (F : IsFifo P) (C : IsChannel P) (W : IsWilling P) where
  -- The device is sound, enabled, and serves its packets.
  pub record IsActive (d : Device P) : Type 0 where
    pub sound : IsSound d
    pub serving : IsServing F d
    pub on : d.send_enable ≡ true
    pub fits : d.backoff_params.max_retries < 2 ^ 32

  abbrev pub Fires : Device P → Option (Device P) → Type 0
  Fires d r = (b : ℕ) × (suc b ≤ rank F d) × Settles F b d.backoff_params.max_retries r

  complete-Fires :
      (d : Device P) (t : P.random.Time)
      → IsActive d
      → d.tx_state ≡ busy
      → d.events ≡ (t, complete) ∷ []
      → (p : P.Packet) × (d.current_pkt ≡ some p)
      → (c : P.Channel) × (d.channel ≡ some c) × (P.get_state c ≡ transmitting)
      → Fires d (transmit_complete_event (record d { events = [] }))
  unfolding transmit_complete_event
  complete-Fires d t a s e (p, cur) (c, wire, on) = (
    1 + budget d.backoff_params.max_retries (F.to_list d.queue),
    rw (s, e) (omega arith),
    record {
      after = schedule d.interframe_gap reopen (
          clear_pkt (
            emit (phy_tx_end p)
              (record d { events = []; tx_state = gap; channel = some (P.channel_end c) })));
      returns = simp (s, wire, on, cur) refl;
      low = omega arith;
      serving = λ e. absurd (cc e);
      enabled = a.on;
      same_max = refl;
    },
  )

  reopen-Fires :
      (d : Device P) (t : P.random.Time)
      → IsActive d
      → d.tx_state ≡ gap
      → d.events ≡ (t, reopen) ∷ []
      → d.current_pkt ≡ none
      → Fires d (transmit_ready_event (record d { events = [] }))
  unfolding transmit_ready_event
  reopen-Fires d t a s e cur = (
    budget d.backoff_params.max_retries (F.to_list d.queue),
    rw (s, e) (omega arith),
    rw
        (
          check-pass (is_gap d.tx_state) _ (rw s refl),
          check-pass (is_null d.current_pkt) _ (rw cur refl),
        )
        (send_next-Settles F C W (suc (length (F.to_list d.queue))) transmit_start
          (record d { events = []; tx_state = ready })
          (λ d' s' _. transmit_start-Settles F C W d' s')
          (record {
            attached = moved F C a.sound.attached refl refl refl;
            state = refl;
            empty = cur;
            silent = refl;
            on = a.on;
            fits = a.fits;
          })
          (omega arith)),
  )

  retry-Fires :
      (d : Device P) (t : P.random.Time) (p : P.Packet)
      → IsActive d
      → d.tx_state ≡ backoff
      → d.events ≡ (t, retry) ∷ []
      → d.current_pkt ≡ some p
      → Fires d (transmit_start (record d { events = [] }))
  retry-Fires d t p a s e cur = (
    _,
    rw (s, e) (omega arith),
    transmit_start-Settles F C W (record d { events = [] })
        (record {
          attached = moved F C a.sound.attached refl refl refl;
          state = inr s;
          packet = p;
          holds = cur;
          silent = refl;
          on = a.on;
          fits = a.fits;
        }),
  )

  pub run_event-Fires :
      (d : Device P) (t : P.random.Time) (ev : Event)
      → IsActive d
      → d.events ≡ (t, ev) ∷ []
      → Fires d (run_event ev (record d { events = [] }))
  unfolding run_event
  run_event-Fires d t ev a e = go d.tx_state ev refl a.sound.phase e
    where
      go :
          (s : TxState) (ev : Event)
          → d.tx_state ≡ s
          → Phase P s d.current_pkt d.events d.channel
          → d.events ≡ (t, ev) ∷ []
          → Fires d (run_event ev (record d { events = [] }))
      go ready ev s (_, none') e = absurd (cc (none', e))
      go busy retry s (_, (t', e'), _) e = absurd (cc (e', e))
      go busy complete s (holds, _, wire) e = complete-Fires d t a s e holds wire
      go busy reopen s (_, (t', e'), _) e = absurd (cc (e', e))
      go gap retry s (_, (t', e')) e = absurd (cc (e', e))
      go gap complete s (_, (t', e')) e = absurd (cc (e', e))
      go gap reopen s (cur, _) e = reopen-Fires d t a s e cur
      go backoff retry s (inl ((p, cur), _)) e = retry-Fires d t p a s e cur
      go backoff retry s (inr (_, none')) e = absurd (cc (none', e))
      go backoff complete s (inl (_, (t', e'))) e = absurd (cc (e', e))
      go backoff complete s (inr (_, none')) e = absurd (cc (none', e))
      go backoff reopen s (inl (_, (t', e'))) e = absurd (cc (e', e))
      go backoff reopen s (inr (_, none')) e = absurd (cc (none', e))
