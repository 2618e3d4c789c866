-- ===== src/Csma/Drain/Whole.antt =====
-- Runs of a device whose send side stays on: how many events they take, and what has left at the end.
use mathlib.Core.Option.{some-injective}
use assignments_computer_net.Base.{
  ℕ, ◌+◌, ◌*◌, ◌^◌, ◌<◌, ◌≤◌, ◌≡◌, refl, sym, subst, ap, ◌∙◌, ◌⊎◌, inl, inr, true, some, List, [],
  ◌∷◌, ◌++◌, arith, length, append-nil,
}
use assignments_computer_net.Csma.Platform.{Platform, IsFifo, IsChannel, IsWilling}
use assignments_computer_net.Csma.Device.{
  TxState, ready, busy, gap, backoff, Event, retry, complete, reopen, Device, set_send_enable,
  set_receive_enable,
}
use assignments_computer_net.Csma.Invariant.{Phase, departed, IsNew, IsNew-IsSound, line}
use assignments_computer_net.Csma.Transmit.Events.{run_event}
use assignments_computer_net.Csma.Run.{
  Step, accepts, rejects, fires, receives, enables_send, enables_receive, wire_changes, Run, stays,
  goes,
}
use assignments_computer_net.Csma.Run.Receive.{receive-IsUntouched}
use assignments_computer_net.Csma.Run.Sound.{Step-Keeps, Run-fifo, sole_event, run_event_total}
use assignments_computer_net.Csma.Drain.{budget, rank, IsServing}
use assignments_computer_net.Csma.Drain.Fires.{IsActive, run_event-Fires}
use assignments_computer_net.Csma.Drain.Send.{Moves, send_from-Moves, budget-append}

module _ {P : Platform} where
  -- The events that fire in a step, and in a run.
  abbrev pub ticked : {d d' : Device P} {ps : List P.Packet} → Step d ps d' → ℕ
  ticked (accepts packet framed src dest protocol f r) = 0
  ticked (rejects packet src dest protocol r) = 0
  ticked (fires before after t e due r) = 1
  ticked (receives packet own r) = 0
  ticked (enables_send enable) = 0
  ticked (enables_receive enable) = 0
  ticked (wire_changes c on) = 0

  abbrev pub ticks : {d d' : Device P} {ps : List P.Packet} → Run d ps d' → ℕ
  ticks stays = 0
  ticks (goes more run step) = ticked step + ticks run

  -- The send side is on after each step.
  abbrev pub StaysOn : {d d' : Device P} {ps : List P.Packet} → Run d ps d' → Type 0
  StaysOn stays = Unit {0}
  StaysOn (goes {d'' = d''} more run step) = (d''.send_enable ≡ true) × StaysOn run

module _ {P : Platform} (F : IsFifo P) (C : IsChannel P) (W : IsWilling P) where
  -- A step that accepts `ps` and fires `n` events.
  record Costs (d : Device P) (ps : List P.Packet) (n : ℕ) (d' : Device P) : Type 0 where
    low : n + rank F d' ≤ rank F d + budget d.backoff_params.max_retries ps
    serving : IsServing F d'
    same_max : d'.backoff_params.max_retries ≡ d.backoff_params.max_retries

  Moves-Costs : {d d' : Device P} {ps : List P.Packet} → Moves F C W d ps d' → Costs d ps 0 d'
  Moves-Costs m = record { low = omega (arith, m.low); serving = m.serving; same_max = m.same_max }

  fires-Costs :
      {d d' : Device P} (before after : List (P.random.Time × Event)) (t : P.random.Time)
      (e : Event)
      → IsActive F C W d
      → d.events ≡ before ++ (t, e) ∷ after
      → run_event e (record d { events = before ++ after }) ≡ some d'
      → Costs d [] 1 d'
  fires-Costs {d} {d'} before after t e a due r =
      let (b, f) = sole_event F C d before after t e a.sound due in
      let (bound, below, s) = run_event-Fires F C W d t e a (rw (b, f) at due) in
      let same : s.after ≡ d' = some-injective _ _ (sym s.returns ∙ rw (b, f) at r) in
      let low : 1 + rank F s.after ≤ rank F d + 0 = omega (arith, s.low, below) in
      subst (Costs d [] 1) same (record { low = low; serving = s.serving; same_max = s.same_max })

  Step-Costs :
      {d d' : Device P} {ps : List P.Packet} (step : Step d ps d')
      → IsActive F C W d
      → Costs d ps (ticked step) d'
  Step-Costs {d} (accepts packet framed src dest protocol f r) a =
      Moves-Costs (send_from-Moves F C W d packet src dest protocol _ framed a (λ _. f) r)
  Step-Costs {d} (rejects packet src dest protocol r) a =
      Moves-Costs
        (send_from-Moves F C W d packet src dest protocol _ packet a (λ e. absurd (cc e)) r)
  Step-Costs (fires before after t e due r) a = fires-Costs before after t e a due r
  Step-Costs {d} (receives packet own r) a =
      let u = receive-IsUntouched d packet own r in
      record {
        low = rw (u.tx_state, u.events, u.backoff_params, u.queue) (omega arith);
        serving = rw (u.tx_state, u.events, u.current_pkt, u.queue) a.serving;
        same_max = ap (λ b. b.max_retries) u.backoff_params;
      }
  Step-Costs (enables_send enable) a =
      unfold set_send_enable in record { low = omega arith; serving = a.serving; same_max = refl }
  Step-Costs (enables_receive enable) a =
      unfold set_receive_enable in
      record { low = omega arith; serving = a.serving; same_max = refl }
  Step-Costs (wire_changes c on) a = record {
    low = omega arith;
    serving = a.serving;
    same_max = refl;
  }

  record IsProgress (d : Device P) (ps : List P.Packet) (n : ℕ) (d' : Device P) : Type 0 where
    active : IsActive F C W d'
    spent : n + rank F d' ≤ rank F d + budget d.backoff_params.max_retries ps
    same_max : d'.backoff_params.max_retries ≡ d.backoff_params.max_retries

  Run-IsProgress :
      {d d' : Device P} {ps : List P.Packet} (run : Run d ps d')
      → StaysOn run
      → IsActive F C W d
      → IsProgress d ps (ticks run) d'
  Run-IsProgress stays on a = record { active = a; spent = omega arith; same_max = refl }
  Run-IsProgress {d} (goes {ps = ps} {d'} more run step) on a =
      let p = Run-IsProgress run on.1 a in
      let c = Step-Costs step p.active in
      let same : budget d'.backoff_params.max_retries more
          ≡ budget d.backoff_params.max_retries more =
        ap (λ m. budget m more) p.same_max in
      record {
        active = record {
          sound = (Step-Keeps F C step p.active.sound).sound;
          serving = c.serving;
          on = on.0;
          fits = rw c.same_max p.active.fits;
        };
        spent =
            omega (
              arith,
              p.spent,
              c.low,
              same,
              budget-append F C W d.backoff_params.max_retries ps more,
            );
        same_max = c.same_max ∙ p.same_max;
      }

  -- An event is due and fires, or none is due and the frames `ps` have left, in order.
  abbrev pub Delivers : List P.Packet → Device P → Type 0
  Delivers ps d =
      ((d.events ≡ []) × (departed P d.log ≡ ps))
      ⊎ ((t : P.random.Time) × (e : Event) × (d' : Device P) × (d.events ≡ (t, e) ∷ [])
          × (run_event e (record d { events = [] }) ≡ some d'))

  active-Delivers :
      (d : Device P) (ps : List P.Packet) → IsActive F C W d → line F d ≡ ps → Delivers ps d
  active-Delivers d ps a whole = go d.tx_state a.sound.phase
    where
      due : (t : P.random.Time) (e : Event) → d.events ≡ (t, e) ∷ [] → Delivers ps d
      due t e h = let (d', r, _) = run_event_total F C d t e a.sound h in inr (t, e, d', h, r)

      gone : d.events ≡ [] → Delivers ps d
      gone h =
          inl (h, sym (ap (λ l. departed P d.log ++ l) ((a.serving h).1) ∙ append-nil _) ∙ whole)

      go : (s : TxState) → Phase P s d.current_pkt d.events d.channel → Delivers ps d
      go ready (_, none') = gone none'
      go busy (_, (t, due'), _) = due t complete due'
      go gap (_, (t, due')) = due t reopen due'
      go backoff (inl (_, (t, due'))) = due t retry due'
      go backoff (inr (_, none')) = gone none'

  IsNew-IsActive :
      (d : Device P)
      → IsNew F d
      → d.send_enable ≡ true
      → d.backoff_params.max_retries < 2 ^ 32
      → IsActive F C W d
  IsNew-IsActive d new on fits = record {
    sound = IsNew-IsSound F d new;
    serving = λ e. (new.state, rw (new.idle, new.empty) refl);
    on = on;
    fits = fits;
  }

  -- No starvation. In a run of a new device whose send side stays on, at most `m_maxRetries` + 2 events
  -- fire for each frame that was accepted, whatever frames come in and whatever the other devices do to
  -- the wire. At its end one event is due, which fires without a failed assertion, or none is, and then
  -- every accepted frame was sent or dropped, in order. The wire accepts frames while it is idle.
  pub Run-Delivers :
      (d d' : Device P) (ps : List P.Packet) (run : Run d ps d')
      → IsNew F d
      → StaysOn run
      → d.send_enable ≡ true
      → d.backoff_params.max_retries < 2 ^ 32
      → (ticks run ≤ length ps * (d.backoff_params.max_retries + 2)) × Delivers ps d'
  Run-Delivers d d' ps run new stays_on on fits =
      let p = Run-IsProgress run stays_on (IsNew-IsActive d new on fits) in
      let max = d.backoff_params.max_retries in
      let fresh : rank F d ≡ 0 = rw new.state refl in
      (
        omega (arith, p.spent, fresh, budget_lem max ps),
        active-Delivers d' ps p.active (Run-fifo F C d new run),
      )
    where
      budget_lem : {A : Type 0} (max : ℕ) (qs : List A) → budget max qs ≡ length qs * (max + 2)
      budget_lem max [] = omega arith
      budget_lem max (q ∷ qs) = grind (arith, budget_lem max qs)
