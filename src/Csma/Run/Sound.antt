-- ===== src/Csma/Run/Sound.antt =====
-- Every run of a sound device stays sound, and its line of packets is first in, first out.
use mathlib.Core.Option.{some-injective}
use assignments_computer_net.Base.{
  ℕ, ◌≡◌, refl, sym, subst, ap, ◌∙◌, ◌⊎◌, length, length-append, inl, inr, Bool, true, false, not,
  Option, some, List, [], ◌∷◌, ◌++◌, append_assoc, append-nil, arith, Bool-cases, if-true, if-false,
  if◌then◌else◌, Option-cases, >>=-some, >>=-none, ◌>>=◌,
}
use assignments_computer_net.Csma.Platform.{Platform, IsFifo, IsChannel, transmitting}
use assignments_computer_net.Csma.Device.{
  TxState, ready, busy, gap, backoff, Device, Event, emit, mac_tx_drop, set_send_enable,
  set_receive_enable,
}
use assignments_computer_net.Csma.Invariant.{
  IsSound, Leads, line, Phase, IsNew, IsNew-IsSound, departed, pkt_list,
}
use assignments_computer_net.Csma.Frame.{add_header}
use assignments_computer_net.Csma.Transmit.{check-pass, check-fail}
use assignments_computer_net.Csma.Transmit.Steps.{moved}
use assignments_computer_net.Csma.Transmit.Events.{run_event, run_event-Leads}
use assignments_computer_net.Csma.Send.{send_from, queue_frame}
use assignments_computer_net.Csma.Run.{
  Step, accepts, rejects, fires, receives, enables_send, enables_receive, wire_changes, Run, stays,
  goes,
}
use assignments_computer_net.Csma.Run.Send.{Sends, queue_frame-Sends}
use assignments_computer_net.Csma.Run.Receive.{IsUntouched, receive-IsUntouched}

module _ {P : Platform} (F : IsFifo P) (C : IsChannel P) where
  -- A step from `d` to `d'` kept the device sound and put the frames `ps` behind its line.
  pub record Keeps (d : Device P) (ps : List P.Packet) (d' : Device P) : Type 0 where
    pub sound : IsSound d'
    pub next_line : line F d' ≡ line F d ++ ps

  untouched-Keeps : {d d' : Device P} → IsUntouched d d' → IsSound d → Keeps d [] d'
  untouched-Keeps {d} {d'} u h = record {
    sound = record {
      attached = moved F C h.attached u.channel u.bps (ap (λ b. b.ceiling) u.backoff_params);
      phase = rw (u.tx_state, u.current_pkt, u.events, u.channel) h.phase;
    };
    next_line = rw (u.departures, u.current_pkt, u.queue) (sym (append-nil _));
  }

  pub single-append :
      {A : Type 0} (x y : A) (before after : List A)
      → x ∷ [] ≡ before ++ y ∷ after
      → (before ≡ []) × (after ≡ [])
  single-append x y [] after e = ground arith
  single-append x y (b ∷ bs) after e =
      absurd (omega (arith, ap length e, length-append bs (y ∷ after)))

  nil-append : {A : Type 0} (y : A) (before after : List A) → [] ≡ before ++ y ∷ after → ⊥
  nil-append y before after e = omega (arith, ap length e, length-append before (y ∷ after))

  -- A sound device waits for one event at most.
  pub sole_event :
      (d : Device P) (before after : List (P.random.Time × Event)) (t : P.random.Time) (e : Event)
      → IsSound d
      → d.events ≡ before ++ (t, e) ∷ after
      → (before ≡ []) × (after ≡ [])
  sole_event d before after t e h eq = go d.tx_state h.phase
    where
      Sole : Type 0
      Sole = (before ≡ []) × (after ≡ [])

      none_left : d.events ≡ [] → Sole
      none_left n = absurd (nil-append (t, e) before after (sym n ∙ eq))

      one : {x : P.random.Time × Event} → d.events ≡ x ∷ [] → Sole
      one {x} n = single-append x (t, e) before after (sym n ∙ eq)

      go : (s : TxState) → Phase P s d.current_pkt d.events d.channel → Sole
      go ready (_, n) = none_left n
      go busy (_, (_, n), _) = one n
      go gap (_, (_, n)) = one n
      go backoff (inl (_, (_, n))) = one n
      go backoff (inr (_, n)) = none_left n

  Leads-Keeps :
      {d d' : Device P} {r : Option (Device P)} → Leads F d r → r ≡ some d' → Keeps d [] d'
  Leads-Keeps {d} l r =
      subst (Keeps d []) (some-injective _ _ (sym l.returns ∙ r))
        (record { sound = l.sound; next_line = l.same_line ∙ sym (append-nil _) })

  -- A send that returns false keeps the line; one that returns true adds the frame.
  SendKeeps : Device P → Option P.Packet → Device P × Bool → Type 0
  SendKeeps d framed (d', accepted) =
      ((accepted ≡ false) × Keeps d [] d')
      ⊎ ((p : P.Packet) × (framed ≡ some p) × (accepted ≡ true) × Keeps d (p ∷ []) d')

  queue_frame-SendKeeps :
      (d : Device P) (p : P.Packet) (x : Device P × Bool)
      → IsSound d
      → queue_frame p d ≡ some x
      → SendKeeps d (some p) x
  unfolding SendKeeps
  queue_frame-SendKeeps d p x h r =
      subst (SendKeeps d (some p)) (some-injective _ _ (sym sent.returns ∙ r))
        (go sent.accepted sent.next_line)
    where
      sent : Sends F C d p (queue_frame p d)
      sent = queue_frame-Sends F C d p h

      go :
          (b : Bool)
          → line F sent.after ≡ (if b then line F d ++ p ∷ [] else line F d)
          → SendKeeps d (some p) (sent.after, b)
      go true l = inr (p, refl, refl, record { sound = sent.sound; next_line = l })
      go false l = inl (refl, record { sound = sent.sound; next_line = l ∙ sym (append-nil _) })

  send_from-SendKeeps :
      (d : Device P) (packet : P.Packet) (src dest : P.Address) (protocol : ℕ) (x : Device P × Bool)
      → IsSound d
      → send_from d packet src dest protocol ≡ some x
      → SendKeeps d (add_header d packet (P.convert_from src) (P.convert_from dest) protocol) x
  unfolding send_from
  send_from-SendKeeps d packet src dest protocol x h r = elim (Bool-cases d.link_up) [
    | inl up ↦ elim (Bool-cases (not d.send_enable)) [
      | inl off ↦
          subst (SendKeeps d framed) (some-injective _ _ (sym (if-true _ _ _ off) ∙ runs up))
            refused
      | inr on ↦ elim (Option-cases framed) [
        | inl bad ↦ cc (>>=-none framed queued bad, sym (if-false _ _ _ on) ∙ runs up)
        | inr (p, ok) ↦
            subst (λ o. SendKeeps d o x) (sym ok)
              (queue_frame-SendKeeps d p x h
                (sym (>>=-some framed queued p ok) ∙ (sym (if-false _ _ _ on) ∙ runs up)))
      ]
    ]
    | inr down ↦ cc (check-fail d.link_up body down, r)
  ]
    where
      framed : Option P.Packet
      framed = add_header d packet (P.convert_from src) (P.convert_from dest) protocol

      queued : P.Packet → Option (Device P × Bool)
      queued p = queue_frame p d

      dropped : Device P
      dropped = emit (mac_tx_drop packet) d

      body : Option (Device P × Bool)
      body = if not d.send_enable then some (dropped, false) else (framed >>= queued)

      runs : d.link_up ≡ true → body ≡ some x
      runs up = sym (check-pass d.link_up body up) ∙ r

      refused : SendKeeps d framed (dropped, false)
      refused =
          unfold SendKeeps in
          inl (
            refl,
            record {
              sound = record { attached = moved F C h.attached refl refl refl; phase = h.phase };
              next_line = sym (append-nil _);
            },
          )

  true-SendKeeps :
      {d d' : Device P} {framed : Option P.Packet} {p : P.Packet}
      → framed ≡ some p
      → SendKeeps d framed (d', true)
      → Keeps d (p ∷ []) d'
  unfolding SendKeeps
  true-SendKeeps f (inl (e, k)) = cc
  true-SendKeeps {d} {d'} f (inr (p, g, e, k)) =
      subst (λ q. Keeps d (q ∷ []) d') (some-injective _ _ (sym g ∙ f)) k

  false-SendKeeps :
      {d d' : Device P} (framed : Option P.Packet) → SendKeeps d framed (d', false) → Keeps d [] d'
  unfolding SendKeeps
  false-SendKeeps framed (inl (e, k)) = k
  false-SendKeeps framed (inr (p, g, e, k)) = cc

  wire-Phase :
      (s : TxState) (current : Option P.Packet) (events : List (P.random.Time × Event))
      (channel : Option P.Channel) (c : P.Channel)
      → (s ≡ busy → P.get_state c ≡ transmitting)
      → Phase P s current events channel
      → Phase P s current events (some c)
  wire-Phase ready current events channel c on h = h
  wire-Phase busy current events channel c on (held, due, _) = (held, due, (c, refl, on refl))
  wire-Phase gap current events channel c on h = h
  wire-Phase backoff current events channel c on h = h

  pub Step-Keeps : {d d' : Device P} {ps : List P.Packet} → Step d ps d' → IsSound d → Keeps d ps d'
  Step-Keeps {d} (accepts packet framed src dest protocol f r) h =
      true-SendKeeps f (send_from-SendKeeps d packet src dest protocol _ h r)
  Step-Keeps {d} (rejects packet src dest protocol r) h =
      false-SendKeeps _ (send_from-SendKeeps d packet src dest protocol _ h r)
  Step-Keeps {d} (fires before after t e eq r) h =
      let (b, a) = sole_event d before after t e h eq in
      Leads-Keeps (run_event-Leads F C d t e h (rw (b, a) at eq)) (rw (b, a) at r)
  Step-Keeps {d} (receives packet own r) h = untouched-Keeps (receive-IsUntouched d packet own r) h
  Step-Keeps {d} (enables_send enable) h =
      unfold set_send_enable in
      record {
        sound = record { attached = moved F C h.attached refl refl refl; phase = h.phase };
        next_line = sym (append-nil _);
      }
  Step-Keeps {d} (enables_receive enable) h =
      unfold set_receive_enable in
      record {
        sound = record { attached = moved F C h.attached refl refl refl; phase = h.phase };
        next_line = sym (append-nil _);
      }
  Step-Keeps {d} (wire_changes c busy_wire) h = record {
    sound = record {
      attached = record {
        wire = (c, refl);
        rate = h.attached.rate;
        ceiling_pos = h.attached.ceiling_pos;
        ceiling_lt = h.attached.ceiling_lt;
      };
      phase = wire-Phase d.tx_state d.current_pkt d.events d.channel c busy_wire h.phase;
    };
    next_line = sym (append-nil _);
  }

  pub Run-Keeps : {d d' : Device P} {ps : List P.Packet} → Run d ps d' → IsSound d → Keeps d ps d'
  Run-Keeps stays h = record { sound = h; next_line = sym (append-nil _) }
  Run-Keeps {d} (goes {ps = ps} more run step) h =
      let before = Run-Keeps run h in
      let last = Step-Keeps step before.sound in
      record {
        sound = last.sound;
        next_line =
            last.next_line
            ∙ (ap (λ l. l ++ more) before.next_line ∙ append_assoc (line F d) ps more);
      }

  -- From a sound device every run, whatever the other devices and the layer above do, leads to a
  -- sound one: the state machine, the current packet and the awaited event belong together.
  pub Run-IsSound : {d d' : Device P} {ps : List P.Packet} → Run d ps d' → IsSound d → IsSound d'
  Run-IsSound run h = (Run-Keeps run h).sound

  -- After any run of a device that is new, attached to a channel and given a backoff ceiling from 1
  -- to 31, the frames that were accepted are, in their order: those that were sent or dropped at the
  -- lower end, the current one, and those in the queue. None is lost, doubled or overtaken.
  pub Run-fifo :
      (d : Device P) {d' : Device P} {ps : List P.Packet}
      → IsNew F d
      → Run d ps d'
      → departed P d'.log ++ (pkt_list P d'.current_pkt ++ F.to_list d'.queue) ≡ ps
  Run-fifo d new run =
      (Run-Keeps run (IsNew-IsSound F d new)).next_line ∙ rw (new.unused, new.idle, new.empty) refl

  -- The event that a sound device waits for fires without a failed assertion, null pointer or
  -- undefined cast, and leaves the device sound.
  pub run_event_total :
      (d : Device P) (t : P.random.Time) (e : Event)
      → IsSound d
      → d.events ≡ (t, e) ∷ []
      → (d' : Device P) × (run_event e (record d { events = [] }) ≡ some d') × IsSound d'
  run_event_total d t e h due =
      let l = run_event-Leads F C d t e h due in (l.after, l.returns, l.sound)
