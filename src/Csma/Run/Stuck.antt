-- ===== src/Csma/Run/Stuck.antt =====
-- A device whose send side is switched off while it backs off.
use mathlib.Core.Option.{some-injective}
use assignments_computer_net.Base.{
  ℕ, ◌≡◌, refl, sym, subst, ap, ◌∙◌, inl, inr, Bool, true, false, not, Option, none, some, List, [],
  ◌∷◌, ◌++◌, arith, Bool-cases, Option-cases, if-true, if-false, ◌>>=◌, >>=-some, >>=-none, length,
  length-append,
}
use assignments_computer_net.Csma.Platform.{Platform}
use assignments_computer_net.Csma.Device.{
  Device, backoff, retry, emit, mac_tx, mac_tx_drop, phy_tx_drop, set_send_enable,
  set_receive_enable,
}
use assignments_computer_net.Csma.Frame.{add_header}
use assignments_computer_net.Csma.Transmit.{
  check-pass, check-fail, clear_pkt, transmit_start, start_fuel, start_with, is_ready,
}
use assignments_computer_net.Csma.Transmit.Events.{run_event}
use assignments_computer_net.Csma.Send.{send_from, queue_frame, start_if_ready}
use assignments_computer_net.Csma.Invariant.{departed}
use assignments_computer_net.Csma.Run.{
  Step, accepts, rejects, fires, receives, enables_send, enables_receive, wire_changes, Run, stays,
  goes,
}
use assignments_computer_net.Csma.Run.Receive.{receive-IsUntouched}

module _ {P : Platform} where
  -- It backs off with no packet and waits for no event; `gone` are the packets that left.
  pub record IsStuck (gone : List P.Packet) (d : Device P) : Type 0 where
    pub state : d.tx_state ≡ backoff
    pub idle : d.current_pkt ≡ none
    pub silent : d.events ≡ []
    pub left : departed P d.log ≡ gone

  returned :
      {gone : List P.Packet} {x y : Device P × Bool} {r : Option (Device P × Bool)}
      → r ≡ some x
      → r ≡ some y
      → IsStuck gone x.0
      → IsStuck gone y.0
  returned {gone} p q = subst (λ z. IsStuck gone z.0) (some-injective _ _ (sym p ∙ q))

  queue_frame-IsStuck :
      {gone : List P.Packet} (d : Device P) (p : P.Packet) (x : Device P × Bool)
      → IsStuck gone d
      → queue_frame p d ≡ some x
      → IsStuck gone x.0
  unfolding queue_frame start_if_ready
  queue_frame-IsStuck {gone} d p x h r = elim (Bool-cases (P.enqueue p d.queue).0) [
    | inl yes' ↦
        returned {x = (next, true)} (if-true _ _ _ yes' ∙ >>=-some _ _ next (if-false _ _ _ held)) r
          (record { state = h.state; idle = h.idle; silent = h.silent; left = h.left })
    | inr no' ↦
        returned {x = (emit (mac_tx_drop p) next, false)} (if-false _ _ _ no') r
          (record { state = h.state; idle = h.idle; silent = h.silent; left = h.left })
  ]
    where
      next : Device P
      next = record (emit (mac_tx p) d) { queue = (P.enqueue p d.queue).1 }

      held : is_ready d.tx_state ≡ false
      held = rw h.state refl

  send_from-IsStuck :
      {gone : List P.Packet} (d : Device P) (packet : P.Packet) (src dest : P.Address)
      (protocol : ℕ) (x : Device P × Bool)
      → IsStuck gone d
      → send_from d packet src dest protocol ≡ some x
      → IsStuck gone x.0
  unfolding send_from
  send_from-IsStuck {gone} d packet src dest protocol x h r = elim (Bool-cases d.link_up) [
    | inl up ↦ elim (Bool-cases (not d.send_enable)) [
      | inl off ↦
          returned {x = (emit (mac_tx_drop packet) d, false)} (if-true _ _ _ off)
            (sym (check-pass d.link_up _ up) ∙ r)
            (record { state = h.state; idle = h.idle; silent = h.silent; left = h.left })
      | inr on ↦ elim (Option-cases framed) [
        | inl bad ↦ cc (>>=-none framed queued bad, runs up on)
        | inr (p, ok) ↦ queue_frame-IsStuck d p x h (sym (>>=-some framed queued p ok) ∙ runs up on)
      ]
    ]
    | inr down ↦ cc (check-fail d.link_up (some x) down, r)
  ]
    where
      framed : Option P.Packet
      framed = add_header d packet (P.convert_from src) (P.convert_from dest) protocol

      queued : P.Packet → Option (Device P × Bool)
      queued p = queue_frame p d

      runs : d.link_up ≡ true → not d.send_enable ≡ false → (framed >>= queued) ≡ some x
      runs up on = sym (check-pass d.link_up _ up ∙ if-false _ _ _ on) ∙ r

  Step-IsStuck :
      {gone : List P.Packet} {d d' : Device P} {ps : List P.Packet}
      → Step d ps d'
      → IsStuck gone d
      → IsStuck gone d'
  Step-IsStuck {d = d} (accepts packet framed src dest protocol f r) h =
      send_from-IsStuck d packet src dest protocol _ h r
  Step-IsStuck {d = d} (rejects packet src dest protocol r) h =
      send_from-IsStuck d packet src dest protocol _ h r
  Step-IsStuck (fires before after t e eq r) h =
      absurd (omega (arith, ap length (sym h.silent ∙ eq), length-append before ((t, e) ∷ after)))
  Step-IsStuck {d = d} (receives packet own r) h =
      let u = receive-IsUntouched d packet own r in
      record {
        state = u.tx_state ∙ h.state;
        idle = u.current_pkt ∙ h.idle;
        silent = u.events ∙ h.silent;
        left = u.departures ∙ h.left;
      }
  Step-IsStuck (enables_send enable) h =
      unfold set_send_enable in
      record { state = h.state; idle = h.idle; silent = h.silent; left = h.left }
  Step-IsStuck (enables_receive enable) h =
      unfold set_receive_enable in
      record { state = h.state; idle = h.idle; silent = h.silent; left = h.left }
  Step-IsStuck (wire_changes c busy_wire) h = record {
    state = h.state;
    idle = h.idle;
    silent = h.silent;
    left = h.left;
  }

  Run-IsStuck :
      {gone : List P.Packet} {d d' : Device P} {ps : List P.Packet}
      → Run d ps d'
      → IsStuck gone d
      → IsStuck gone d'
  Run-IsStuck stays h = h
  Run-IsStuck (goes more run step) h = Step-IsStuck step (Run-IsStuck run h)

  -- What is left of a device that waited, when the retry fires with the send side off.
  abbrev pub without_packet : Device P → P.Packet → Device P
  without_packet d p =
      clear_pkt (emit (phy_tx_drop p) (record (set_send_enable d false) { events = [] }))

  -- A device that waits in backoff, with its send side switched off when the retry fires, drops its
  -- packet and never lets another one go: in every later run, also one that switches the send side
  -- on again and accepts frames, no packet is sent or dropped at the lower end.
  pub retry_disabled_sticks :
      (d : Device P) (p : P.Packet) (t : P.random.Time) {ps : List P.Packet} {later : Device P}
      → d.tx_state ≡ backoff
      → d.current_pkt ≡ some p
      → d.events ≡ (t, retry) ∷ []
      → Run (without_packet d p) ps later
      → (run_event retry (record (set_send_enable d false) { events = [] })
          ≡ some (without_packet d p))
        × (departed P later.log ≡ departed P d.log ++ p ∷ [])
        × (later.tx_state ≡ backoff)
  unfolding run_event transmit_start start_fuel start_with set_send_enable
  retry_disabled_sticks d p t {later = later} s c e run = (rw c refl, stuck.left, stuck.state)
    where
      stuck : IsStuck (departed P d.log ++ p ∷ []) later
      stuck = Run-IsStuck run (record { state = s; idle = refl; silent = refl; left = refl })
