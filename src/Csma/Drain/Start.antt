-- ===== src/Csma/Drain/Start.antt =====
-- `TransmitStart` on a device that is enabled: either it has started something that ends with an
-- event, or it has nothing left to send.
use assignments_computer_net.Base.{
  ℕ, zero, suc, ◌+◌, ◌-◌, ◌^◌, ◌<◌, ◌≤◌, ◌≡◌, refl, ap, ◌⊎◌, inl, inr, true, Option, none, some,
  List, [], ◌∷◌, arith, Bool-cases, length,
}
use assignments_computer_net.Backoff.{reset_backoff_time, max_retries_reached}
use assignments_computer_net.Backoff.Window.{get_backoff_time-some}
use assignments_computer_net.Backoff.Retries.{max_retries_reached-false}
use assignments_computer_net.Csma.Platform.{Platform, Wire, idle, IsFifo, IsChannel, IsWilling}
use assignments_computer_net.Csma.Device.{ready, backoff, Device}
use assignments_computer_net.Csma.Invariant.{IsAttached}
use assignments_computer_net.Csma.Transmit.{
  send_next, transmit_abort, retrying, began, schedule_retry, back_off, start_on_wire, start_with,
  start_fuel, transmit_start, is_idle,
}
use assignments_computer_net.Csma.Transmit.Steps.{moved, is_empty-cons, may_start}
use assignments_computer_net.Csma.Drain.{budget, Settles}

module _ {P : Platform} (F : IsFifo P) (C : IsChannel P) (W : IsWilling P) where
  -- A device whose transmitter holds a packet and may start.
  pub record CanStart (d : Device P) : Type 0 where
    pub attached : IsAttached d
    pub state : (d.tx_state ≡ ready) ⊎ (d.tx_state ≡ backoff)
    pub packet : P.Packet
    pub holds : d.current_pkt ≡ some packet
    pub silent : d.events ≡ []
    pub on : d.send_enable ≡ true
    pub fits : d.backoff_params.max_retries < 2 ^ 32

  abbrev pub start_bound : Device P → ℕ
  start_bound d =
      d.backoff_params.max_retries
      - d.backoff_params.num_backoff_retries
      + 2
      + budget d.backoff_params.max_retries (F.to_list d.queue)

  abbrev pub Runs : ℕ → (Device P → Option (Device P)) → Type 0
  Runs n again =
      (d : Device P)
      → CanStart d
      → length (F.to_list d.queue) < n
      → Settles F (start_bound d) d.backoff_params.max_retries (again d)

  schedule_retry-Settles :
      (d : Device P)
      → (s : CanStart d) → d.tx_state ≡ backoff
      → d.backoff_params.num_backoff_retries < d.backoff_params.max_retries
      → Settles F (start_bound d) d.backoff_params.max_retries (schedule_retry s.packet d)
  unfolding schedule_retry
  schedule_retry-Settles d s state more =
      let (t, b, drawn, _, max', num') =
        get_backoff_time-some d.backoff_params s.attached.ceiling_pos s.attached.ceiling_lt in
      record {
        after = retrying s.packet (t, b) d;
        returns = rw drawn refl;
        low = rw (state, max', num') (omega (arith, s.fits, more));
        serving = λ e. absurd (cc e);
        enabled = s.on;
        same_max = max';
      }

  start_on_wire-Settles :
      (d : Device P) (s : CanStart d) (c : P.Channel)
      → P.get_state c ≡ idle
      → Settles F (start_bound d) d.backoff_params.max_retries (start_on_wire s.packet c d)
  unfolding start_on_wire reset_backoff_time
  start_on_wire-Settles d s c quiet = record {
    after = began s.packet (P.channel_start c s.packet d.device_id).1 s.attached.rate.0 d;
    returns = rw (W c s.packet d.device_id quiet, s.attached.rate.1) refl;
    low = omega arith;
    serving = λ e. absurd (cc e);
    enabled = s.on;
    same_max = refl;
  }

  pub Settles-le :
      {b b' max : ℕ} {r : Option (Device P)} → b ≤ b' → Settles F b max r → Settles F b' max r
  Settles-le h s = record {
    after = s.after;
    returns = s.returns;
    low = omega (arith, s.low, h);
    serving = s.serving;
    enabled = s.enabled;
    same_max = s.same_max;
  }

  -- The transmitter is free, and what is in the queue comes next.
  pub record IsFree (d : Device P) : Type 0 where
    pub attached : IsAttached d
    pub state : d.tx_state ≡ ready
    pub empty : d.current_pkt ≡ none
    pub silent : d.events ≡ []
    pub on : d.send_enable ≡ true
    pub fits : d.backoff_params.max_retries < 2 ^ 32

  pub send_next-Settles :
      (n : ℕ) (again : Device P → Option (Device P)) (d : Device P)
      → Runs n again
      → IsFree d
      → length (F.to_list d.queue) < suc n
      → Settles F
          (budget d.backoff_params.max_retries (F.to_list d.queue))
          d.backoff_params.max_retries
          (send_next again d)
  unfolding send_next
  send_next-Settles n again d runs s h = split (F.to_list d.queue) refl
    where
      max : ℕ
      max = d.backoff_params.max_retries

      split :
          (ps : List P.Packet)
          → F.to_list d.queue ≡ ps
          → Settles F (budget max (F.to_list d.queue)) max (send_next again d)
      split [] l = record {
        after = d;
        returns = rw ((F.is_empty_iff d.queue).1 l) refl;
        low = rw s.state (omega arith);
        serving = λ e. (s.state, rw (s.empty, l) refl);
        enabled = s.on;
        same_max = refl;
      }
      split (p ∷ ps) l =
          let (got, rest) = F.dequeue_lem d.queue p ps l in
          rw (is_empty-cons F C d.queue p ps l, got)
            (Settles-le (rw (rest, l) (omega arith)) (
              runs _
                (record {
                  attached = moved F C s.attached refl refl refl;
                  state = inl s.state;
                  packet = p;
                  holds = refl;
                  silent = s.silent;
                  on = s.on;
                  fits = s.fits;
                })
                (omega (arith, ap length rest, ap length l))))

  transmit_abort-Settles :
      (n : ℕ) (again : Device P → Option (Device P)) (d : Device P)
      → Runs n again
      → CanStart d
      → d.tx_state ≡ backoff
      → length (F.to_list d.queue) < suc n
      → Settles F (start_bound d) d.backoff_params.max_retries (transmit_abort again d)
  unfolding transmit_abort reset_backoff_time
  transmit_abort-Settles n again d runs s state h =
      rw (s.holds, state)
        (Settles-le (omega arith) (
          send_next-Settles n again _ runs
            (record {
              attached = moved F C s.attached refl refl refl;
              state = refl;
              empty = refl;
              silent = s.silent;
              on = s.on;
              fits = s.fits;
            })
            h))

  backing_off : (d : Device P) → CanStart d → CanStart (record d { tx_state = backoff })
  backing_off d s = record {
    attached = moved F C s.attached refl refl refl;
    state = inr refl;
    packet = s.packet;
    holds = s.holds;
    silent = s.silent;
    on = s.on;
    fits = s.fits;
  }

  back_off-Settles :
      (n : ℕ) (again : Device P → Option (Device P)) (d : Device P)
      → Runs n again
      → (s : CanStart d) → length (F.to_list d.queue) < suc n
      → Settles F (start_bound d) d.backoff_params.max_retries (back_off again s.packet d)
  unfolding back_off backing_off
  back_off-Settles n again d runs s h = elim (Bool-cases (max_retries_reached d.backoff_params)) [
    | inl over ↦ rw over (
        transmit_abort-Settles n again (record d { tx_state = backoff }) runs (backing_off d s) refl
          h)
    | inr more ↦ rw more (
        schedule_retry-Settles (record d { tx_state = backoff }) (backing_off d s) refl
          (max_retries_reached-false d.backoff_params more))
  ]

  is_idle-idle : (w : Wire) → is_idle w ≡ true → w ≡ idle
  is_idle-idle w e = ground arith

  start_with-Runs :
      (n : ℕ) (again : Device P → Option (Device P))
      → Runs n again
      → Runs (suc n) (start_with again)
  unfolding start_with
  start_with-Runs n again runs d s h =
      let c = s.attached.wire.0 in
      elim (Bool-cases (is_idle (P.get_state c))) [
        | inl quiet ↦
            simp (s.holds, s.on, may_start F C d s.state, s.attached.wire.1, quiet)
              (start_on_wire-Settles d s c (is_idle-idle (P.get_state c) quiet))
        | inr noisy ↦
            simp (s.holds, s.on, may_start F C d s.state, s.attached.wire.1, noisy)
              (back_off-Settles n again d runs s h)
      ]

  start_fuel-Runs : (fuel : ℕ) → Runs fuel (start_fuel fuel)
  unfolding start_fuel
  start_fuel-Runs zero d s h = absurd (omega arith)
  start_fuel-Runs (suc fuel) d s h =
      start_with-Runs fuel (start_fuel fuel) (start_fuel-Runs fuel) d s h

  pub transmit_start-Settles :
      (d : Device P)
      → CanStart d
      → Settles F (start_bound d) d.backoff_params.max_retries (transmit_start d)
  unfolding transmit_start
  transmit_start-Settles d s =
      start_fuel-Runs (suc (P.get_n_packets d.queue)) d s
        (omega (arith, F.get_n_packets_lem d.queue))
