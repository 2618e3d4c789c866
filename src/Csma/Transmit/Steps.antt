-- ===== src/Csma/Transmit/Steps.antt =====
-- The parts of `TransmitStart`, one lemma each.
use assignments_computer_net.Base.{
  ℕ, zero, suc, ◌<◌, ◌≡◌, refl, ap, ◌∙◌, ◌⊎◌, inl, inr, true, false, ◌||◌, Option, none, some, List,
  [], ◌∷◌, append_assoc, arith, Bool-cases, length,
}
use assignments_computer_net.Backoff.{incr_num_retries, reset_backoff_time, max_retries_reached}
use assignments_computer_net.Backoff.Window.{get_backoff_time-some}
use assignments_computer_net.Csma.Platform.{Platform, IsFifo, IsChannel}
use assignments_computer_net.Csma.Device.{ready, backoff, Device, emit, phy_tx_drop}
use assignments_computer_net.Csma.Invariant.{IsAttached, IsSound, Leads, line}
use assignments_computer_net.Csma.Transmit.{
  send_next, transmit_abort, retrying, began, refused, schedule_retry, back_off, start_on_wire,
  start_with, start_fuel, transmit_start, clear_pkt, is_ready, is_backoff, is_idle,
}

module _ {P : Platform} (F : IsFifo P) (C : IsChannel P) where
  schedule_retry-Leads :
      (d : Device P) (p : P.Packet)
      → IsAttached d
      → d.tx_state ≡ backoff
      → d.current_pkt ≡ some p
      → d.events ≡ []
      → Leads F d (schedule_retry p d)
  unfolding schedule_retry incr_num_retries
  schedule_retry-Leads d p a s c e =
      let (t, b, drawn, same, _, _) =
        get_backoff_time-some d.backoff_params a.ceiling_pos a.ceiling_lt in
      record {
        after = retrying p (t, b) d;
        returns = rw drawn refl;
        sound = record {
          attached = record {
            wire = a.wire;
            rate = a.rate;
            ceiling_pos = rw same a.ceiling_pos;
            ceiling_lt = rw same a.ceiling_lt;
          };
          phase = rw (s, e) (inl ((p, c), (t, refl)));
        };
        same_line = refl;
        same_enable = refl;
        same_link = refl;
      }

  start_on_wire-Leads :
      (d : Device P) (p : P.Packet) (c : P.Channel)
      → IsAttached d
      → d.current_pkt ≡ some p
      → d.events ≡ []
      → Leads F d (start_on_wire p c d)
  unfolding start_on_wire reset_backoff_time
  start_on_wire-Leads d p c a cur e =
      let next : P.Channel = (P.channel_start c p d.device_id).1 in
      elim (Bool-cases (P.channel_start c p d.device_id).0) [
        | inl yes' ↦ record {
          after = began p next a.rate.0 d;
          returns = rw (yes', a.rate.1) refl;
          sound = record {
            attached = record {
              wire = (next, refl);
              rate = a.rate;
              ceiling_pos = a.ceiling_pos;
              ceiling_lt = a.ceiling_lt;
            };
            phase = rw e ((p, cur), (_, refl), (next, refl, C.accepted c p d.device_id yes'));
          };
          same_line = refl;
          same_enable = refl;
          same_link = refl;
        }
        | inr no' ↦ record {
          after = refused p next d;
          returns = rw no' refl;
          sound = record {
            attached = record {
              wire = (next, refl);
              rate = a.rate;
              ceiling_pos = a.ceiling_pos;
              ceiling_lt = a.ceiling_lt;
            };
            phase = (refl, e);
          };
          same_line = rw (cur, append_assoc) refl;
          same_enable = refl;
          same_link = refl;
        }
      ]

  pub Leads-from :
      {d e : Device P} {r : Option (Device P)}
      → line F e ≡ line F d
      → e.send_enable ≡ d.send_enable
      → e.link_up ≡ d.link_up
      → Leads F e r
      → Leads F d r
  Leads-from l s k h = record {
    after = h.after;
    returns = h.returns;
    sound = h.sound;
    same_line = h.same_line ∙ l;
    same_enable = h.same_enable ∙ s;
    same_link = h.same_link ∙ k;
  }

  -- `again` is a good `TransmitStart` for a device that holds a packet, waits for no event, and has
  -- fewer than `n` packets in its queue.
  abbrev pub Starts : ℕ → (Device P → Option (Device P)) → Type 0
  Starts n again =
      (d : Device P) (p : P.Packet)
      → IsAttached d
      → (d.tx_state ≡ ready) ⊎ (d.tx_state ≡ backoff)
      → d.current_pkt ≡ some p
      → d.events ≡ []
      → length (F.to_list d.queue) < n
      → Leads F d (again d)

  pub moved :
      {d e : Device P}
      → IsAttached d
      → e.channel ≡ d.channel
      → e.bps ≡ d.bps
      → e.backoff_params.ceiling ≡ d.backoff_params.ceiling
      → IsAttached e
  moved a c b l = record {
    wire = (a.wire.0, c ∙ a.wire.1);
    rate = (a.rate.0, b ∙ a.rate.1);
    ceiling_pos = rw l a.ceiling_pos;
    ceiling_lt = rw l a.ceiling_lt;
  }

  pub is_empty-cons :
      (q : P.Queue) (p : P.Packet) (ps : List P.Packet)
      → F.to_list q ≡ p ∷ ps
      → P.is_empty q ≡ false
  is_empty-cons q p ps l = elim (Bool-cases (P.is_empty q)) [
    | inl e ↦ cc (l, (F.is_empty_iff q).0 e)
    | inr e ↦ e
  ]

  pub send_next-Leads :
      (n : ℕ) (again : Device P → Option (Device P)) (d : Device P)
      → Starts n again
      → IsAttached d
      → d.tx_state ≡ ready
      → d.current_pkt ≡ none
      → d.events ≡ []
      → length (F.to_list d.queue) < suc n
      → Leads F d (send_next again d)
  unfolding send_next
  send_next-Leads n again d starts a s c e h = split (F.to_list d.queue) refl
    where
      split : (ps : List P.Packet) → F.to_list d.queue ≡ ps → Leads F d (send_next again d)
      split [] l = record {
        after = d;
        returns = rw ((F.is_empty_iff d.queue).1 l) refl;
        sound = record { attached = a; phase = rw s (c, e) };
        same_line = refl;
        same_enable = refl;
        same_link = refl;
      }
      split (p ∷ ps) l =
          let (got, rest) = F.dequeue_lem d.queue p ps l in
          rw (is_empty-cons d.queue p ps l, got)
            (Leads-from (rw (rest, c, l) refl) refl refl (
              starts _ p (moved a refl refl refl) (inl s) refl e
                (omega (arith, ap length rest, ap length l))))

  transmit_abort-Leads :
      (n : ℕ) (again : Device P → Option (Device P)) (d : Device P) (p : P.Packet)
      → Starts n again
      → IsAttached d
      → d.tx_state ≡ backoff
      → d.current_pkt ≡ some p
      → d.events ≡ []
      → length (F.to_list d.queue) < suc n
      → Leads F d (transmit_abort again d)
  unfolding transmit_abort reset_backoff_time
  transmit_abort-Leads n again d p starts a s c e h =
      rw (c, s)
        (Leads-from (rw append_assoc refl) refl refl
          (send_next-Leads n again _ starts (moved a refl refl refl) refl refl e h))

  back_off-Leads :
      (n : ℕ) (again : Device P → Option (Device P)) (d : Device P) (p : P.Packet)
      → Starts n again
      → IsAttached d
      → d.current_pkt ≡ some p
      → d.events ≡ []
      → length (F.to_list d.queue) < suc n
      → Leads F d (back_off again p d)
  unfolding back_off
  back_off-Leads n again d p starts a c e h =
      elim (Bool-cases (max_retries_reached d.backoff_params)) [
        | inl over ↦ rw over (
            Leads-from refl refl refl (
              transmit_abort-Leads n again (record d { tx_state = backoff }) p starts
                (moved a refl refl refl) refl c e h))
        | inr more ↦ rw more (
            Leads-from refl refl refl (
              schedule_retry-Leads (record d { tx_state = backoff }) p (moved a refl refl refl) refl
                c e))
      ]

  dropped-IsSound :
      (d : Device P) (p : P.Packet)
      → IsAttached d
      → (d.tx_state ≡ ready) ⊎ (d.tx_state ≡ backoff)
      → d.events ≡ []
      → IsSound (clear_pkt (emit (phy_tx_drop p) d))
  dropped-IsSound d p a (inl s) e = record {
    attached = moved a refl refl refl;
    phase = rw s (refl, e);
  }
  dropped-IsSound d p a (inr s) e = record {
    attached = moved a refl refl refl;
    phase = rw s (inr (refl, e));
  }

  pub may_start :
      (d : Device P)
      → (d.tx_state ≡ ready) ⊎ (d.tx_state ≡ backoff)
      → (is_ready d.tx_state || is_backoff d.tx_state) ≡ true
  may_start d (inl s) = rw s refl
  may_start d (inr s) = rw s refl

  start_with-Starts :
      (n : ℕ) (again : Device P → Option (Device P))
      → Starts n again
      → Starts (suc n) (start_with again)
  unfolding start_with
  start_with-Starts n again starts d p a s c e h = elim (Bool-cases d.send_enable) [
    | inl on ↦ elim (Bool-cases (is_idle (P.get_state a.wire.0))) [
      | inl quiet ↦
          simp (c, on, may_start d s, a.wire.1, quiet) (start_on_wire-Leads d p a.wire.0 a c e)
      | inr noisy ↦
          simp (c, on, may_start d s, a.wire.1, noisy) (back_off-Leads n again d p starts a c e h)
    ]
    | inr off ↦ record {
      after = clear_pkt (emit (phy_tx_drop p) d);
      returns = rw (c, off) refl;
      sound = dropped-IsSound d p a s e;
      same_line = rw (c, append_assoc) refl;
      same_enable = refl;
      same_link = refl;
    }
  ]

  start_fuel-Starts : (fuel : ℕ) → Starts fuel (start_fuel fuel)
  unfolding start_fuel
  start_fuel-Starts zero d p a s c e h = absurd (omega arith)
  start_fuel-Starts (suc fuel) d p a s c e h =
      start_with-Starts fuel (start_fuel fuel) (start_fuel-Starts fuel) d p a s c e h

  -- A device that is attached to a channel, has a ceiling from 1 to 31, is in READY or BACKOFF, holds a
  -- packet and waits for no event, as it is when `TransmitStart` is called: `TransmitStart` returns,
  -- whatever the channel answers, and the device is sound then, and no packet leaves the line but at its
  -- front.
  pub transmit_start-Leads :
      (d : Device P) (p : P.Packet)
      → IsAttached d
      → (d.tx_state ≡ ready) ⊎ (d.tx_state ≡ backoff)
      → d.current_pkt ≡ some p
      → d.events ≡ []
      → Leads F d (transmit_start d)
  unfolding transmit_start
  transmit_start-Leads d p a s c e =
      start_fuel-Starts (suc (P.get_n_packets d.queue)) d p a s c e
        (omega (arith, F.get_n_packets_lem d.queue))
