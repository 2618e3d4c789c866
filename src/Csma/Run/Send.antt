-- ===== src/Csma/Run/Send.antt =====
-- `SendFrom` on a sound device.
use assignments_computer_net.Base.{
  ◌≡◌, refl, ◌∙◌, inl, inr, Bool, true, false, Option, none, some, List, [], ◌∷◌, ◌++◌,
  append_assoc, Bool-cases, if◌then◌else◌,
}
use assignments_computer_net.Csma.Platform.{Platform, IsFifo, IsChannel}
use assignments_computer_net.Csma.Device.{
  TxState, ready, busy, gap, backoff, Device, emit, mac_tx, mac_tx_drop,
}
use assignments_computer_net.Csma.Invariant.{IsSound, Leads, line, Phase}
use assignments_computer_net.Csma.Transmit.{is_ready}
use assignments_computer_net.Csma.Transmit.Steps.{
  Leads-from, moved, is_empty-cons, transmit_start-Leads,
}
use assignments_computer_net.Csma.Send.{start_if_ready, queue_frame}

module _ {P : Platform} (F : IsFifo P) (C : IsChannel P) where
  start_if_ready-Leads : (d : Device P) → IsSound d → Leads F d (start_if_ready d)
  unfolding start_if_ready
  start_if_ready-Leads d h = go d.tx_state refl h.phase
    where
      kept : is_ready d.tx_state ≡ false → Leads F d (start_if_ready d)
      kept no' = record {
        after = d;
        returns = rw no' refl;
        sound = h;
        same_line = refl;
        same_enable = refl;
        same_link = refl;
      }

      queued :
          (ps : List P.Packet)
          → F.to_list d.queue ≡ ps
          → d.tx_state ≡ ready
          → d.current_pkt ≡ none
          → d.events ≡ []
          → Leads F d (start_if_ready d)
      queued [] l s c e = record {
        after = d;
        returns = rw (s, (F.is_empty_iff d.queue).1 l) refl;
        sound = h;
        same_line = refl;
        same_enable = refl;
        same_link = refl;
      }
      queued (p ∷ ps) l s c e =
          let (got, rest) = F.dequeue_lem d.queue p ps l in
          let is : is_ready d.tx_state ≡ true = rw s refl in
          rw (is, is_empty-cons F C d.queue p ps l, got)
            (Leads-from F C (rw (rest, c, l) refl) refl refl
              (transmit_start-Leads F C _ p (moved F C h.attached refl refl refl) (inl s) refl e))

      go :
          (s : TxState)
          → d.tx_state ≡ s
          → Phase P s d.current_pkt d.events d.channel
          → Leads F d (start_if_ready d)
      go ready s (c, e) = queued (F.to_list d.queue) refl s c e
      go busy s _ = kept (rw s refl)
      go gap s _ = kept (rw s refl)
      go backoff s _ = kept (rw s refl)

  -- A normal return of a sound device, with the frame behind its line of packets if the result is
  -- true, and with the same line if it is false.
  pub record Sends (d : Device P) (framed : P.Packet) (r : Option (Device P × Bool)) : Type 0 where
    pub after : Device P
    pub accepted : Bool
    pub returns : r ≡ some (after, accepted)
    pub sound : IsSound after
    pub next_line : line F after ≡ (if accepted then line F d ++ framed ∷ [] else line F d)

  pub queue_frame-Sends :
      (d : Device P) (framed : P.Packet) → IsSound d → Sends d framed (queue_frame framed d)
  unfolding queue_frame
  queue_frame-Sends d framed h = elim (Bool-cases (P.enqueue framed d.queue).0) [
    | inl yes' ↦
        let d' : Device P = record (emit (mac_tx framed) d) {
          queue = (P.enqueue framed d.queue).1;
        } in
        let started =
          start_if_ready-Leads d'
            (record { attached = moved F C h.attached refl refl refl; phase = h.phase }) in
        record {
          after = started.after;
          accepted = true;
          returns = rw (yes', started.returns) refl;
          sound = started.sound;
          next_line =
              started.same_line
              ∙ rw (F.enqueue_lem framed d.queue, yes', append_assoc, append_assoc) refl;
        }
    | inr no' ↦ record {
      after =
          emit (mac_tx_drop framed)
            (record (emit (mac_tx framed) d) { queue = (P.enqueue framed d.queue).1 });
      accepted = false;
      returns = rw no' refl;
      sound = record { attached = moved F C h.attached refl refl refl; phase = h.phase };
      next_line = rw (F.enqueue_lem framed d.queue, no') refl;
    }
  ]
