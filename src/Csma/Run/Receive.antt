-- ===== src/Csma/Run/Receive.antt =====
-- `Receive` leaves the transmitter alone.
use assignments_computer_net.Base.{
  ℕ, ◌≡◌, refl, sym, subst, Option-cases, ◌∙◌, inl, inr, Bool, true, false, Option, none, some,
  arith, Bool-cases, if-true, if-false, not,
}
use mathlib.Core.Option.{some-injective}
use assignments_computer_net.Csma.Platform.{Platform, EthernetHeader, fcs_if}
use assignments_computer_net.Csma.Device.{Device, PacketType, emit, phy_rx_end, phy_rx_drop}
use assignments_computer_net.Csma.Invariant.{departed}
use assignments_computer_net.Csma.Receive.{
  receive, deliver, pass_up, overheard, handed, is_other_host, corrupted, strip, classify, screen,
}

-- What the transmitter works with, and the packets that left, are as before.
pub record IsUntouched {P : Platform} (d e : Device P) : Type 0 where
  pub tx_state : e.tx_state ≡ d.tx_state
  pub current_pkt : e.current_pkt ≡ d.current_pkt
  pub events : e.events ≡ d.events
  pub queue : e.queue ≡ d.queue
  pub channel : e.channel ≡ d.channel
  pub bps : e.bps ≡ d.bps
  pub backoff_params : e.backoff_params ≡ d.backoff_params
  pub send_enable : e.send_enable ≡ d.send_enable
  pub departures : departed P e.log ≡ departed P d.log

module _ {P : Platform} where
  IsUntouched-refl : {d : Device P} → IsUntouched d d
  IsUntouched-refl = record {
    tx_state = refl;
    current_pkt = refl;
    events = refl;
    queue = refl;
    channel = refl;
    bps = refl;
    backoff_params = refl;
    send_enable = refl;
    departures = refl;
  }

  returned :
      {d x e : Device P} {r : Option (Device P)}
      → r ≡ some x
      → r ≡ some e
      → IsUntouched d x
      → IsUntouched d e
  returned {d} p q u = subst (IsUntouched d) (some-injective _ _ (sym p ∙ q)) u

  overheard-IsUntouched :
      (original packet : P.Packet) (protocol : ℕ) (h : EthernetHeader P.Mac) (type : PacketType)
      (d : Device P)
      → IsUntouched d (overheard original packet protocol h type d)
  overheard-IsUntouched original packet protocol h type d = ground arith

  handed-IsUntouched :
      (original packet : P.Packet) (protocol : ℕ) (h : EthernetHeader P.Mac) (type : PacketType)
      (d : Device P)
      → IsUntouched d
          (handed original packet protocol h (overheard original packet protocol h type d))
  handed-IsUntouched original packet protocol h type d = ground arith

  pass_up-IsUntouched :
      (original packet : P.Packet) (protocol : ℕ) (h : EthernetHeader P.Mac) (type : PacketType)
      (d : Device P) {e : Device P}
      → pass_up original packet protocol h type d ≡ some e
      → IsUntouched d e
  unfolding pass_up
  pass_up-IsUntouched original packet protocol h type d r = elim (Bool-cases (is_other_host type)) [
    | inl other ↦
        returned (if-true _ _ _ other) r (overheard-IsUntouched original packet protocol h type d)
    | inr mine ↦
        let after = sym (if-false _ _ _ mine) ∙ r in
        elim (Bool-cases d.has_rx_callback) [
          | inl set ↦
              returned (if-true _ _ _ set) after
                (handed-IsUntouched original packet protocol h type d)
          | inr null ↦ absurd (cc (sym (if-false _ _ _ null) ∙ after))
        ]
  ]

  deliver-IsUntouched :
      (d : Device P) (original : P.Packet) {e : Device P}
      → deliver d original ≡ some e
      → IsUntouched d e
  unfolding deliver
  deliver-IsUntouched d original r = elim (Bool-cases (P.check_fcs packet (fcs_if P trailer))) [
    | inl good ↦ elim (Option-cases (strip P opened.0 opened.1)) [
      | inl bad ↦ cc (r, failed good bad)
      | inr (s, ok) ↦
          pass_up-IsUntouched original s.1 s.0 opened.0 (classify d opened.0.destination) d
            (sym (passed s good ok) ∙ r)
    ]
    | inr bad ↦ returned (rw bad refl) r IsUntouched-refl'
  ]
    where
      packet : P.Packet
      packet = (P.remove_trailer original).1

      trailer : P.Trailer
      trailer = (P.remove_trailer original).0

      opened : EthernetHeader P.Mac × P.Packet
      opened = P.remove_ethernet packet

      passed :
          (s : ℕ × P.Packet)
          → P.check_fcs packet (fcs_if P trailer) ≡ true
          → strip P opened.0 opened.1 ≡ some s
          → deliver d original
            ≡ pass_up original s.1 s.0 opened.0 (classify d opened.0.destination) d
      passed s good ok = rw (good, ok) refl

      failed :
          P.check_fcs packet (fcs_if P trailer) ≡ true
          → strip P opened.0 opened.1 ≡ none
          → deliver d original ≡ none
      failed good bad = rw (good, bad) refl

      IsUntouched-refl' : IsUntouched d (emit (phy_rx_drop packet) d)
      IsUntouched-refl' = record {
        tx_state = refl;
        current_pkt = refl;
        events = refl;
        queue = refl;
        channel = refl;
        bps = refl;
        backoff_params = refl;
        send_enable = refl;
        departures = refl;
      }

  corrupted-IsUntouched : (d : Device P) (p : P.Packet) → IsUntouched d (corrupted d p).1
  unfolding corrupted
  corrupted-IsUntouched d p = ground arith

  IsUntouched-trans : {d e f : Device P} → IsUntouched d e → IsUntouched e f → IsUntouched d f
  IsUntouched-trans u v = record {
    tx_state = v.tx_state ∙ u.tx_state;
    current_pkt = v.current_pkt ∙ u.current_pkt;
    events = v.events ∙ u.events;
    queue = v.queue ∙ u.queue;
    channel = v.channel ∙ u.channel;
    bps = v.bps ∙ u.bps;
    backoff_params = v.backoff_params ∙ u.backoff_params;
    send_enable = v.send_enable ∙ u.send_enable;
    departures = v.departures ∙ u.departures;
  }

  noted :
      {d : Device P} (p : P.Packet) {e : Device P}
      → IsUntouched (emit (phy_rx_end p) d) e
      → IsUntouched d e
  noted p u = record {
    tx_state = u.tx_state;
    current_pkt = u.current_pkt;
    events = u.events;
    queue = u.queue;
    channel = u.channel;
    bps = u.bps;
    backoff_params = u.backoff_params;
    send_enable = u.send_enable;
    departures = u.departures;
  }

  dropped :
      {d e : Device P} (p : P.Packet) → IsUntouched d e → IsUntouched d (emit (phy_rx_drop p) e)
  dropped p u = record {
    tx_state = u.tx_state;
    current_pkt = u.current_pkt;
    events = u.events;
    queue = u.queue;
    channel = u.channel;
    bps = u.bps;
    backoff_params = u.backoff_params;
    send_enable = u.send_enable;
    departures = u.departures;
  }

  screen-IsUntouched :
      (d : Device P) (p : P.Packet) {e : Device P} → screen d p ≡ some e → IsUntouched d e
  unfolding screen
  screen-IsUntouched d p r = elim (Bool-cases (corrupted d p).0) [
    | inl bad ↦ returned (if-true _ _ _ bad) r (dropped p (corrupted-IsUntouched d p))
    | inr good ↦
        IsUntouched-trans (corrupted-IsUntouched d p)
          (deliver-IsUntouched (corrupted d p).1 p (sym (if-false _ _ _ good) ∙ r))
  ]

  -- Whatever frame comes in and however it is judged, `Receive` changes nothing that the transmitter
  -- works with, and no packet leaves the line.
  pub receive-IsUntouched :
      (d : Device P) (p : P.Packet) (own : Bool) {e : Device P}
      → receive d p own ≡ some e
      → IsUntouched d e
  unfolding receive
  receive-IsUntouched d p true r = returned refl r IsUntouched-refl
  receive-IsUntouched d p false r = elim (Bool-cases (not d.receive_enable)) [
    | inl off ↦ returned (if-true _ _ _ off) r (noted p (dropped p IsUntouched-refl))
    | inr on ↦ noted p (screen-IsUntouched (emit (phy_rx_end p) d) p (sym (if-false _ _ _ on) ∙ r))
  ]
