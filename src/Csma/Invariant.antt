-- ===== src/Csma/Invariant.antt =====
-- The invariant of the transmitter: the state machine, the current packet and the scheduled events
-- belong together; and the line of packets that the device holds or has let go.
use assignments_computer_net.Base.{
  ℕ, ◌<◌, ◌≡◌, refl, sym, subst, ◌⊎◌, arith, Option, none, some, List, [], ◌∷◌, ◌++◌,
}
use assignments_computer_net.Csma.Platform.{Platform, IsFifo, transmitting}
use assignments_computer_net.Csma.Device.{
  TxState, ready, busy, gap, backoff, Event, retry, complete, reopen, Trace, phy_tx_end,
  phy_tx_drop, Device, attach, new_device,
}
use assignments_computer_net.Backoff.{default}

module _ (P : Platform) where
  abbrev Events : Type 0
  Events = List (P.random.Time × Event)

  abbrev pub Holds : Option P.Packet → Type 0
  Holds current = (p : P.Packet) × (current ≡ some p)

  abbrev pub Awaits : Event → Events → Type 0
  Awaits e events = (t : P.random.Time) × (events ≡ (t, e) ∷ [])

  abbrev pub OnWire : Option P.Channel → Type 0
  OnWire channel = (c : P.Channel) × (channel ≡ some c) × (P.get_state c ≡ transmitting)

  -- In each state one event is to come, or none; a packet is current in `busy` and `backoff`. The
  -- second case of `backoff` is a device that lost its packet while it waited.
  abbrev pub Phase : TxState → Option P.Packet → Events → Option P.Channel → Type 0
  Phase ready current events channel = (current ≡ none) × (events ≡ [])
  Phase busy current events channel = Holds current × Awaits complete events × OnWire channel
  Phase gap current events channel = (current ≡ none) × Awaits reopen events
  Phase backoff current events channel =
      (Holds current × Awaits retry events) ⊎ ((current ≡ none) × (events ≡ []))

  abbrev pub departed : List (Trace P) → List P.Packet
  departed [] = []
  departed (phy_tx_end p ∷ log) = departed log ++ p ∷ []
  departed (phy_tx_drop p ∷ log) = departed log ++ p ∷ []
  departed (_ ∷ log) = departed log

  abbrev pub pkt_list : Option P.Packet → List P.Packet
  pkt_list none = []
  pkt_list (some p) = p ∷ []

module _ {P : Platform} where
  -- The device has a channel and a data rate, and its backoff has a ceiling that keeps the window
  -- within a uint32_t.
  pub record IsAttached (d : Device P) : Type 0 where
    pub wire : (c : P.Channel) × (d.channel ≡ some c)
    pub rate : (r : P.Rate) × (d.bps ≡ some r)
    pub ceiling_pos : 0 < d.backoff_params.ceiling
    pub ceiling_lt : d.backoff_params.ceiling < 32

  pub record IsSound (d : Device P) : Type 0 where
    pub attached : IsAttached d
    pub phase : Phase P d.tx_state d.current_pkt d.events d.channel

  -- The packets that left at the lower end, sent or dropped, the oldest first; then the current
  -- one; then the queue.
  abbrev pub line : IsFifo P → Device P → List P.Packet
  line F d = departed P d.log ++ (pkt_list P d.current_pkt ++ F.to_list d.queue)

  -- `r` is a normal return of a sound device, with the same line of packets and settings as `d`.
  pub record Leads (F : IsFifo P) (d : Device P) (r : Option (Device P)) : Type 0 where
    pub after : Device P
    pub returns : r ≡ some after
    pub sound : IsSound after
    pub same_line : line F after ≡ line F d
    pub same_enable : after.send_enable ≡ d.send_enable
    pub same_link : after.link_up ≡ d.link_up

  -- A device that is attached and idle, holds nothing and has let nothing go.
  pub record IsNew (F : IsFifo P) (d : Device P) : Type 0 where
    pub attached : IsAttached d
    pub state : d.tx_state ≡ ready
    pub idle : d.current_pkt ≡ none
    pub silent : d.events ≡ []
    pub empty : F.to_list d.queue ≡ []
    pub unused : departed P d.log ≡ []

  pub IsNew-IsSound : (F : IsFifo P) (d : Device P) → IsNew F d → IsSound d
  IsNew-IsSound F d new = record {
    attached = new.attached;
    phase =
        subst (λ s. Phase P s d.current_pkt d.events d.channel) (sym new.state)
          (new.idle, new.silent);
  }

  -- `Attach` makes a device as its constructor leaves it new in this sense.
  pub attach-IsNew :
      (F : IsFifo P) (mtu : ℕ) (address : P.Mac) (if_index : ℕ) (zero_seconds : P.random.Time)
      (queue : P.Queue) (device_id : ℕ) (c : P.Channel)
      → F.to_list queue ≡ []
      → IsNew F (attach (new_device P mtu address if_index zero_seconds queue device_id) c).0
  unfolding attach new_device default
  attach-IsNew F mtu address if_index zero_seconds queue device_id c e = record {
    attached = record {
      wire = (_, refl);
      rate = (_, refl);
      ceiling_pos = omega arith;
      ceiling_lt = omega arith;
    };
    state = refl;
    idle = refl;
    silent = refl;
    empty = e;
    unused = refl;
  }
