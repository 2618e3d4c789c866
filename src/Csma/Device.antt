-- ===== src/Csma/Device.antt =====
-- The state of a device, its construction, its setters and getters, and `Attach`.
use assignments_computer_net.Base.{ℕ, ◌/◌, Bool, true, false, Option, none, some, List, [], ◌∷◌}
use assignments_computer_net.Backoff.{Backoff, default, set_params, assign_streams}
use assignments_computer_net.Csma.Platform.{Platform}

-- `TxMachineState`.
pub data TxState : Type 0 where
  ready busy gap backoff : TxState

pub data EncapsulationMode : Type 0 where
  illegal dix llc : EncapsulationMode

pub data PacketType : Type 0 where
  host broadcast multicast other_host : PacketType

-- What the device hands to `Simulator::Schedule`: `TransmitStart`, `TransmitCompleteEvent` and
-- `TransmitReadyEvent`.
pub data Event : Type 0 where
  retry complete reopen : Event

-- What an observer sees: the trace sources, and the calls of the callbacks.
pub data Trace (P : Platform) : Type 0 where
  mac_tx mac_tx_drop mac_tx_backoff : P.Packet → Trace P
  phy_tx_begin phy_tx_end phy_tx_drop : P.Packet → Trace P
  sniffer promisc_sniffer : P.Packet → Trace P
  phy_rx_end phy_rx_drop mac_promisc_rx mac_rx : P.Packet → Trace P
  promisc_rx_callback : P.Packet → ℕ → P.Mac → P.Mac → PacketType → Trace P
  rx_callback : P.Packet → ℕ → P.Mac → Trace P
  link_change : Trace P

-- The members, with two more for the effects: `events` holds what was scheduled and has not
-- fired, `log` the traces, both newest first. A null pointer is `none`.
pub record Device (P : Platform) : Type 0 where
  pub link_up : Bool
  pub send_enable : Bool
  pub receive_enable : Bool
  pub mtu : ℕ
  pub encap_mode : EncapsulationMode
  pub address : P.Mac
  pub if_index : ℕ
  pub tx_state : TxState
  pub interframe_gap : P.random.Time
  pub backoff_params : Backoff P.random
  pub queue : P.Queue
  pub current_pkt : Option P.Packet
  pub channel : Option P.Channel
  pub device_id : ℕ
  pub bps : Option P.Rate
  pub error_model : Option P.ErrorModel
  pub has_promisc_callback : Bool
  pub has_rx_callback : Bool
  pub events : List (P.random.Time × Event)
  pub log : List (Trace P)

module _ {P : Platform} where
  abbrev pub emit : Trace P → Device P → Device P
  emit t d = record d { log = t ∷ d.log }

  abbrev pub schedule : P.random.Time → Event → Device P → Device P
  schedule t e d = record d { events = (t, e) ∷ d.events }

  pub set_encapsulation_mode : Device P → EncapsulationMode → Device P
  set_encapsulation_mode d mode = record d { encap_mode = mode }

  pub set_mtu : Device P → ℕ → Device P × Bool
  set_mtu d mtu = (record d { mtu = mtu }, true)

  unfoldable pub set_send_enable : Device P → Bool → Device P
  set_send_enable d enable = record d { send_enable = enable }

  unfoldable pub set_receive_enable : Device P → Bool → Device P
  set_receive_enable d enable = record d { receive_enable = enable }

  pub set_interframe_gap : Device P → P.random.Time → Device P
  set_interframe_gap d t = record d { interframe_gap = t }

  pub set_backoff_params : Device P → P.random.Time → ℕ → ℕ → ℕ → ℕ → Device P
  set_backoff_params d slot_time min_slots max_slots ceiling max_retries = record d {
    backoff_params = set_params d.backoff_params slot_time min_slots max_slots ceiling max_retries;
  }

  pub set_queue : Device P → P.Queue → Device P
  set_queue d q = record d { queue = q }

  pub set_receive_error_model : Device P → P.ErrorModel → Device P
  set_receive_error_model d em = record d { error_model = some em }

  pub set_if_index : Device P → ℕ → Device P
  set_if_index d index = record d { if_index = index }

  pub set_address : Device P → P.Address → Device P
  set_address d address = record d { address = P.convert_from address }

  pub set_promisc_receive_callback : Device P → Device P
  set_promisc_receive_callback d = record d { has_promisc_callback = true }

  abbrev pub set_receive_callback : Device P → Device P
  set_receive_callback d = record d { has_rx_callback = true }

  pub assign_device_streams : Device P → ℕ → Device P × ℕ
  assign_device_streams d stream =
      let assigned = assign_streams d.backoff_params stream in
      (record d { backoff_params = assigned.0 }, assigned.1)

  unfoldable pub notify_link_up : Device P → Device P
  notify_link_up d = emit link_change (record d { link_up = true })

  -- `Attach`: the interframe gap is the time of 96 bits.
  unfoldable pub attach : Device P → P.Channel → Device P × Bool
  unfolding notify_link_up
  attach d c =
      let attached = P.channel_attach c in
      let rate = P.get_data_rate attached.1 in
      (
        notify_link_up (record d {
          channel = some attached.1;
          device_id = attached.0;
          bps = some rate;
          interframe_gap = P.calculate_tx_time rate (96 / 8);
        }),
        true,
      )

-- A device as its constructor and the defaults of its attributes leave it, with a queue set.
-- `m_mtu`'s default and `Seconds (0)` are ns-3's; what the constructor does not write is given.
unfoldable pub new_device : (P : Platform) → ℕ → P.Mac → ℕ → P.random.Time → P.Queue → ℕ → Device P
new_device P mtu address if_index zero_seconds queue device_id = record {
  link_up = false;
  send_enable = true;
  receive_enable = true;
  mtu = mtu;
  encap_mode = dix;
  address = address;
  if_index = if_index;
  tx_state = ready;
  interframe_gap = zero_seconds;
  backoff_params = default P.random;
  queue = queue;
  current_pkt = none;
  channel = none;
  device_id = device_id;
  bps = none;
  error_model = none;
  has_promisc_callback = false;
  has_rx_callback = false;
  events = [];
  log = [];
}
