-- ===== src/Csma/Platform.antt =====
-- What csma-net-device.cc uses of ns-3 and does not implement: packets with their headers and
-- trailers, addresses, the transmit queue, the channel and the error model. `Platform` holds the
-- operations; the laws that ns-3 documents for them stand in the records below it.
use assignments_computer_net.Base.{
  ℕ, ◌+◌, ◌^◌, ◌<◌, ◌≡◌, Bool, true, Option, some, List, [], ◌∷◌, ◌++◌, length, if◌then◌else◌, ◌↔◌,
}
use assignments_computer_net.Backoff.{Random}

-- `WireState` of the channel.
pub data Wire : Type 0 where
  idle transmitting propagating : Wire

pub record EthernetHeader (Mac : Type 0) : Type 0 where
  pub source : Mac
  pub destination : Mac
  pub length_type : ℕ

pub record Platform : Type 1 where
  pub random : Random
  -- Packets. A method that changes its packet returns the new one.
  pub Packet : Type 0
  pub Mac : Type 0
  pub get_size : Packet → ℕ
  pub add_zeros_at_end : ℕ → Packet → Packet
  pub remove_at_end : ℕ → Packet → Packet
  pub add_llc : ℕ → Packet → Packet
  pub remove_llc : Packet → ℕ × Packet
  pub add_ethernet : EthernetHeader Mac → Packet → Packet
  pub remove_ethernet : Packet → EthernetHeader Mac × Packet
  -- The trailer with the frame check sequence, and the global switch `Node::ChecksumEnabled`.
  pub Trailer : Type 0
  pub new_trailer : Trailer
  pub enable_fcs : Trailer → Trailer
  pub calc_fcs : Packet → Trailer → Trailer
  pub check_fcs : Packet → Trailer → Bool
  pub add_trailer : Trailer → Packet → Packet
  pub remove_trailer : Packet → Trailer × Packet
  pub checksum_enabled : Bool
  -- Addresses: `Address` holds one of any kind, `Mac` is a `Mac48Address`.
  pub Address : Type 0
  pub convert_from : Address → Mac
  pub to_address : Mac → Address
  pub is_broadcast : Mac → Bool
  pub is_group : Mac → Bool
  pub same_mac : Mac → Mac → Bool
  -- The transmit queue.
  pub Queue : Type 0
  pub enqueue : Packet → Queue → Bool × Queue
  pub dequeue : Queue → Option Packet × Queue
  pub is_empty : Queue → Bool
  pub get_n_packets : Queue → ℕ
  -- The channel, its data rate, and the error model.
  pub Channel : Type 0
  pub Rate : Type 0
  pub get_state : Channel → Wire
  pub channel_start : Channel → Packet → ℕ → Bool × Channel
  pub channel_end : Channel → Channel
  pub channel_attach : Channel → ℕ × Channel
  pub get_data_rate : Channel → Rate
  pub calculate_tx_time : Rate → ℕ → random.Time
  pub ErrorModel : Type 0
  pub is_corrupt : ErrorModel → Packet → Bool × ErrorModel

-- A queue is first in, first out; one that refuses a packet is left as it is.
pub record IsFifo (P : Platform) : Type 0 where
  pub to_list : P.Queue → List P.Packet
  pub is_empty_iff : (q : P.Queue) → (P.is_empty q ≡ true) ↔ (to_list q ≡ [])
  pub get_n_packets_lem : (q : P.Queue) → P.get_n_packets q ≡ length (to_list q)
  pub enqueue_lem :
      (p : P.Packet) (q : P.Queue)
      → to_list (P.enqueue p q).1 ≡ (if (P.enqueue p q).0 then to_list q ++ p ∷ [] else to_list q)
  pub dequeue_lem :
      (q : P.Queue) (p : P.Packet) (ps : List P.Packet)
      → to_list q ≡ p ∷ ps
      → ((P.dequeue q).0 ≡ some p) × (to_list (P.dequeue q).1 ≡ ps)

-- A channel that accepts a packet is transmitting.
pub record IsChannel (P : Platform) : Type 0 where
  pub accepted :
      (c : P.Channel) (p : P.Packet) (id : ℕ)
      → (P.channel_start c p id).0 ≡ true
      → P.get_state (P.channel_start c p id).1 ≡ transmitting

-- An idle channel accepts a packet of a device that is attached and active.
abbrev pub IsWilling : Platform → Type 0
IsWilling P =
    (c : P.Channel) (p : P.Packet) (id : ℕ)
    → P.get_state c ≡ idle
    → (P.channel_start c p id).0 ≡ true

abbrev pub fcs_if : (P : Platform) → P.Trailer → P.Trailer
fcs_if P t = if P.checksum_enabled then P.enable_fcs t else t

-- Removing a header, a trailer or padding gives back what it was added to; fields of 16 bits are
-- kept; the LLC/SNAP header takes 8 bytes; a check sequence that was computed over a packet fits
-- that packet after the trailer went over the wire.
pub record IsPacketFormat (P : Platform) : Type 0 where
  pub size_zeros : (n : ℕ) (p : P.Packet) → P.get_size (P.add_zeros_at_end n p) ≡ P.get_size p + n
  pub size_llc : (t : ℕ) (p : P.Packet) → P.get_size (P.add_llc t p) ≡ P.get_size p + 8
  pub remove-zeros : (n : ℕ) (p : P.Packet) → P.remove_at_end n (P.add_zeros_at_end n p) ≡ p
  pub remove-llc : (t : ℕ) (p : P.Packet) → t < 2 ^ 16 → P.remove_llc (P.add_llc t p) ≡ (t, p)
  pub remove-ethernet :
      (h : EthernetHeader P.Mac) (p : P.Packet)
      → h.length_type < 2 ^ 16
      → P.remove_ethernet (P.add_ethernet h p) ≡ (h, p)
  pub remove-trailer : (t : P.Trailer) (p : P.Packet) → (P.remove_trailer (P.add_trailer t p)).1 ≡ p
  pub check-calc :
      (p : P.Packet)
      → P.check_fcs p
          (fcs_if P (P.remove_trailer (P.add_trailer (P.calc_fcs p (fcs_if P P.new_trailer)) p)).0)
        ≡ true
