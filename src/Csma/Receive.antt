-- ===== src/Csma/Receive.antt =====
-- `Receive`: a frame from the channel is checked, taken apart, classified and passed up.
use assignments_computer_net.Base.{
  ℕ, ◌-◌, Bool, true, false, not, Option, none, some, ltb, leb, if◌then◌else◌, ◌>>=◌,
}
use assignments_computer_net.Csma.Platform.{Platform, EthernetHeader, fcs_if}
use assignments_computer_net.Csma.Device.{
  PacketType, host, broadcast, multicast, other_host, Device, emit, promisc_sniffer, sniffer,
  phy_rx_end, phy_rx_drop, mac_promisc_rx, mac_rx, promisc_rx_callback, rx_callback,
}
use assignments_computer_net.Csma.Transmit.{check, ◌>>◌}

abbrev pub is_other_host : PacketType → Bool
is_other_host other_host = true
is_other_host _ = false

module _ (P : Platform) where
  -- The protocol number and the payload behind the Ethernet header: up to 1500 the field is a
  -- length and an LLC header follows.
  unfoldable pub strip : EthernetHeader P.Mac → P.Packet → Option (ℕ × P.Packet)
  strip h p =
      if leb h.length_type 1500
      then (do
        check (leb h.length_type (P.get_size p))
        let padlen = P.get_size p - h.length_type
        check (leb padlen 46)
        some (P.remove_llc (if ltb 0 padlen then P.remove_at_end padlen p else p)))
      else some (h.length_type, p)

module _ {P : Platform} where
  unfoldable pub classify : Device P → P.Mac → PacketType
  classify d dest =
      if P.is_broadcast dest
      then broadcast
      else if P.is_group dest
      then multicast
      else if P.same_mac dest d.address
      then host
      else other_host

  -- What the promiscuous side sees: the original frame, and the payload if it has a callback.
  abbrev pub overheard :
      P.Packet → P.Packet → ℕ → EthernetHeader P.Mac → PacketType → Device P → Device P
  overheard original packet protocol h type d =
      let d1 = emit (promisc_sniffer original) d in
      if d.has_promisc_callback
      then emit (promisc_rx_callback packet protocol h.source h.destination type)
          (emit (mac_promisc_rx original) d1)
      else d1

  abbrev pub handed : P.Packet → P.Packet → ℕ → EthernetHeader P.Mac → Device P → Device P
  handed original packet protocol h d =
      emit (rx_callback packet protocol h.source)
        (emit (mac_rx original) (emit (sniffer original) d))

  -- The traces and callbacks at the end, with the original frame and the payload. `m_rxCallback` is called
  -- without a test: a null pointer is `none`.
  unfoldable pub pass_up :
      P.Packet → P.Packet → ℕ → EthernetHeader P.Mac → PacketType → Device P → Option (Device P)
  pass_up original packet protocol h type d =
      let d2 = overheard original packet protocol h type d in
      if is_other_host type
      then some d2
      else if d.has_rx_callback
      then some (handed original packet protocol h d2)
      else none

  -- What follows the tests on the switch and the error model.
  unfoldable pub deliver : Device P → P.Packet → Option (Device P)
  deliver d original =
      let removed = P.remove_trailer original in
      if not (P.check_fcs removed.1 (fcs_if P removed.0))
      then some (emit (phy_rx_drop removed.1) d)
      else do
        let opened = P.remove_ethernet removed.1
        stripped ← strip P opened.0 opened.1
        pass_up original stripped.1 stripped.0 opened.0 (classify d opened.0.destination) d

  -- The receive error model, where there is one: its verdict and its next state.
  unfoldable pub corrupted : Device P → P.Packet → Bool × Device P
  corrupted d p = elim d.error_model [
    | none ↦ (false, d)
    | some em ↦
        let judged = P.is_corrupt em p in (judged.0, record d { error_model = some judged.1 })
  ]

  -- The test by the error model, and what follows it.
  unfoldable pub screen : Device P → P.Packet → Option (Device P)
  screen d packet =
      let judged = corrupted d packet in
      if judged.0 then some (emit (phy_rx_drop packet) judged.1) else deliver judged.1 packet

  -- `own` says that the sender is this device.
  unfoldable pub receive : Device P → P.Packet → Bool → Option (Device P)
  receive d packet own =
      if own
      then some d
      else let seen = emit (phy_rx_end packet) d in
        if not d.receive_enable then some (emit (phy_rx_drop packet) seen) else screen seen packet
