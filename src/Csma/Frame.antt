-- ===== src/Csma/Frame.antt =====
-- `AddHeader`: a packet becomes an Ethernet frame of one of two kinds, padded to 46 bytes of
-- payload, with a trailer. `none` stands for a failed NS_ASSERT or NS_FATAL_ERROR.
pub mod RoundTrip
use assignments_computer_net.Base.{
  ℕ, ◌-◌, ◌%◌, ◌^◌, Option, none, some, ltb, leb, if◌then◌else◌, ◌>>=◌,
}
use assignments_computer_net.Csma.Platform.{Platform, EthernetHeader, fcs_if}
use assignments_computer_net.Csma.Device.{Device, EncapsulationMode, illegal, dix, llc}

module _ (P : Platform) where
  -- The payload is padded with zeros to 46 bytes.
  unfoldable pub pad : P.Packet → P.Packet
  pad p = if ltb (P.get_size p) 46 then P.add_zeros_at_end (46 - P.get_size p) p else p

  -- The switch on the mode: the value of the field `lengthType`, a uint16_t, and the payload.
  unfoldable pub encapsulate : EncapsulationMode → ℕ → ℕ → P.Packet → Option (ℕ × P.Packet)
  unfolding pad
  encapsulate dix mtu protocol p = some (protocol, pad p)
  encapsulate llc mtu protocol p =
      let p' = P.add_llc protocol p in
      if leb (P.get_size (pad p')) mtu then some (P.get_size p' % 2 ^ 16, pad p') else none
  encapsulate illegal mtu protocol p = none

  unfoldable pub add_checked_trailer : P.Packet → P.Packet
  add_checked_trailer p = P.add_trailer (P.calc_fcs p (fcs_if P P.new_trailer)) p

unfoldable pub add_header :
    {P : Platform} → Device P → P.Packet → P.Mac → P.Mac → ℕ → Option P.Packet
add_header {P} d p source dest protocol = do
  framed ← encapsulate P d.encap_mode d.mtu protocol p
  let header : EthernetHeader P.Mac = record {
    source = source;
    destination = dest;
    length_type = framed.0;
  }
  some (add_checked_trailer P (P.add_ethernet header framed.1))
