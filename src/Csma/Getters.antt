-- ===== src/Csma/Getters.antt =====
-- What a device says of itself, and `DoDispose`.
use assignments_computer_net.Base.{ℕ, Bool, true, false, Option, none}
use assignments_computer_net.Csma.Platform.{Platform}
use assignments_computer_net.Csma.Device.{EncapsulationMode, Device}

module _ {P : Platform} where
  -- `m_node` is not a member here: nothing reads it but `GetNode`.
  unfoldable pub do_dispose : Device P → Device P
  do_dispose d = record d { channel = none }

  abbrev pub get_encapsulation_mode : Device P → EncapsulationMode
  get_encapsulation_mode d = d.encap_mode

  abbrev pub get_mtu : Device P → ℕ
  get_mtu d = d.mtu

  abbrev pub is_send_enabled : Device P → Bool
  is_send_enabled d = d.send_enable

  abbrev pub is_receive_enabled : Device P → Bool
  is_receive_enabled d = d.receive_enable

  abbrev pub get_queue : Device P → P.Queue
  get_queue d = d.queue

  abbrev pub get_if_index : Device P → ℕ
  get_if_index d = d.if_index

  abbrev pub get_channel : Device P → Option P.Channel
  get_channel d = d.channel

  abbrev pub get_address : Device P → P.Address
  get_address d = P.to_address d.address

  abbrev pub is_link_up : Device P → Bool
  is_link_up d = d.link_up

  abbrev pub is_broadcast : Device P → Bool
  is_broadcast d = true

  abbrev pub is_multicast : Device P → Bool
  is_multicast d = true

  abbrev pub is_point_to_point : Device P → Bool
  is_point_to_point d = false

  abbrev pub is_bridge : Device P → Bool
  is_bridge d = false

  abbrev pub needs_arp : Device P → Bool
  needs_arp d = true

  abbrev pub supports_send_from : Device P → Bool
  supports_send_from d = true
