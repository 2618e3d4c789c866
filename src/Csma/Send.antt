-- ===== src/Csma/Send.antt =====
-- `SendFrom` and `Send`: a packet from the layer above is framed, queued, and started if the
-- transmitter is ready.
use assignments_computer_net.Base.{ℕ, Bool, true, false, not, Option, some, if◌then◌else◌, ◌>>=◌}
use assignments_computer_net.Csma.Platform.{Platform}
use assignments_computer_net.Csma.Device.{
  Device, mac_tx, mac_tx_drop, sniffer, promisc_sniffer, emit,
}
use assignments_computer_net.Csma.Frame.{add_header}
use assignments_computer_net.Csma.Transmit.{check, ◌>>◌, is_ready, transmit_start}

module _ {P : Platform} where
  -- The last part of `SendFrom`, after the packet was queued.
  unfoldable pub start_if_ready : Device P → Option (Device P)
  start_if_ready d =
      if is_ready d.tx_state
      then if P.is_empty d.queue then some d else (do
        let taken = P.dequeue d.queue
        pkt ← taken.0
        transmit_start (
            emit (sniffer pkt)
              (emit (promisc_sniffer pkt) (record d { queue = taken.1; current_pkt = some pkt }))))
      else some d

  -- The middle part: the framed packet goes to the queue, or is dropped if the queue refuses.
  unfoldable pub queue_frame : P.Packet → Device P → Option (Device P × Bool)
  queue_frame framed d =
      let queued = P.enqueue framed d.queue in
      let d' = record (emit (mac_tx framed) d) { queue = queued.1 } in
      if queued.0
      then (do d'' ← start_if_ready d'; some (d'', true))
      else some (emit (mac_tx_drop framed) d', false)

  unfoldable pub send_from :
      Device P → P.Packet → P.Address → P.Address → ℕ → Option (Device P × Bool)
  send_from d packet src dest protocol = do
    check d.link_up
    if not d.send_enable then some (emit (mac_tx_drop packet) d, false) else do
      framed ← add_header d packet (P.convert_from src) (P.convert_from dest) protocol
      queue_frame framed d

  unfoldable pub send : Device P → P.Packet → P.Address → ℕ → Option (Device P × Bool)
  send d packet dest protocol = send_from d packet (P.to_address d.address) dest protocol
