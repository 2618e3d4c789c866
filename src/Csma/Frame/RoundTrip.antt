-- ===== src/Csma/Frame/RoundTrip.antt =====
-- What `Receive` makes of a frame that `AddHeader` built.
use assignments_computer_net.Base.{
  Bool, ◌||◌, if◌then◌else◌, List, [], ◌∷◌, ◌++◌, ℕ, ◌+◌, ◌-◌, ◌^◌, ◌≤◌, ◌<◌, ◌≡◌, sym, ◌∙◌, true,
  false, none, some, arith, ◌>>=◌, >>=-some,
}
use assignments_computer_net.Csma.Platform.{Platform, EthernetHeader, IsPacketFormat}
use assignments_computer_net.Csma.Device.{
  Device, llc, emit, phy_rx_end, Trace, rx_callback, mac_rx, sniffer, promisc_sniffer,
  mac_promisc_rx, promisc_rx_callback,
}
use assignments_computer_net.Csma.Frame.{add_header, encapsulate, pad, add_checked_trailer}
use assignments_computer_net.Csma.Receive.{
  deliver, strip, pass_up, classify, receive, screen, corrupted,
}

module _ {P : Platform} where
  -- Whether a frame to an address is for the device.
  abbrev pub is_for : Device P → P.Mac → Bool
  is_for r destination =
      P.is_broadcast destination || (P.is_group destination || P.same_mac destination r.address)

  -- What the layer above hears of a payload: the call of its callback, after the two traces.
  abbrev pub upward : Device P → P.Packet → P.Packet → ℕ → P.Mac → P.Mac → List (Trace P)
  upward r frame p protocol source destination =
      if is_for r destination
      then rx_callback p protocol source ∷ mac_rx frame ∷ sniffer frame ∷ []
      else []

  -- What a promiscuous listener hears of it.
  abbrev pub sideways : Device P → P.Packet → P.Packet → ℕ → P.Mac → P.Mac → List (Trace P)
  sideways r frame p protocol source destination =
      if r.has_promisc_callback
      then promisc_rx_callback p protocol source destination (classify r destination)
        ∷ mac_promisc_rx frame
        ∷ []
      else []

  -- The device after a frame with that payload: only the log has changed.
  abbrev pub heard : Device P → P.Packet → P.Packet → ℕ → P.Mac → P.Mac → Device P
  heard r frame p protocol source destination = record r {
    log =
        upward r frame p protocol source destination
        ++ (sideways r frame p protocol source destination
            ++ promisc_sniffer frame ∷ phy_rx_end frame ∷ r.log);
  }

  pass_up-heard :
      (r : Device P) (frame p : P.Packet) (protocol : ℕ) (h : EthernetHeader P.Mac)
      → r.has_rx_callback ≡ true
      → pass_up frame p protocol h (classify r h.destination) (emit (phy_rx_end frame) r)
        ≡ some (heard r frame p protocol h.source h.destination)
  unfolding pass_up classify
  pass_up-heard r frame p protocol h set = ground arith

module _ {P : Platform} (L : IsPacketFormat P) where
  -- The trailer is removed and fits.
  deliver-framed :
      (r : Device P) (h : EthernetHeader P.Mac) (p : P.Packet)
      → h.length_type < 2 ^ 16
      → deliver r (add_checked_trailer P (P.add_ethernet h p)) ≡ (
          strip P h p >>= λ stripped.
          pass_up
            (add_checked_trailer P (P.add_ethernet h p))
            stripped.1
            stripped.0
            h
            (classify r h.destination)
            r)
  unfolding deliver add_checked_trailer
  deliver-framed r h p fits =
      simp (L.remove-trailer, L.check-calc (P.add_ethernet h p), L.remove-ethernet h p fits)

  strip_padded :
      (h : EthernetHeader P.Mac) (t : ℕ) (p : P.Packet)
      → t < 2 ^ 16
      → h.length_type ≡ P.get_size (P.add_llc t p)
      → h.length_type ≤ 1500
      → strip P h (pad P (P.add_llc t p)) ≡ some (t, p)
  unfolding strip pad
  strip_padded h t p fits len short = ground (
    arith,
    L.size_zeros (46 - P.get_size (P.add_llc t p)) (P.add_llc t p),
    L.remove-zeros (46 - P.get_size (P.add_llc t p)) (P.add_llc t p),
    L.remove-llc t p fits,
  )

  -- A device that receives and has no error model delivers what arrives.
  receive-deliver :
      (r : Device P) (frame : P.Packet)
      → r.receive_enable ≡ true
      → r.error_model ≡ none
      → receive r frame false ≡ deliver (emit (phy_rx_end frame) r) frame
  unfolding receive screen corrupted
  receive-deliver r frame on clean = ground arith

  -- In LLC mode, with a protocol number of 16 bits, a payload that leaves room for the LLC header
  -- in 1500 bytes, and an MTU that holds it and the minimum of 46 bytes: `AddHeader` succeeds. Another
  -- device that receives, has no error model and has the callback of the layer above gets the frame:
  -- if it is a broadcast, to a group or to the device's address, that callback is called with exactly
  -- the payload, the protocol number and the source, after the traces of the whole frame, and otherwise
  -- it is not called; a promiscuous callback, where there is one, is called in either case. Nothing but
  -- the log of these calls changes.
  pub receive-add_header_llc :
      (s r : Device P) (p : P.Packet) (source destination : P.Mac) (protocol : ℕ)
      → s.encap_mode ≡ llc
      → protocol < 2 ^ 16
      → P.get_size p + 8 ≤ 1500
      → P.get_size p + 8 ≤ s.mtu
      → 46 ≤ s.mtu
      → r.receive_enable ≡ true
      → r.error_model ≡ none
      → r.has_rx_callback ≡ true
      → (frame : P.Packet) × (add_header s p source destination protocol ≡ some frame)
        × (receive r frame false ≡ some (heard r frame p protocol source destination))
  unfolding add_header encapsulate classify
  receive-add_header_llc s r p source destination protocol mode fits short room least on clean set =
      (
        frame,
        rw mode (>>=-some _ _ _ (encapsulated s.mtu room least)),
        receive-deliver r frame on clean
            ∙ (deliver-framed (emit (phy_rx_end frame) r) h (pad P (P.add_llc protocol p))
                  (omega arith)
                ∙ (>>=-some _ _ _
                      (strip_padded h protocol p fits (sym (L.size_llc protocol p)) (omega arith))
                    ∙ pass_up-heard r frame p protocol h set)),
      )
    where
      h : EthernetHeader P.Mac
      h = record { source = source; destination = destination; length_type = P.get_size p + 8 }

      frame : P.Packet
      frame = add_checked_trailer P (P.add_ethernet h (pad P (P.add_llc protocol p)))

      encapsulated :
          (mtu : ℕ)
          → P.get_size p + 8 ≤ mtu
          → 46 ≤ mtu
          → encapsulate P llc mtu protocol p ≡ some (P.get_size p + 8, pad P (P.add_llc protocol p))
      encapsulated mtu room least =
          unfold pad in
          ground (
            arith,
            L.size_llc protocol p,
            L.size_zeros (46 - P.get_size (P.add_llc protocol p)) (P.add_llc protocol p),
          )
