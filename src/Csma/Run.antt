-- ===== src/Csma/Run.antt =====
-- A device among others: the layer above sends, the simulator fires events, frames come in, the
-- switches are set, and other devices change the state of the shared channel.
pub mod Send
pub mod Receive
pub mod Disposed
pub mod Sound
pub mod Stuck
use assignments_computer_net.Base.{ℕ, ◌≡◌, Bool, true, false, some, List, [], ◌∷◌, ◌++◌}
use assignments_computer_net.Csma.Platform.{Platform, transmitting}
use assignments_computer_net.Csma.Device.{Device, Event, busy, set_send_enable, set_receive_enable}
use assignments_computer_net.Csma.Frame.{add_header}
use assignments_computer_net.Csma.Transmit.Events.{run_event}
use assignments_computer_net.Csma.Send.{send_from}
use assignments_computer_net.Csma.Receive.{receive}

module _ {P : Platform} where
  -- `Step d ps d'`: `d` becomes `d'`, and the frames `ps` were accepted for transmission. An event
  -- that fires leaves the list. A device that transmits finds the channel transmitting until it
  -- ends its own transmission.
  pub data Step (d : Device P) : List P.Packet → Device P → Type 0 where
    accepts :
        {d' : Device P} (packet framed : P.Packet) (src dest : P.Address) (protocol : ℕ)
        → add_header d packet (P.convert_from src) (P.convert_from dest) protocol ≡ some framed
        → send_from d packet src dest protocol ≡ some (d', true)
        → Step d (framed ∷ []) d'
    rejects :
        {d' : Device P} (packet : P.Packet) (src dest : P.Address) (protocol : ℕ)
        → send_from d packet src dest protocol ≡ some (d', false)
        → Step d [] d'
    fires :
        {d' : Device P} (before after : List (P.random.Time × Event)) (t : P.random.Time)
        (e : Event)
        → d.events ≡ before ++ (t, e) ∷ after
        → run_event e (record d { events = before ++ after }) ≡ some d'
        → Step d [] d'
    receives :
        {d' : Device P} (packet : P.Packet) (own : Bool)
        → receive d packet own ≡ some d'
        → Step d [] d'
    enables_send : (enable : Bool) → Step d [] (set_send_enable d enable)
    enables_receive : (enable : Bool) → Step d [] (set_receive_enable d enable)
    wire_changes :
        (c : P.Channel)
        → (d.tx_state ≡ busy → P.get_state c ≡ transmitting)
        → Step d [] (record d { channel = some c })

  pub data Run (d : Device P) : List P.Packet → Device P → Type 0 where
    stays : Run d [] d
    goes :
        {ps : List P.Packet} {d' d'' : Device P} (more : List P.Packet)
        → Run d ps d'
        → Step d' more d''
        → Run d (ps ++ more) d''
