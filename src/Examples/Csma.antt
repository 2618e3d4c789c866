-- ===== src/Examples/Csma.antt =====
-- One device on the toy channel: it sends a packet, and the transmission ends.
use assignments_computer_net.Base.{
  ◌+◌, ◌*◌, ◌^◌, ◌<◌, ◌≤◌, true, length, ◌≡◌, refl, inr, false, Option, none, some, [], ◌∷◌, ◌++◌,
  arith, Bool,
}
use assignments_computer_net.Backoff.{default, reset_backoff_time}
use assignments_computer_net.Csma.Platform.{idle, transmitting}
use assignments_computer_net.Csma.Device.{
  set_receive_callback, rx_callback, mac_rx, sniffer, Device, attach, new_device, complete, retry,
  llc, busy, backoff, set_send_enable,
}
use assignments_computer_net.Csma.Invariant.{
  IsNew, IsSound, Leads, attach-IsNew, IsNew-IsSound, departed, pkt_list,
}
use assignments_computer_net.Csma.Frame.{add_header, encapsulate, add_checked_trailer}
use assignments_computer_net.Csma.Frame.RoundTrip.{upward, heard, receive-add_header_llc}
use assignments_computer_net.Csma.Receive.{receive}
use assignments_computer_net.Csma.Transmit.{
  transmit_start, start_fuel, start_with, start_on_wire, transmit_complete_event,
}
use assignments_computer_net.Csma.Transmit.Events.{run_event}
use assignments_computer_net.Csma.Transmit.Steps.{transmit_start-Leads}
use assignments_computer_net.Csma.Send.{send_from, queue_frame, start_if_ready}
use assignments_computer_net.Csma.Run.{Run, stays, goes, accepts, fires}
use assignments_computer_net.Csma.Run.Sound.{Run-IsSound, Run-fifo, run_event_total}
use assignments_computer_net.Csma.Drain.Whole.{ticks, StaysOn, Delivers, Run-Delivers}
use assignments_computer_net.Csma.Run.Stuck.{without_packet, retry_disabled_sticks}
use assignments_computer_net.Examples.Toy.{
  toy, Fields, toy-IsFifo, toy-IsChannel, toy-IsWilling, toy-IsPacketFormat,
}

abbrev station : Device toy
station = (attach (new_device toy 1500 7 0 0 [] 0) idle).0

station-IsNew : IsNew toy-IsFifo station
unfolding toy-IsFifo
station-IsNew = attach-IsNew toy-IsFifo 1500 7 0 0 [] 0 idle refl

abbrev greeting : Fields
greeting = 1 ∷ 2 ∷ 3 ∷ []

abbrev or_station : Option (Device toy × Bool) → Device toy
or_station none = station
or_station (some (d, _)) = d

abbrev or_empty : Option Fields → Fields
or_empty none = []
or_empty (some p) = p

abbrev or_same : Device toy → Option (Device toy) → Device toy
or_same d none = d
or_same d (some e) = e

abbrev frame : Fields
frame = or_empty (add_header station greeting 7 8 2048)

abbrev sending : Device toy
sending = or_station (send_from station greeting 7 8 2048)

abbrev sent : Device toy
sent = or_same sending (transmit_complete_event (record sending { events = [] }))

-- What a computation with `send_from` unfolds.
send_to_end : Run station (frame ∷ []) sent
unfolding attach new_device default send_from add_header encapsulate add_checked_trailer queue_frame
    start_if_ready transmit_start start_fuel start_with start_on_wire run_event
    transmit_complete_event reset_backoff_time
send_to_end =
    goes [] (goes _ stays (accepts greeting frame 7 8 2048 refl refl))
      (fires [] [] _ complete refl refl)

Run-IsSound_example : IsSound sent
Run-IsSound_example =
    Run-IsSound toy-IsFifo toy-IsChannel send_to_end
      (IsNew-IsSound toy-IsFifo station station-IsNew)

Run-fifo_example :
    departed toy sent.log ++ (pkt_list toy sent.current_pkt ++ toy-IsFifo.to_list sent.queue)
    ≡ frame ∷ []
Run-fifo_example = Run-fifo toy-IsFifo toy-IsChannel station station-IsNew send_to_end

station_on : station.send_enable ≡ true
unfolding attach new_device
station_on = refl

station_fits : station.backoff_params.max_retries < 2 ^ 32
unfolding attach new_device default
station_fits = omega arith

keeps_on : StaysOn send_to_end
unfolding send_to_end attach new_device default send_from add_header encapsulate add_checked_trailer
    queue_frame start_if_ready transmit_start start_fuel start_with start_on_wire run_event
    transmit_complete_event reset_backoff_time
keeps_on = (refl, (refl, tt))

Run-Delivers_example :
    (ticks send_to_end ≤ length (frame ∷ []) * (station.backoff_params.max_retries + 2))
    × Delivers toy-IsFifo toy-IsChannel toy-IsWilling (frame ∷ []) sent
Run-Delivers_example =
    Run-Delivers toy-IsFifo toy-IsChannel toy-IsWilling station sent (frame ∷ []) send_to_end
      station-IsNew keeps_on station_on station_fits

-- The frame left, and nothing is held.
sent_holds_nothing : (departed toy sent.log ≡ frame ∷ []) × (sent.current_pkt ≡ none)
unfolding attach new_device default send_from add_header encapsulate add_checked_trailer queue_frame
    start_if_ready transmit_start start_fuel start_with start_on_wire transmit_complete_event
sent_holds_nothing = (refl, refl)

-- A device that transmits.
abbrev on_air : Device toy
on_air = record station {
  tx_state = busy;
  current_pkt = some greeting;
  channel = some transmitting;
  events = (24, complete) ∷ [];
}

on_air-IsSound : IsSound on_air
unfolding attach new_device default
on_air-IsSound = record {
  attached = record {
    wire = (transmitting, refl);
    rate = (8, refl);
    ceiling_pos = omega arith;
    ceiling_lt = omega arith;
  };
  phase = ((greeting, refl), (24, refl), (transmitting, refl, refl));
}

run_event_total_example :
    (d' : Device toy) × (run_event complete (record on_air { events = [] }) ≡ some d') × IsSound d'
run_event_total_example =
    run_event_total toy-IsFifo toy-IsChannel on_air 24 complete on_air-IsSound refl

-- A device that backs off.
abbrev waiting : Device toy
waiting = record station {
  tx_state = backoff;
  current_pkt = some greeting;
  channel = some transmitting;
  events = (3, retry) ∷ [];
}

retry_disabled_sticks_example :
    (run_event retry (record (set_send_enable waiting false) { events = [] })
      ≡ some (without_packet waiting greeting))
    × (departed toy (without_packet waiting greeting).log
        ≡ departed toy waiting.log ++ greeting ∷ [])
    × ((without_packet waiting greeting).tx_state ≡ backoff)
retry_disabled_sticks_example = retry_disabled_sticks waiting greeting 3 refl refl refl stays

transmit_start-Leads_example :
    Leads toy-IsFifo
      (record waiting { events = [] })
      (transmit_start (record waiting { events = [] }))
unfolding attach new_device default
transmit_start-Leads_example =
    transmit_start-Leads toy-IsFifo toy-IsChannel (record waiting { events = [] }) greeting
      (record {
        wire = (transmitting, refl);
        rate = (8, refl);
        ceiling_pos = omega arith;
        ceiling_lt = omega arith;
      })
      (inr refl) refl refl

abbrev llc_station : Device toy
llc_station = record station { encap_mode = llc }

-- A device with the callback of the layer above, and address 7.
abbrev listener : Device toy
listener = set_receive_callback station

receive-add_header_llc_example :
    (f : Fields) × (add_header llc_station greeting 9 7 2048 ≡ some f)
    × (receive listener f false ≡ some (heard listener f greeting 2048 9 7))
unfolding attach new_device
receive-add_header_llc_example =
    receive-add_header_llc toy-IsPacketFormat llc_station listener greeting 9 7 2048 refl
      (omega arith) (omega arith) (omega arith) (omega arith) refl refl refl

-- The greeting is handed up.
greeting_is_heard :
    upward listener frame greeting 2048 9 7
    ≡ rx_callback greeting 2048 9 ∷ mac_rx frame ∷ sniffer frame ∷ []
unfolding attach new_device
greeting_is_heard = refl
