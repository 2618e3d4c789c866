-- ===== src/Examples/Download.antt =====
-- A search among two members, and the download that follows it.
use mathlib.Core.List.{Memᴰ}
use assignments_computer_net.Base.{ℕ, ◌≡◌, ◌<◌, refl, sym, ap, ◌∙◌, none, some, [], length, arith}
use assignments_computer_net.Peer.Text.{Bytes}
use assignments_computer_net.Peer.Node.{blank}
use assignments_computer_net.Peer.Publish.{last_owner}
use assignments_computer_net.Peer.Ring.{sort_nodes}
use assignments_computer_net.Peer.Search.{codes, command, downloads}
use assignments_computer_net.Peer.Search.Route.{download_line}
use assignments_computer_net.Peer.Program.Ready.{Member}
use assignments_computer_net.Peer.Program.Download.{Offers, Sharer, command-download_func}
use assignments_computer_net.Transfer.System.{finished, finished-injective}
use assignments_computer_net.Transfer.Serve.{serve_file, serve_file-sends}
use assignments_computer_net.Transfer.Fetch.{download_func, Connects}
use assignments_computer_net.Transfer.Whole.{Serves, Receives}
use assignments_computer_net.Examples.Machine.{
  Machine, machine, machine-IsStream, machine-IsReliable, set,
}
use assignments_computer_net.Examples.Network.{
  tune, first_member, members, own, first_member-IsProper, second_member-IsProper, own_nodes,
  own_owner,
}

abbrev sound : Bytes
sound = codes "la la"

abbrev nothing : ℕ → Bytes
nothing i = []

-- The child of the member that shares the tune, and the peer that asks for it.
abbrev child : Machine
child = record { inbox = set nothing 4 tune; outbox = nothing; disk = sound }

abbrev listener : Machine
listener = record { inbox = set nothing 5 sound; outbox = nothing; disk = [] }

child-Serves : Serves machine machine-IsStream tune 4 child
child-Serves = record {
  fresh = refl;
  asked = refl;
  text = ground arith;
  fd = 7;
  opens = refl;
  reliable = machine-IsReliable 7 4;
}

connects_to : (m : Member) → Connects machine tune m.at m.number 5 listener
connects_to m = record {
  opens = refl;
  good_address = refl;
  connected = refl;
  written = 5;
  asked = refl;
}

abbrev receives_from : (m : Member) → Receives machine tune m.at m.number 5 listener
receives_from m = record {
  connects = connects_to m;
  fd = 8;
  opens = refl;
  reliable = machine-IsReliable 5 8;
}

what_comes : (m : Machine) → serve_file machine 6 (some 4) child ≡ finished m → sound ≡ m.outbox 4
what_comes m e =
    let (m', done, sent) =
      serve_file-sends machine machine-IsStream 6 tune (some 4) 7 child refl (ground arith)
        (omega arith) refl (machine-IsReliable 7 4) (omega arith) in
    sym sent ∙ ap (λ k. k.outbox 4) (finished-injective _ _ (sym done ∙ e))

near_by : (m : Member) → Memᴰ m members → length m.at < 100
near_by m (Memᴰ.head e) = rw e (omega arith)
near_by m (Memᴰ.tail (Memᴰ.head e)) = rw e (omega arith)
near_by m (Memᴰ.tail (Memᴰ.tail none')) = elim none' [ ]

abbrev offers :
    (m : Member)
    → Memᴰ m members
    → Memᴰ tune m.files
    → Offers machine machine-IsStream 6 tune m listener
offers m among has = record {
  owner_system = machine;
  stream = machine-IsStream;
  sock = 4;
  state = child;
  serves = child-Serves;
  client_sock = 5;
  receives = receives_from m;
  near = near_by m among;
  enough = omega arith;
  brings = what_comes;
}

command-download_func_example :
    (s : Sharer members tune (own first_member).ip_port) × (m : Machine) × (command
        (download_line tune (own first_member).ip_port)
        (blank 0)
      ≡ downloads tune s.member.at (some s.member.number))
    × (download_func machine 6 tune s.member.at s.member.number listener ≡ finished m)
    × (m.outbox 8 ≡ sound)
command-download_func_example =
    command-download_func members tune (own first_member).ip_port (blank 0) machine machine-IsStream
      6 listener (first_member-IsProper, (second_member-IsProper, tt)) (ground arith) (omega arith)
      (ap (λ l. last_owner tune (sort_nodes l) none) own_nodes ∙ own_owner) offers
