-- ===== src/Examples/Sockets.antt =====
-- A small network: a process has one socket, and the text that comes next is fixed until another one
-- comes in.
use mathlib.Core.Option.{some-injective}
use assignments_computer_net.Base.{
  ℕ, ◌%◌, ◌^◌, ◌≡◌, refl, sym, ap, ◌∙◌, true, false, Option, none, some, List, [], ◌∷◌, ◌++◌, take,
  arith, ◌==◌, if◌then◌else◌,
}
use assignments_computer_net.Peer.Text.{Bytes, colon}
use assignments_computer_net.Peer.Search.{
  Datagram, codes, request, owner_of, contains, starts_with, serve, serve-request, sends,
}
use assignments_computer_net.Peer.Search.Route.{route-unknown, send_to-print_int}
use assignments_computer_net.Peer.Map.{find}
use assignments_computer_net.Peer.Node.{Node, blank}
use assignments_computer_net.Peer.Decimal.{print_int, atoi-print_int}
use assignments_computer_net.Peer.Network.{Hop, hop}
use assignments_computer_net.Peer.Sockets.Round.{Makes, udp_round-Hop}
use assignments_computer_net.Peer.Transport.{transport, transport_whole}
use assignments_computer_net.Transfer.System.{Fd, finished, c_string}
use assignments_computer_net.Peer.Sockets.{Sockets, recvinfo, IsUdp}
use assignments_computer_net.Peer.Sockets.Carries.{GetsPort}
use assignments_computer_net.Peer.Sockets.Deaf.{arrivals, recvinfo-arrivals}

record Post : Type 0 where
  out : List Datagram
  holder : Option (ℕ × ℕ)
  coming : Bytes

abbrev bound_to : Fd → ℕ → Option (ℕ × ℕ)
bound_to none port = none
bound_to (some fd) port = some (fd, port)

abbrev on_port : ℕ → Option (ℕ × ℕ) → Fd
on_port port none = none
on_port port (some (fd, p)) = if p == port then some fd else none

abbrev sent_from : Fd → Datagram → Post → Post
sent_from none d s = s
sent_from (some fd) d s = record s { out = s.out ++ d ∷ [] }

abbrev come_to : Fd → Bytes → Post → Post
come_to none text s = s
come_to (some fd) text s = record s { coming = text }

abbrev net : Sockets
net = record {
  State = Post;
  socket = λ s. (some 3, s);
  bind = λ fd port s. (true, record s { holder = bound_to fd port });
  sendto = sent_from;
  recvfrom = λ fd n s. (some (take n s.coming), s);
  close = λ fd s. record s { holder = none };
  arrive = λ port text s. come_to (on_port port s.holder) text s;
}

abbrev udp : IsUdp net
udp = record {
  sent = λ s. s.out;
  next = λ port s. some s.coming;
  on = λ port s. on_port port s.holder;
  socket_sends = λ s. refl;
  sendto_sends = λ fd d s. refl;
  bind_sends = λ fd port s. refl;
  recvfrom_sends = λ fd n s. refl;
  close_sends = λ fd s. refl;
  bind_on = λ fd port s e. ground arith;
  recvfrom_next = λ fd port n s text on e. ap (λ t. some (take n t)) (some-injective _ _ e);
  recvfrom_on = λ fd port n s. refl;
  close_on = λ fd port s e. refl;
  arrive_nowhere = λ port text s e. ap (λ fd. come_to fd text s) e;
}

abbrev receiver : Post
receiver = record { out = []; holder = none; coming = codes "hi" }

gets_port : GetsPort net udp 9090 receiver
gets_port = record { fd = 3; opens = refl; bound = refl }

received : recvinfo net 9090 receiver ≡ finished (codes "hi", receiver)
unfolding recvinfo c_string
received = refl

recvinfo-arrivals_example : arrivals net udp (9090 % 2 ^ 16) (codes "lost" ∷ []) receiver ≡ receiver
recvinfo-arrivals_example =
    recvinfo-arrivals net udp 9090 receiver receiver (codes "hi") (codes "lost" ∷ []) gets_port
      received

-- A peer that passes a request on to the peer at port 8082.
abbrev here : Bytes
here = codes "127.0.0.1"

abbrev passing : Node
passing = record (blank 1) {
  ip = here;
  port = print_int 8081;
  scr = here ++ colon ∷ print_int 8082;
}

abbrev home : Bytes
home = codes "127.0.0.1:9000"

abbrev asked : Bytes
asked = request (codes "a.mp3") home

abbrev towards : ℕ → Datagram
towards port = record { ip = here; port = port; payload = asked }

asked_is_a_request : contains owner_of asked ≡ false
unfolding contains starts_with
asked_is_a_request = refl

nothing_known : find (codes "a.mp3") passing.my_file_info ≡ none
unfolding find
nothing_known = refl

passes : serve asked passing ≡ sends (some (towards 8082))
passes =
    serve-request (codes "a.mp3") home passing (ground arith) (ground arith) asked_is_a_request
    ∙ ap sends (
        route-unknown (codes "a.mp3") home asked passing nothing_known
        ∙ send_to-print_int here asked 8082 (ground arith) (omega arith))

asked_line : c_string 2048 asked ≡ some asked
unfolding c_string
asked_line = refl

asked_whole : transport asked ≡ some asked
asked_whole = transport_whole asked (ground arith) (omega arith)

passes_on : Hop (passing ∷ []) (towards 8081) (towards 8082)
passes_on = hop 0 passing asked refl refl (atoi-print_int 8081 (omega arith)) asked_whole passes

abbrev waiting : Post
waiting = record { out = []; holder = none; coming = asked }

always_opens : (s : Post) → (fd : ℕ) × ((net.socket s).0 ≡ some fd)
always_opens s = (3, refl)

gets_peer_port : GetsPort net udp 8081 waiting
gets_peer_port = record { fd = 3; opens = refl; bound = refl }

asked_comes :
    (line : Bytes) → c_string 2048 (towards 8081).payload ≡ some line → some asked ≡ some line
asked_comes line fits = sym asked_line ∙ fits

udp_round-Hop_example : Makes net udp (passing ∷ []) (towards 8081) (towards 8082) waiting
udp_round-Hop_example =
    udp_round-Hop net udp (passing ∷ []) (towards 8081) (towards 8082) asked waiting always_opens
      gets_peer_port asked_comes asked_whole passes_on
