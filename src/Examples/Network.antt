-- ===== src/Examples/Network.antt =====
-- Two peers that have registered, and searches around their ring.
use assignments_computer_net.Base.{
  ◌++◌, ◌%◌, ◌<◌, length, none, ℕ, ◌≡◌, refl, false, some, List, [], ◌∷◌, arith, suc, map, ap, ◌∙◌,
  ◌≤◌,
}
use assignments_computer_net.Peer.Text.{Bytes, colon}
use assignments_computer_net.Peer.Node.{absorb, mix, oat_hash, Node, blank}
use assignments_computer_net.Peer.Map.{compare_bytes}
use assignments_computer_net.Peer.Ring.{sort_nodes, place}
use assignments_computer_net.Peer.Publish.{last_owner}
use assignments_computer_net.Peer.Bootstrap.{bootstrap}
use assignments_computer_net.Peer.Decimal.{print_int, digits}
use assignments_computer_net.Peer.Search.{codes, request, owner_of, contains, starts_with}
use assignments_computer_net.Peer.Registration.{registration, tokens}
use assignments_computer_net.Peer.Program.{init_main}
use assignments_computer_net.Peer.Program.Ready.{Member, IsProper, member_node, start_node_lem}
use assignments_computer_net.Peer.Program.Start.{message_of, Registers, nobody, also}
use assignments_computer_net.Peer.Program.Whole.{Ends, init_main-Ends, init_main-answers}
use assignments_computer_net.Peer.Network.{IsRing, Hops}
use assignments_computer_net.Peer.Network.Registered.{Registered, AllRegistered}
use assignments_computer_net.Peer.Network.Travel.{Asks, to_peer, answer_of}
use assignments_computer_net.Peer.Network.Directory.{bootstrap-circulates}

abbrev pub here : Bytes
here = codes "127.0.0.1"

abbrev pub tune : Bytes
tune = codes "a.mp3"

abbrev clip : Bytes
clip = codes "b.avi"

abbrev peer : ℕ → Bytes → Bytes → List Bytes → Node
peer id port address files = record (blank id) {
  ip = here;
  port = port;
  ip_port = address;
  my_file = files;
}

abbrev upper : Node
upper = peer 20 (codes "8082") (codes "127.0.0.1:8082") (tune ∷ [])

abbrev lower : Node
lower = peer 10 (codes "8081") (codes "127.0.0.1:8081") []

abbrev pair : List Node
pair = upper ∷ lower ∷ []

upper-Registered : Registered upper
unfolding print_int digits
upper-Registered = record {
  at = here;
  number = 8082;
  no_colon = ground arith;
  is_int = omega arith;
  same_ip = refl;
  same_port = refl;
  same_address = refl;
  new = refl;
}

lower-Registered : Registered lower
unfolding print_int digits
lower-Registered = record {
  at = here;
  number = 8081;
  no_colon = ground arith;
  is_int = omega arith;
  same_ip = refl;
  same_port = refl;
  same_address = refl;
  new = refl;
}

abbrev pair_registered : AllRegistered pair
pair_registered = (upper-Registered, (lower-Registered, tt))

tune_is_a_request : contains owner_of (request tune (codes "127.0.0.1:8081")) ≡ false
unfolding contains starts_with
tune_is_a_request = refl

clip_is_a_request : contains owner_of (request clip (codes "127.0.0.1:8081")) ≡ false
unfolding contains starts_with
clip_is_a_request = refl

tune_asked : Asks tune here 8081
unfolding print_int digits
tune_asked = record {
  one_word = ground arith;
  no_space = ground arith;
  no_colon = ground arith;
  small = omega arith;
  no_answer = tune_is_a_request;
  no_zero = ground arith;
  fits = omega arith;
}

clip_asked : Asks clip here 8081
unfolding print_int digits
clip_asked = record {
  one_word = ground arith;
  no_space = ground arith;
  no_colon = ground arith;
  small = omega arith;
  no_answer = clip_is_a_request;
  no_zero = ground arith;
  fits = omega arith;
}

clip_owner : last_owner clip (sort_nodes pair) none ≡ none
unfolding compare_bytes sort_nodes place
clip_owner = refl

bootstrap-circulates_example :
    (ring : List Node) × (bootstrap pair ≡ some ring)
    × (R : IsRing ring) × Hops ring 7
        (to_peer ring R clip here 8081 clip_asked 1)
        (to_peer ring R clip here 8081 clip_asked (8 % length ring))
bootstrap-circulates_example =
    bootstrap-circulates pair pair_registered clip here 8081 1 7 clip_asked (omega arith) clip_owner

abbrev pub first_member : Member
first_member = record { at = here; number = 8082; files = tune ∷ [] }

abbrev pub second_member : Member
second_member = record { at = here; number = 8081; files = [] }

abbrev pub members : List Member
members = first_member ∷ second_member ∷ []

abbrev memory : List Node
memory = blank 77 ∷ blank 0 ∷ []

pub first_member-IsProper : IsProper first_member
first_member-IsProper = record {
  word = (ground arith, ground arith);
  no_colon = ground arith;
  is_int = omega arith;
  words = ((ground arith, ground arith), tt);
  few = omega arith;
}

pub second_member-IsProper : IsProper second_member
second_member-IsProper = record {
  word = (ground arith, ground arith);
  no_colon = ground arith;
  is_int = omega arith;
  words = tt;
  few = omega arith;
}

first_message-fits : length (message_of first_member) ≤ 1000
unfolding registration tokens print_int digits
first_message-fits = omega arith

second_message-fits : length (message_of second_member) ≤ 1000
unfolding registration tokens print_int digits
second_message-fits = omega arith

abbrev members_register : Registers memory members
members_register =
    also 77 first_member first_member-IsProper first_message-fits
      (also 0 second_member second_member-IsProper second_message-fits nobody)

abbrev pub own : Member → Node
own m = record (blank (oat_hash (m.at ++ colon ∷ print_int m.number))) {
  ip = m.at;
  port = print_int m.number;
  ip_port = m.at ++ colon ∷ print_int m.number;
  my_file = m.files;
}

pub own_nodes : map member_node members ≡ own first_member ∷ own second_member ∷ []
own_nodes =
    ap (λ d. d ∷ member_node second_member ∷ []) (start_node_lem first_member first_member-IsProper)
    ∙ ap (λ d. own first_member ∷ d ∷ []) (start_node_lem second_member second_member-IsProper)

pub own_owner :
    last_owner tune (sort_nodes (own first_member ∷ own second_member ∷ [])) none
    ≡ some (own first_member).ip_port
unfolding compare_bytes sort_nodes place oat_hash absorb mix print_int digits
own_owner = refl

init_main-answers_example :
    (ring : List Node) × (bootstrap (map member_node members) ≡ some ring)
    × Ends ring (init_main memory (map message_of members))
    × (R : IsRing ring) × (k : ℕ) × (k < 2)
    × Hops ring
        (suc k)
        (to_peer ring R tune here 8081 tune_asked 1)
        (answer_of ring R tune here 8081 tune_asked (own first_member).ip_port)
init_main-answers_example =
    init_main-answers memory members tune here (own first_member).ip_port 8081 1 tune_asked
      members_register (omega arith)
      (ap (λ l. last_owner tune (sort_nodes l) none) own_nodes ∙ own_owner)

init_main-Ends_example :
    (ring : List Node) × (bootstrap (map member_node members) ≡ some ring)
    × Ends ring (init_main memory (map message_of members))
init_main-Ends_example = init_main-Ends memory members members_register (omega arith)
