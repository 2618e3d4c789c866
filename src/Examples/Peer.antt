-- ===== src/Examples/Peer.antt =====
-- Three peers of the file search, their messages and their searches.
use assignments_computer_net.Base.{length, none, ℕ, ◌≡◌, refl, some, List, [], ◌∷◌, arith}
use assignments_computer_net.Peer.Text.{Bytes}
use assignments_computer_net.Peer.Node.{Node, blank, oat_hash}
use assignments_computer_net.Peer.Map.{IsSorted, compare_bytes}
use assignments_computer_net.Peer.Registration.{register, registration, register-registration}
use assignments_computer_net.Peer.Lookup.{
  successor, ids, map_file_to_node, map_file_to_node-successor,
}
use assignments_computer_net.Peer.Reply.{reply, read_reply, read_reply-reply, read_reply_total}
use assignments_computer_net.Peer.Ring.{sort_nodes, field, link}
use assignments_computer_net.Peer.Ring.Linked.{link-ring}
use assignments_computer_net.Peer.Bootstrap.{bootstrap, bootstrap-known}
use assignments_computer_net.Peer.Publish.{known, last_owner}
use assignments_computer_net.Peer.Search.{
  codes, request, route, shows, searches, serve, command, command_search, serve-request-owner_of,
}

abbrev localhost : Bytes
localhost = codes "127.0.0.1"

abbrev one_port : Bytes
one_port = codes "8081"

abbrev home : Bytes
home = codes "127.0.0.1:8081"

abbrev two : Bytes
two = codes "127.0.0.1:8082"

abbrev song : Bytes
song = codes "a.mp3"

abbrev film : Bytes
film = codes "b.avi"

abbrev with_id : ℕ → Node
with_id k = blank k

abbrev ring : List Node
ring = with_id 10 ∷ with_id 20 ∷ with_id 30 ∷ []

map_file_to_node-successor_example : map_file_to_node 11 ring ≡ some (successor 11 (ids ring))
map_file_to_node-successor_example =
    map_file_to_node-successor 11 ring (omega arith, (omega arith, tt))

link-ring_example :
    (linked : List Node) × (link ring ≡ some linked)
    × (length linked ≡ 3)
    × (field (λ d. d.ip_port) 2 linked ≡ field (λ d. d.ip_port) 2 ring)
    × (field (λ d. d.scr) 2 linked ≡ field (λ d. d.ip_port) 0 linked)
    × (field (λ d. d.pdr) 0 linked ≡ field (λ d. d.ip_port) 2 linked)
link-ring_example = link-ring ring 2 (omega arith)

-- Two peers that have a file each.
abbrev sharing : List Node
sharing =
    record (blank 10) { ip_port = home; my_file = song ∷ [] }
    ∷ record (blank 20) { ip_port = two; my_file = song ∷ film ∷ [] }
    ∷ []

bootstrap-known_example :
    (started : List Node) × (bootstrap sharing ≡ some started)
    × (ids started ≡ ids (sort_nodes sharing))
    × (known song (successor (oat_hash song) (ids started)) started
        ≡ some (last_owner song (sort_nodes sharing) none))
bootstrap-known_example = bootstrap-known song sharing (omega arith) (refl, (refl, tt))

last_sharer : last_owner song sharing none ≡ some two
unfolding compare_bytes
last_sharer = refl

register-registration_example :
    register (blank 7) (registration localhost one_port (song ∷ film ∷ []))
    ≡ some (record (blank 7) {
      ip = localhost;
      port = one_port;
      ip_port = home;
      node_id = oat_hash home;
      my_file = song ∷ film ∷ [];
    })
register-registration_example =
    register-registration (blank 7) localhost one_port (song ∷ film ∷ []) (ground arith)
      (ground arith) (ground arith) (ground arith) (ground arith) (omega arith)

-- A peer that knows where the film is.
abbrev second : Node
second = record (blank 20) {
  ip = localhost;
  port = codes "8082";
  ip_port = two;
  scr = home;
  pdr = home;
  my_file_info = (song, home) ∷ (film, two) ∷ [];
}

in_order : IsSorted second.my_file_info
unfolding compare_bytes
in_order = (tt, ((refl, tt), tt))

read_reply-reply_example :
    read_reply (blank 0) (reply second)
    ≡ some (record (blank 0) {
      scr = home;
      pdr = home;
      my_file_info = (song, home) ∷ (film, two) ∷ [];
    })
read_reply-reply_example =
    read_reply-reply (blank 0) second refl (ground arith) (ground arith) (ground arith) in_order

read_reply_total_example : (n' : Node) × (read_reply (blank 0) (codes "lonely") ≡ some n')
read_reply_total_example = read_reply_total (blank 0) (codes "lonely")

command_search_example :
    command (codes "search a.mp3") second ≡ searches (route song two (request song two) second)
command_search_example = command_search song second (ground arith) (ground arith)

serve-request-owner_of_example :
    serve (request (codes "my_owner_of.txt") home) second
    ≡ shows (request (codes "my_owner_of.txt") home)
serve-request-owner_of_example = serve-request-owner_of (codes "my_") (codes ".txt") home second
