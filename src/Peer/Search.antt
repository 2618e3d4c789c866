-- ===== src/Peer/Search.antt =====
-- `search_func`, the UDP server and the command line of `server.cpp`.
pub mod Route
use Prim.Native.String.{String}
use Prim.Native.Char.{code}
use assignments_computer_net.Base.{
  inl, inr, ◌<◌, ◌^◌, ℕ, ◌≡◌, refl, ap, ◌∙◌, Bool, true, false, Option, none, some, [], ◌∷◌, ◌++◌,
  arith, ◌>>=◌, append_assoc, if-true, if-false, if◌then◌else◌, ◌==◌,
}
use assignments_computer_net.Peer.Text.{
  Bytes, space, colon, Lacks, open_stream, getline, getline-append, getline-whole,
}
use assignments_computer_net.Peer.Decimal.{atoi, print_int, atoi-print_int, print_int-Lacks}
use assignments_computer_net.Peer.Map.{find}
use assignments_computer_net.Peer.Node.{Node}

-- The bytes of an ASCII text.
abbrev pub codes : String → Bytes
codes String.[] = []
codes (String.◌∷◌ c s) = code c ∷ codes s

-- What `__sendreq` is called with.
pub record Datagram : Type 0 where
  pub ip : Bytes
  pub port : ℕ
  pub payload : Bytes

-- A text `ip:port` is cut at its colon, and the message goes there.
pub send_to : Bytes → Bytes → Option Datagram
send_to address msg = do
  let ip = getline colon [] (open_stream address)
  let port = getline colon [] ip.1
  number ← atoi port.0
  some (record { ip = ip.0; port = number; payload = msg })

abbrev pub owner_of : Bytes
owner_of = codes "owner_of"

abbrev pub answer : Bytes → Bytes → Bytes
answer file owner = owner_of ++ space ∷ (file ++ space ∷ (codes "is" ++ space ∷ owner))

-- The answer goes to whom the request names, if the node knows the file; else the request goes on to
-- the successor.
pub route : Bytes → Bytes → Bytes → Node → Option Datagram
unfolding send_to
route file asker req node = elim (find file node.my_file_info) [
  | none ↦ send_to node.scr req
  | some owner ↦ send_to asker (answer file owner)
]

-- The second word is the file, the fourth is the address of the peer that asks.
pub search_func : Bytes → Node → Option Datagram
search_func req node =
    let first = getline space [] (open_stream req) in
    let second = getline space first.0 first.1 in
    let third = getline space [] second.1 in
    let fourth = getline space third.0 third.1 in route second.0 fourth.0 req node

-- `std::string::find` of a text at the front, and anywhere.
unfoldable pub starts_with : Bytes → Bytes → Bool
starts_with [] s = true
starts_with (c ∷ p) [] = false
starts_with (c ∷ p) (d ∷ s) = let more = starts_with p s in if c == d then more else false

unfoldable pub contains : Bytes → Bytes → Bool
unfolding starts_with
contains p [] = starts_with p []
contains p (c ∷ s) = let more = contains p s in if starts_with p (c ∷ s) then true else more

pub data Reaction : Type 0 where
  shows : Bytes → Reaction
  sends : Option Datagram → Reaction
  ignores : Reaction

-- One round of the UDP server.
pub serve : Bytes → Node → Reaction
unfolding contains
serve req node =
    if contains owner_of req
    then shows req
    else if contains (codes "search") req
    then sends (search_func req node)
    else ignores

-- What a line of the command line does.
pub data Command : Type 0 where
  searches : Option Datagram → Command
  downloads : Bytes → Bytes → Option ℕ → Command
  invalid : Command

-- `download FILE from IP:PORT`.
parse_download : Bytes → Command
parse_download req =
    let verb = getline space [] (open_stream req) in
    let file = getline space [] verb.1 in
    let from = getline space verb.0 file.1 in
    let ip = getline colon [] from.1 in
    let port = getline colon from.0 ip.1 in downloads file.0 ip.0 (atoi port.0)

pub command : Bytes → Node → Command
unfolding parse_download starts_with
command req node =
    if starts_with (codes "search") req
    then searches (search_func (req ++ codes " for " ++ node.ip_port) node)
    else if starts_with (codes "download") req
    then parse_download req
    else invalid

-- A request as the command line writes it.
abbrev pub request : Bytes → Bytes → Bytes
request file asker = codes "search" ++ space ∷ (file ++ space ∷ (codes "for" ++ space ∷ asker))

pub search_func-request :
    (file asker : Bytes) (node : Node)
    → Lacks space file
    → Lacks space asker
    → search_func (request file asker) node ≡ route file asker (request file asker) node
unfolding search_func
search_func-request file asker node fs as' = simp (
  getline-append space [] (codes "search") (file ++ space ∷ (codes "for" ++ space ∷ asker))
      (ground arith),
  getline-append space (codes "search") file (codes "for" ++ space ∷ asker) fs,
  getline-append space [] (codes "for") asker (ground arith),
  getline-whole space (codes "for") asker as',
)

-- A line `search FILE` at a node becomes a request that names the node as the asker, and it is
-- routed with that file and that asker, when neither the file name nor the address of the node has
-- a space.
pub command_search :
    (file : Bytes) (node : Node)
    → Lacks space file
    → Lacks space node.ip_port
    → command (codes "search" ++ space ∷ file) node
      ≡ searches (route file node.ip_port (request file node.ip_port) node)
unfolding command
command_search file node fs as' =
    rw (append_assoc (codes "search" ++ space ∷ file) (codes " for ") node.ip_port)
      (ap searches (search_func-request file node.ip_port node fs as'))

starts_with-append : (p b : Bytes) → starts_with p (p ++ b) ≡ true
unfolding starts_with
starts_with-append [] b = refl
starts_with-append (c ∷ p) b = ground (arith, starts_with-append p b)

contains-starts_with : (p s : Bytes) → starts_with p s ≡ true → contains p s ≡ true
unfolding contains
contains-starts_with p [] h = h
contains-starts_with p (c ∷ s) h = if-true _ _ _ h

contains-append : (p a b : Bytes) → contains p (a ++ (p ++ b)) ≡ true
unfolding contains
contains-append p [] b = contains-starts_with p (p ++ b) (starts_with-append p b)
contains-append p (x ∷ a) b = ground (arith, contains-append p a b)

-- A request whose file name has `owner_of` in it is taken for an answer: the peer prints it, and it
-- reaches neither the owner of the file nor the successor.
pub serve-request-owner_of :
    (a b asker : Bytes) (node : Node)
    → serve (request (a ++ (owner_of ++ b)) asker) node
      ≡ shows (request (a ++ (owner_of ++ b)) asker)
unfolding serve
serve-request-owner_of a b asker node =
    let before = codes "search" ++ space ∷ a in
    let after = b ++ space ∷ (codes "for" ++ space ∷ asker) in
    if-true _ _ _ (
      ap (λ l. contains owner_of (codes "search" ++ space ∷ l))
        (append_assoc a (owner_of ++ b) (space ∷ (codes "for" ++ space ∷ asker)))
      ∙ contains-append owner_of before after)

-- A peer routes a request that it receives by its file name and its asker, when neither has a
-- space and `owner_of` does not occur in the request.
pub serve-request :
    (file asker : Bytes) (node : Node)
    → Lacks space file
    → Lacks space asker
    → contains owner_of (request file asker) ≡ false
    → serve (request file asker) node ≡ sends (route file asker (request file asker) node)
unfolding serve
serve-request file asker node fs as' other =
    let named : contains (codes "search") (request file asker) ≡ true =
      contains-starts_with (codes "search") (request file asker) (
        starts_with-append (codes "search")
          (space ∷ (file ++ space ∷ (codes "for" ++ space ∷ asker)))) in
    if-false _ _ _ other
    ∙ (if-true _ _ ignores named ∙ ap sends (search_func-request file asker node fs as'))
