-- ===== src/Peer/Program/Whole.antt =====
-- The whole system: from the registrations to the answers, and to the searches.
use mathlib.Core.List.{Memᴰ}
use mathlib.Core.List.Memᴰ.{head, tail}
use assignments_computer_net.Transfer.System.{c_string_all, c_string_over}
use assignments_computer_net.Base.{
  Option, ◌>>=◌, >>=-none, ℕ, suc, ◌<◌, ◌≤◌, ◌≡◌, refl, sym, ap, subst, ◌∙◌, inl, inr, ◌⊎◌, none,
  some, List, [], ◌∷◌, arith, length, map, >>=-some,
}
use assignments_computer_net.Peer.Text.{Bytes, All}
use assignments_computer_net.Peer.Decimal.{print_int, atoi, atoi-print_int}
use assignments_computer_net.Peer.Node.{Node}
use assignments_computer_net.Peer.Ring.{sort_nodes}
use assignments_computer_net.Peer.Ring.Keeps.{sort_nodes-All}
use assignments_computer_net.Peer.Ring.Linked.{link-Rounds}
use assignments_computer_net.Peer.Publish.{last_owner}
use assignments_computer_net.Peer.Bootstrap.{bootstrap, Fresh, bootstrap-known}
use assignments_computer_net.Peer.Network.Registered.{Registered, AllRegistered}
use assignments_computer_net.Peer.Reply.{reply}
use assignments_computer_net.Peer.Search.{Datagram}
use assignments_computer_net.Peer.Program.{send_replies, init_main, start_node, join}
use assignments_computer_net.Peer.Program.Ready.{
  Member, IsProper, member_node, start_node_lem, Ready, member_node-Ready, link-Ready,
  publish-Ready,
}
use assignments_computer_net.Peer.Program.Start.{
  message_of, Registers, collect-start_node, join-Ready, Ready-Lacks,
}
use assignments_computer_net.Peer.Network.{IsRing, Hops}
use assignments_computer_net.Peer.Network.Travel.{Asks, to_peer, answer_of}
use assignments_computer_net.Peer.Network.Directory.{bootstrap-answers}

-- Each node of the ring is answered at its address, and the peer that started there with its files ends
-- with the very node of the ring, its neighbours and its part of the file map included; or its answer
-- has more than 1000 bytes.
pub data Answered : List Node → List Datagram → Type 0 where
  nobody : Answered [] []
  also :
      {ring : List Node} {sends : List Datagram} (d : Node) (g : Datagram)
      → g.ip ≡ d.ip
      → d.port ≡ print_int g.port
      → (join (start_node d.ip d.port d.my_file) g.payload ≡ some d) ⊎ (1000 < length g.payload)
      → Answered ring sends
      → Answered (d ∷ ring) (g ∷ sends)

fits_or_not : (n : ℕ) → (n ≤ 1000) ⊎ (1000 < n)
fits_or_not n = ground arith

-- How the bootstrap program ends with a ring: every answer fits the buffer of `__sendreq`, and each node
-- is answered, or the answer of some node overflows it.
pub data Ends (ring : List Node) : Option (List Datagram) → Type 0 where
  ends :
      (sends : List Datagram)
      → All (λ d. length (reply d) < 2048) ring
      → Answered ring sends
      → Ends ring (some sends)
  overflows : (d : Node) → Memᴰ d ring → 2048 ≤ length (reply d) → Ends ring none

answer_to : Node → ℕ → Datagram
answer_to d port = record { ip = d.ip; port = port; payload = reply d }

-- One more node, whose answer fits.
Ends-answer_to :
    (d : Node) (ring : List Node) (rest : Option (List Datagram)) (r : Ready d)
    → length (reply d) < 2048
    → Ends ring rest
    → Ends (d ∷ ring) (rest >>= λ sends. some (answer_to d r.member.number ∷ sends))
unfolding answer_to
Ends-answer_to d ring _ r short (ends sends fit answered) =
    ends (answer_to d r.member.number ∷ sends) (short, fit)
      (also d (answer_to d r.member.number) refl r.same_port
        (elim (fits_or_not (length (reply d))) [
          | inl fits ↦ inl (join-Ready d r fits)
          | inr long ↦ inr long
        ])
        answered)
Ends-answer_to d ring _ r short (overflows e among long) = overflows e (tail among) long

buffer_or_not : (n : ℕ) → (n < 2048) ⊎ (2048 ≤ n)
buffer_or_not n = ground arith

send_replies-Ends : (ring : List Node) → All Ready ring → Ends ring (send_replies ring)
unfolding send_replies answer_to
send_replies-Ends [] rs = ends [] tt nobody
send_replies-Ends (d ∷ ring) rs =
    let r = rs.0 in
    let no_zero = Ready-Lacks d r in
    let port : atoi d.port ≡ some r.member.number =
      ap atoi r.same_port ∙ atoi-print_int r.member.number r.proper.is_int in
    elim (buffer_or_not (length (reply d))) [
      | inl short ↦
          let line = c_string_all 2048 (reply d) no_zero short in
          subst (Ends (d ∷ ring))
            (sym (>>=-some _ _ r.member.number port ∙ >>=-some _ _ (reply d) line))
            (Ends-answer_to d ring (send_replies ring) r short (send_replies-Ends ring rs.1))
      | inr long ↦
          let none' = c_string_over 2048 (reply d) no_zero long in
          subst (Ends (d ∷ ring)) (sym (>>=-some _ _ r.member.number port ∙ >>=-none _ _ none'))
            (overflows d (head refl) long)
    ]

members-Ready :
    (all_info : List Node) (ms : List Member)
    → Registers all_info ms
    → All Ready (map member_node ms)
members-Ready _ _ Registers.nobody = tt
members-Ready _ _ (Registers.also {all_info} {ms} garbage m p fits rest) =
    (member_node-Ready m p, members-Ready all_info ms rest)

members-Fresh :
    (all_info : List Node) (ms : List Member) → Registers all_info ms → Fresh (map member_node ms)
members-Fresh _ _ Registers.nobody = tt
members-Fresh _ _ (Registers.also {all_info} {ms} garbage m p fits rest) =
    (ap (λ d. d.my_file_info) (start_node_lem m p), members-Fresh all_info ms rest)

member_node-Registered : (m : Member) → IsProper m → Registered (member_node m)
member_node-Registered m p = subst Registered (sym (start_node_lem m p)) (record {
  at = m.at;
  number = m.number;
  no_colon = p.no_colon;
  is_int = p.is_int;
  same_ip = refl;
  same_port = refl;
  same_address = refl;
  new = refl;
})

pub members-Registered :
    (all_info : List Node) (ms : List Member)
    → Registers all_info ms
    → AllRegistered (map member_node ms)
members-Registered _ _ Registers.nobody = tt
members-Registered _ _ (Registers.also {all_info} {ms} garbage m p fits rest) =
    (member_node-Registered m p, members-Registered all_info ms rest)

length-members : (ms : List Member) → length (map member_node ms) ≡ length ms
length-members [] = refl
length-members (m ∷ ms) = ap suc (length-members ms)

bootstrap-Ready :
    (nodes ring : List Node) → All Ready nodes → bootstrap nodes ≡ some ring → All Ready ring
unfolding bootstrap
bootstrap-Ready nodes ring rs made =
    let s = sort_nodes nodes in
    let (linked, links, _) = link-Rounds s in
    publish-Ready linked ring (link-Ready s linked (sort_nodes-All Ready nodes rs) links)
      (sym (>>=-some _ _ linked links) ∙ made)

ring-Ends :
    (all_info : List Node) (ms : List Member) (ring : List Node)
    → Registers all_info ms
    → bootstrap (map member_node ms) ≡ some ring
    → Ends ring (init_main all_info (map message_of ms))
unfolding init_main
ring-Ends all_info ms ring regs made =
    let nodes = map member_node ms in
    subst (Ends ring)
      (sym (>>=-some _ _ nodes (collect-start_node all_info ms regs) ∙ >>=-some _ _ ring made))
      (send_replies-Ends ring (bootstrap-Ready nodes ring (members-Ready all_info ms regs) made))

-- The whole start. The members' addresses and file names have no space and no zero byte, the
-- addresses no colon, ports and numbers of files are below 2 ^ 31, each message has at most 1000
-- bytes, and there is at least one member. Then the bootstrap program makes a ring of the peers' own
-- nodes. If the answer of every node of the ring has at most 2047 bytes, the program ends; each node is
-- answered at its address, and the peer that started with that address and its files ends with the very
-- node of the ring, or its answer has more than 1000 bytes. Otherwise an answer of 2048 bytes or more
-- overflows the buffer of `__sendreq`.
pub init_main-Ends :
    (all_info : List Node) (ms : List Member)
    → Registers all_info ms
    → 0 < length ms
    → (ring : List Node) × (bootstrap (map member_node ms) ≡ some ring)
      × Ends ring (init_main all_info (map message_of ms))
init_main-Ends all_info ms regs some' =
    let nodes = map member_node ms in
    let (ring, made, _, _) =
      bootstrap-known [] nodes (omega (arith, length-members ms, some'))
        (members-Fresh all_info ms regs) in
    (ring, made, ring-Ends all_info ms ring regs made)

-- From the registrations to the answer of a search, with members and messages as in the start, and
-- a request that peers answer or pass on. The bootstrap program makes its ring, and ends as in the start:
-- with an answer to each node, or with an overflow when an answer has 2048 bytes or more. Around peers
-- with the nodes of the ring, a search for a file that some member has, from any of them, is answered to
-- the asker with the last owner in the order of the identifiers, after fewer forwardings than there
-- are members, none of which is lost.
pub init_main-answers :
    (all_info : List Node) (ms : List Member) (file ip owner : Bytes) (port j : ℕ)
    (A : Asks file ip port)
    → Registers all_info ms
    → j < length ms
    → last_owner file (sort_nodes (map member_node ms)) none ≡ some owner
    → (ring : List Node) × (bootstrap (map member_node ms) ≡ some ring)
      × Ends ring (init_main all_info (map message_of ms))
      × (R : IsRing ring) × (k : ℕ) × (k < length ms)
      × Hops ring (suc k) (to_peer ring R file ip port A j) (answer_of ring R file ip port A owner)
init_main-answers all_info ms file ip owner port j A regs below has =
    let size = length-members ms in
    let (ring, made, R, k, less, hops) =
      bootstrap-answers (map member_node ms) (members-Registered all_info ms regs) file ip owner
        port j A (omega (arith, size, below)) has in
    (ring, made, ring-Ends all_info ms ring regs made, R, k, omega (arith, less, size), hops)
