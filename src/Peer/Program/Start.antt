-- ===== src/Peer/Program/Start.antt =====
-- The start of the whole system: every peer registers, and gets its place in the ring.
use assignments_computer_net.Base.{
  ℕ, ◌≤◌, ◌≡◌, refl, sym, ap, ◌∙◌, inr, some, List, [], ◌∷◌, ◌++◌, arith, length, map, >>=-some,
}
use assignments_computer_net.Peer.Text.{Bytes, All, Lacks, space, colon}
use assignments_computer_net.Peer.Decimal.{print_int, print_int-Lacks}
use assignments_computer_net.Peer.Map.{FileMap}
use assignments_computer_net.Peer.Map.Order.{IsSorted-IsOrdered}
use assignments_computer_net.Peer.Node.{Node, blank, oat_hash}
use assignments_computer_net.Peer.Registration.{register, register-registration, registration-Lacks}
use assignments_computer_net.Peer.Reply.{
  reply, read_reply, read_reply-reply, LackSpaces, reply-Lacks,
}
use assignments_computer_net.Peer.Transport.{transport, transport_whole}
use assignments_computer_net.Peer.Program.{collect, start_node, first_message, join}
use assignments_computer_net.Peer.Program.Ready.{
  Word, Member, IsProper, member_node, start_node_lem, Word-print_int, Ready,
}

abbrev pub message_of : Member → Bytes
message_of m = (first_message m.at (print_int m.number) m.files).payload

-- The array of the bootstrap program, as the memory had it, one node for each member; each message
-- arrives whole.
pub data Registers : List Node → List Member → Type 0 where
  nobody : Registers [] []
  also :
      {all_info : List Node} {ms : List Member} (garbage : ℕ) (m : Member)
      → IsProper m
      → length (message_of m) ≤ 1000
      → Registers all_info ms
      → Registers (blank garbage ∷ all_info) (m ∷ ms)

Word-spaces : (ts : List Bytes) → All Word ts → All (Lacks space) ts
Word-spaces [] h = tt
Word-spaces (t ∷ ts) h = (h.0.0, Word-spaces ts h.1)

Word-zeros : (ts : List Bytes) → All Word ts → All (Lacks 0) ts
Word-zeros [] h = tt
Word-zeros (t ∷ ts) h = (h.0.1, Word-zeros ts h.1)

message_arrives :
    (m : Member)
    → IsProper m
    → length (message_of m) ≤ 1000
    → transport (message_of m) ≡ some (message_of m)
message_arrives m p fits =
    transport_whole (message_of m)
      (registration-Lacks 0 m.at (print_int m.number) m.files (omega arith) p.word.1
        (Word-print_int m.number).1 (Word-zeros m.files p.words))
      fits

registers :
    (garbage : ℕ) (m : Member)
    → IsProper m
    → register (blank garbage) (message_of m) ≡ some (member_node m)
registers garbage m p =
    register-registration (blank garbage) m.at (print_int m.number) m.files p.word.0 p.no_colon
      (Word-print_int m.number).0 (print_int-Lacks colon m.number (inr (omega arith)))
      (Word-spaces m.files p.words) p.few
    ∙ ap some (sym (start_node_lem m p))

-- The bootstrap program ends its first loop with the very nodes that the peers have of themselves, when
-- each message arrives, whatever the array held.
pub collect-start_node :
    (all_info : List Node) (ms : List Member)
    → Registers all_info ms
    → collect all_info (map message_of ms) ≡ some (map member_node ms)
unfolding collect
collect-start_node _ _ nobody = refl
collect-start_node _ _ (also {all_info} {ms} garbage m p fits rest) =
    >>=-some _ _ (message_of m) (message_arrives m p fits)
    ∙ (>>=-some _ _ (member_node m) (registers garbage m p)
        ∙ >>=-some _ _ (map member_node ms) (collect-start_node all_info ms rest))

Node_ext :
    (d : Node) (ip port address : Bytes) (id : ℕ) (files : List Bytes)
    → d.ip ≡ ip
    → d.port ≡ port
    → d.ip_port ≡ address
    → d.node_id ≡ id
    → d.my_file ≡ files
    → record d { ip = ip; port = port; ip_port = address; node_id = id; my_file = files } ≡ d
Node_ext d ip port address id files a b c e f = λ i. record d {
  ip = (sym a) i;
  port = (sym b) i;
  ip_port = (sym c) i;
  node_id = (sym e) i;
  my_file = (sym f) i;
}

entries-spaces : (m : FileMap) → All (λ e. Word e.0 × Word e.1) m → LackSpaces m
entries-spaces [] h = tt
entries-spaces ((k, v) ∷ m) h = (h.0.0.0, h.0.1.0, entries-spaces m h.1)

entries-zeros :
    (m : FileMap) → All (λ e. Word e.0 × Word e.1) m → All (λ e. Lacks 0 e.0 × Lacks 0 e.1) m
entries-zeros [] h = tt
entries-zeros (e ∷ m) h = ((h.0.0.1, h.0.1.1), entries-zeros m h.1)

own_node : (d : Node) (r : Ready d) → start_node d.ip d.port d.my_file ≡ member_node r.member
own_node d r =
    ap (λ ip. start_node ip d.port d.my_file) r.same_ip
    ∙ (ap (λ port. start_node r.member.at port d.my_file) r.same_port
        ∙ ap (λ files. start_node r.member.at (print_int r.member.number) files) r.same_files)

pub Ready-Lacks : (d : Node) → Ready d → Lacks 0 (reply d)
Ready-Lacks d r =
    reply-Lacks 0 d (omega arith) r.next_word.1 r.previous_word.1
      (entries-zeros d.my_file_info r.entries_words)

-- The peer of a node ends with the node itself, when the answer fits.
pub join-Ready :
    (d : Node)
    → Ready d
    → length (reply d) ≤ 1000
    → join (start_node d.ip d.port d.my_file) (reply d) ≡ some d
unfolding join
join-Ready d r fits =
    let m = r.member in
    let address = m.at ++ colon ∷ print_int m.number in
    let n : Node = record (blank (oat_hash address)) {
      ip = m.at;
      port = print_int m.number;
      ip_port = address;
      my_file = m.files;
    } in
    >>=-some _ _ (reply d) (transport_whole (reply d) (Ready-Lacks d r) fits)
    ∙ (ap (λ k. read_reply k (reply d)) (own_node d r ∙ start_node_lem m r.proper)
        ∙ (read_reply-reply n d refl r.next_word.0 r.previous_word.0
              (entries-spaces d.my_file_info r.entries_words)
              (IsSorted-IsOrdered d.my_file_info r.order)
            ∙ ap some (
                Node_ext d m.at (print_int m.number) address (oat_hash address) m.files r.same_ip
                  r.same_port r.same_address r.same_id r.same_files)))
