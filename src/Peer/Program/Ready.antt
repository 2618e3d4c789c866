-- ===== src/Peer/Program/Ready.antt =====
-- What holds of every node of the bootstrap program, from the registration to the answer.
use assignments_computer_net.Base.{
  ℕ, ◌^◌, ◌<◌, ◌≡◌, refl, sym, ap, subst, inl, inr, some, List, ◌∷◌, ◌++◌, arith, length,
}
use assignments_computer_net.Peer.Text.{Bytes, All, Lacks, Lacks-append, space, colon}
use assignments_computer_net.Peer.Decimal.{print_int, print_int-Lacks}
use assignments_computer_net.Peer.Map.{eq_of_compare_bytes}
use assignments_computer_net.Peer.Map.Order.{IsOrdered, insert-IsOrdered, insert-All}
use assignments_computer_net.Peer.Node.{
  Node, blank, new_node, oat_hash, set_ip_port_lem, set_successor, set_predecessor,
}
use assignments_computer_net.Peer.Ring.{place_between, link}
use assignments_computer_net.Peer.Ring.Keeps.{link-All}
use assignments_computer_net.Peer.Publish.{store, publish}
use assignments_computer_net.Peer.Publish.Each.{publish-All}
use assignments_computer_net.Peer.Program.{start_node}

-- A text that is sent as one word.
abbrev pub Word : Bytes → Type 0
Word t = Lacks space t × Lacks 0 t

-- What a user types at a peer: an address, a port and the names of files.
pub record Member : Type 0 where
  pub at : Bytes
  pub number : ℕ
  pub files : List Bytes

pub record IsProper (m : Member) : Type 0 where
  pub word : Word m.at
  pub no_colon : Lacks colon m.at
  pub is_int : m.number < 2 ^ 31
  pub words : All Word m.files
  pub few : length m.files < 2 ^ 31

abbrev pub member_node : Member → Node
member_node m = start_node m.at (print_int m.number) m.files

pub start_node_lem :
    (m : Member)
    → IsProper m
    → member_node m ≡ record (blank (oat_hash (m.at ++ colon ∷ print_int m.number))) {
      ip = m.at;
      port = print_int m.number;
      ip_port = m.at ++ colon ∷ print_int m.number;
      my_file = m.files;
    }
unfolding start_node new_node
start_node_lem m p =
    let share : Node → Node = λ d. record d { my_file = d.my_file ++ m.files } in
    ap share (
      set_ip_port_lem (blank 0) m.at (print_int m.number) p.no_colon
        (print_int-Lacks colon m.number (inr (omega arith))))

pub Word-print_int : (n : ℕ) → Word (print_int n)
Word-print_int n =
    (print_int-Lacks space n (inl (omega arith)), print_int-Lacks 0 n (inl (omega arith)))

Word-address : (ip : Bytes) (n : ℕ) → Word ip → Word (ip ++ colon ∷ print_int n)
Word-address ip n w = (
  Lacks-append space ip (colon ∷ print_int n) w.0 (ground arith, (Word-print_int n).0),
  Lacks-append 0 ip (colon ∷ print_int n) w.1 (ground arith, (Word-print_int n).1),
)

abbrev WordPair : Bytes × Bytes → Type 0
WordPair e = Word e.0 × Word e.1

-- The node of a proper member, whose neighbours and entries are words in the order of the keys.
pub record Ready (d : Node) : Type 0 where
  pub member : Member
  pub proper : IsProper member
  pub same_ip : d.ip ≡ member.at
  pub same_port : d.port ≡ print_int member.number
  pub same_address : d.ip_port ≡ member.at ++ colon ∷ print_int member.number
  pub same_id : d.node_id ≡ oat_hash (member.at ++ colon ∷ print_int member.number)
  pub same_files : d.my_file ≡ member.files
  pub next_word : Word d.scr
  pub previous_word : Word d.pdr
  pub order : IsOrdered d.my_file_info
  pub entries_words : All WordPair d.my_file_info

pub member_node-Ready : (m : Member) → IsProper m → Ready (member_node m)
member_node-Ready m p = subst Ready (sym (start_node_lem m p)) (record {
  member = m;
  proper = p;
  same_ip = refl;
  same_port = refl;
  same_address = refl;
  same_id = refl;
  same_files = refl;
  next_word = (tt, tt);
  previous_word = (tt, tt);
  order = tt;
  entries_words = tt;
})

Ready-Word : (d : Node) → Ready d → Word d.ip_port
Ready-Word d r =
    subst Word (sym r.same_address) (Word-address r.member.at r.member.number r.proper.word)

Ready-files : (d : Node) → Ready d → All Word d.my_file
Ready-files d r = subst (All Word) (sym r.same_files) r.proper.words

place_between-Ready :
    (next prev : Bytes) (d : Node)
    → Word next
    → Word prev
    → Ready d
    → Ready (place_between next prev d)
unfolding set_successor set_predecessor
place_between-Ready next prev d n p r = record {
  member = r.member;
  proper = r.proper;
  same_ip = r.same_ip;
  same_port = r.same_port;
  same_address = r.same_address;
  same_id = r.same_id;
  same_files = r.same_files;
  next_word = n;
  previous_word = p;
  order = r.order;
  entries_words = r.entries_words;
}

store-Ready :
    (file owner : Bytes) (d : Node) → Word file → Word owner → Ready d → Ready (store file owner d)
store-Ready file owner d f o r = record {
  member = r.member;
  proper = r.proper;
  same_ip = r.same_ip;
  same_port = r.same_port;
  same_address = r.same_address;
  same_id = r.same_id;
  same_files = r.same_files;
  next_word = r.next_word;
  previous_word = r.previous_word;
  order = insert-IsOrdered file owner d.my_file_info r.order;
  entries_words =
      insert-All WordPair file owner d.my_file_info
        (λ k same. (subst Word (eq_of_compare_bytes file k same) f, o)) r.entries_words;
}

pub link-Ready :
    (nodes ring : List Node) → All Ready nodes → link nodes ≡ some ring → All Ready ring
link-Ready = link-All Ready Word Ready-Word place_between-Ready

pub publish-Ready :
    (nodes out : List Node) → All Ready nodes → publish nodes ≡ some out → All Ready out
publish-Ready = publish-All Ready Word Ready-Word Ready-files store-Ready
