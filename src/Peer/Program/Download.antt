-- ===== src/Peer/Program/Download.antt =====
-- From the answer of a search to the download: the answer names a peer that shares the file, and the
-- line that a user types after it leads there.
use mathlib.Core.Option.{some-injective}
use mathlib.Core.List.{Memᴰ}
use assignments_computer_net.Base.{
  ℕ, ◌≡◌, ◌<◌, refl, sym, ap, subst, ◌∙◌, ◌⊎◌, inl, inr, Option, none, some, List, [], ◌∷◌, ◌++◌,
  map, length,
}
use assignments_computer_net.Peer.Text.{Bytes, All, Lacks, space, colon}
use assignments_computer_net.Peer.Decimal.{print_int}
use assignments_computer_net.Peer.Map.{eq_of_compare_bytes}
use assignments_computer_net.Peer.Node.{Node}
use assignments_computer_net.Peer.Ring.{sort_nodes}
use assignments_computer_net.Peer.Ring.Keeps.{sort_nodes-All}
use assignments_computer_net.Peer.Publish.{
  last_of, last_owner, newer_same, newer_other, same_or_not,
}
use assignments_computer_net.Peer.Search.{downloads, command}
use assignments_computer_net.Peer.Search.Route.{command_download, download_line}
use assignments_computer_net.Transfer.System.{System, IsStream, finished}
use assignments_computer_net.Transfer.Serve.{serve_file}
use assignments_computer_net.Transfer.Fetch.{download_func, at_server}
use assignments_computer_net.Transfer.Whole.{Serves, Receives, download_func-serve_file}
use assignments_computer_net.Peer.Program.Ready.{Member, IsProper, member_node, start_node_lem}

last_of-some :
    (file at w : Bytes) (files : List Bytes) (o : Option Bytes)
    → last_of file at files o ≡ some w
    → (o ≡ some w) ⊎ ((at ≡ w) × Memᴰ file files)
last_of-some file at w [] o e = inl e
last_of-some file at w (f ∷ files) o e = elim (last_of-some file at w files _ e) [
  | inr (same, has) ↦ inr (same, Memᴰ.tail has)
  | inl now ↦ elim (same_or_not file f) [
    | inr other ↦ inl (sym (newer_other file f at o other) ∙ now)
    | inl here ↦ inr (
      some-injective _ _ (sym (newer_same file f at o here) ∙ now),
      Memᴰ.head (eq_of_compare_bytes file f here),
    )
  ]
]

-- The last owner is the address of a node that has the file.
last_owner-some :
    (Q : Node → Type 0) (file w : Bytes) (nodes : List Node) (o : Option Bytes)
    → All Q nodes
    → last_owner file nodes o ≡ some w
    → (o ≡ some w) ⊎ ((d : Node) × Q d × (d.ip_port ≡ w) × Memᴰ file d.my_file)
last_owner-some Q file w [] o qs e = inl e
last_owner-some Q file w (d ∷ nodes) o qs e =
    elim (last_owner-some Q file w nodes (last_of file d.ip_port d.my_file o) qs.1 e) [
      | inr later ↦ inr later
      | inl now ↦ elim (last_of-some file d.ip_port w d.my_file o now) [
        | inl before ↦ inl before
        | inr (same, has) ↦ inr (d, qs.0, same, has)
      ]
    ]

-- A node is a member's own.
abbrev Of : List Member → Node → Type 0
Of ms d = (m : Member) × Memᴰ m ms × (d ≡ member_node m)

All-Of-tail :
    (m : Member) (ms : List Member) (nodes : List Node)
    → All (Of ms) nodes
    → All (Of (m ∷ ms)) nodes
All-Of-tail m ms [] h = tt
All-Of-tail m ms (d ∷ nodes) h =
    let (k, has, same) = h.0 in ((k, Memᴰ.tail has, same), All-Of-tail m ms nodes h.1)

members-Of : (ms : List Member) → All (Of ms) (map member_node ms)
members-Of [] = tt
members-Of (m ∷ ms) =
    ((m, Memᴰ.head refl, refl), All-Of-tail m ms (map member_node ms) (members-Of ms))

All-Memᴰ : (m : Member) (ms : List Member) → All IsProper ms → Memᴰ m ms → IsProper m
All-Memᴰ m _ h (Memᴰ.head e) = subst IsProper (sym e) h.0
All-Memᴰ m _ h (Memᴰ.tail r) = All-Memᴰ m _ h.1 r

-- The member that an answer names.
pub record Sharer (ms : List Member) (file owner : Bytes) : Type 0 where
  pub member : Member
  pub among : Memᴰ member ms
  pub shares : Memᴰ file member.files
  pub named : owner ≡ member.at ++ colon ∷ print_int member.number

last_owner-Sharer :
    (ms : List Member) (file owner : Bytes)
    → All IsProper ms
    → last_owner file (sort_nodes (map member_node ms)) none ≡ some owner
    → Sharer ms file owner
last_owner-Sharer ms file owner proper e =
    let nodes = map member_node ms in
    let all = sort_nodes-All (Of ms) nodes (members-Of ms) in
    elim (last_owner-some (Of ms) file owner (sort_nodes nodes) none all e) [
      | inl none' ↦ absurd (cc none')
      | inr (d, (m, among, own), same, has) ↦
          let start = own ∙ start_node_lem m (All-Memᴰ m ms proper among) in
          record {
            member = m;
            among = among;
            shares = subst (Memᴰ file) (ap (λ n. n.my_file) start) has;
            named = sym same ∙ ap (λ n. n.ip_port) start;
          }
    ]

-- What a member and the asking peer need for a download of the file: the member's child serves it on a
-- new connection, and that connection brings the asking peer what the child sends.
pub record Offers (C : System) (M : IsStream C) (fuel : ℕ) (file : Bytes) (m : Member) (c : C.State)
    : Type 1 where
  pub owner_system : System
  pub stream : IsStream owner_system
  pub sock : ℕ
  pub state : owner_system.State
  pub serves : Serves owner_system stream file sock state
  pub client_sock : ℕ
  pub receives : Receives C file m.at m.number client_sock c
  pub near : length m.at < 100
  pub enough : length (stream.file file state) < fuel
  pub brings :
      (s : owner_system.State)
      → serve_file owner_system fuel (some sock) state ≡ finished s
      → M.pending (some client_sock) (at_server C m.at m.number client_sock c)
        ≡ stream.sent (some sock) s

-- From the answer of a search to the file. The owner that a search is answered with is the address of a
-- member that shares the file. A user of any peer who types `download FILE from` that address makes
-- the peer download the file from there, and the new file has exactly the bytes of that member's file.
-- The file name has no space and at most 95 bytes, and every member that shares the file offers it.
pub command-download_func :
    (ms : List Member) (file owner : Bytes) (node : Node) (C : System) (M : IsStream C) (fuel : ℕ)
    (c : C.State)
    → All IsProper ms
    → Lacks space file
    → length file < 96
    → last_owner file (sort_nodes (map member_node ms)) none ≡ some owner
    → (offers : (m : Member) → Memᴰ m ms → Memᴰ file m.files → Offers C M fuel file m c)
    → (s : Sharer ms file owner) × (c' : C.State) × (command (download_line file owner) node
        ≡ downloads file s.member.at (some s.member.number))
      × (download_func C fuel file s.member.at s.member.number c ≡ finished c')
      × (let o = offers s.member s.among s.shares in
          M.sent (some o.receives.fd) c' ≡ o.stream.file file o.state)
command-download_func ms file owner node C M fuel c proper word short e offers =
    let s = last_owner-Sharer ms file owner proper e in
    let m = s.member in
    let p = All-Memᴰ m ms proper s.among in
    let o = offers m s.among s.shares in
    let (_, c', _, done, got) =
      download_func-serve_file o.owner_system C o.stream M fuel file m.at m.number o.sock
        o.client_sock o.state c o.serves o.receives short o.near o.enough o.brings in
    (
      s,
      c',
      ap (λ a. command (download_line file a) node) s.named
          ∙ command_download file m.at m.number node word p.no_colon p.is_int,
      done,
      got,
    )
