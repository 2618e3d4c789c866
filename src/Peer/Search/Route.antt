-- ===== src/Peer/Search/Route.antt =====
-- Where a search goes: to the asker or to the successor.
use assignments_computer_net.Base.{
  inl, inr, ◌<◌, ◌^◌, ℕ, ◌≡◌, refl, ap, ◌∙◌, none, some, [], ◌∷◌, ◌++◌, arith,
}
use assignments_computer_net.Peer.Text.{
  Lacks-append, Bytes, space, colon, Lacks, getline-append, getline-whole,
}
use assignments_computer_net.Peer.Decimal.{print_int, atoi-print_int, print_int-Lacks}
use assignments_computer_net.Peer.Map.{find}
use assignments_computer_net.Peer.Node.{Node}
use assignments_computer_net.Peer.Search.{
  send_to, answer, route, search_func, request, search_func-request, codes, command, downloads,
  parse_download, starts_with,
}

-- An address with its port in decimal is split again.
pub send_to-print_int :
    (ip msg : Bytes) (port : ℕ)
    → Lacks colon ip
    → port < 2 ^ 31
    → send_to (ip ++ colon ∷ print_int port) msg
      ≡ some (record { ip = ip; port = port; payload = msg })
unfolding send_to
send_to-print_int ip msg port h small = simp (
  getline-append colon [] ip (print_int port) h,
  getline-whole colon [] (print_int port) (print_int-Lacks colon port (inr (omega arith))),
  atoi-print_int port small,
)

pub route-known :
    (file asker owner req : Bytes) (node : Node)
    → find file node.my_file_info ≡ some owner
    → route file asker req node ≡ send_to asker (answer file owner)
unfolding route
route-known file asker owner req node known = rw (known, route) refl

pub route-unknown :
    (file asker req : Bytes) (node : Node)
    → find file node.my_file_info ≡ none
    → route file asker req node ≡ send_to node.scr req
unfolding route
route-unknown file asker req node unknown = rw (unknown, route) refl

-- A node that knows the file of a request answers to the address and the port of the asker, with
-- the owner that it has for the file. The file name and the asker's address have no space, the
-- address has no colon, and the port is below 2 ^ 31.
pub search_func-answer :
    (file ip owner : Bytes) (port : ℕ) (node : Node)
    → Lacks space file
    → Lacks space ip
    → Lacks colon ip
    → port < 2 ^ 31
    → find file node.my_file_info ≡ some owner
    → search_func (request file (ip ++ colon ∷ print_int port)) node
      ≡ some (record { ip = ip; port = port; payload = answer file owner })
search_func-answer file ip owner port node fs is ic small known =
    let asker = ip ++ colon ∷ print_int port in
    let clean : Lacks space asker =
      Lacks-append space ip (colon ∷ print_int port) is
        (omega arith, print_int-Lacks space port (inl (omega arith))) in
    search_func-request file asker node fs clean
    ∙ (route-known file asker owner (request file asker) node known
        ∙ send_to-print_int ip (answer file owner) port ic small)

-- A node that does not know the file sends the request on unchanged, to the address and the port
-- of its successor. The file name and the asker have no space, the successor's address has no
-- colon, and its port is below 2 ^ 31.
pub search_func-forward :
    (file asker ip : Bytes) (port : ℕ) (node : Node)
    → Lacks space file
    → Lacks space asker
    → Lacks colon ip
    → port < 2 ^ 31
    → node.scr ≡ ip ++ colon ∷ print_int port
    → find file node.my_file_info ≡ none
    → search_func (request file asker) node
      ≡ some (record { ip = ip; port = port; payload = request file asker })
search_func-forward file asker ip port node fs as' ic small next unknown =
    search_func-request file asker node fs as'
    ∙ (route-unknown file asker (request file asker) node unknown
        ∙ (ap (λ l. send_to l (request file asker)) next
            ∙ send_to-print_int ip (request file asker) port ic small))

-- What a user types to get a file from a peer.
abbrev pub download_line : Bytes → Bytes → Bytes
download_line file address =
    codes "download" ++ space ∷ (file ++ space ∷ (codes "from" ++ space ∷ address))

-- A line `download FILE from IP:PORT` leads to a download of that file from that address and port, when
-- the file name has no space, the address no colon, and the port is below 2 ^ 31.
pub command_download :
    (file ip : Bytes) (port : ℕ) (node : Node)
    → Lacks space file
    → Lacks colon ip
    → port < 2 ^ 31
    → command (download_line file (ip ++ colon ∷ print_int port)) node
      ≡ downloads file ip (some port)
unfolding command parse_download starts_with
command_download file ip port node fs ic small = simp (
  getline-append space [] (codes "download")
      (file ++ space ∷ (codes "from" ++ space ∷ (ip ++ colon ∷ print_int port))) (ground arith),
  getline-append space [] file (codes "from" ++ space ∷ (ip ++ colon ∷ print_int port)) fs,
  getline-append space (codes "download") (codes "from") (ip ++ colon ∷ print_int port)
      (ground arith),
  getline-append colon [] ip (print_int port) ic,
  getline-whole colon (codes "from") (print_int port)
      (print_int-Lacks colon port (inr (omega arith))),
  atoi-print_int port small,
)
