-- ===== src/Peer/Program.antt =====
-- The two programs as wholes: `main` of `__init.cpp`, and `main` of `server.cpp` up to the point where
-- the peer has its neighbours and its part of the file map.
pub mod Ready
pub mod Start
pub mod Whole
pub mod Download
pub mod Tcp
use assignments_computer_net.Base.{ℕ, Option, none, some, List, [], ◌∷◌, ◌++◌, ◌>>=◌}
use assignments_computer_net.Peer.Text.{Bytes, colon}
use assignments_computer_net.Peer.Decimal.{atoi}
use assignments_computer_net.Peer.Node.{Node, new_node, set_ip_port}
use assignments_computer_net.Peer.Registration.{register, registration}
use assignments_computer_net.Peer.Bootstrap.{bootstrap}
use assignments_computer_net.Peer.Reply.{reply, read_reply}
use assignments_computer_net.Peer.Search.{Datagram, codes}
use assignments_computer_net.Peer.Transport.{transport}
use assignments_computer_net.Transfer.System.{c_string}

-- The first loop: each round waits for the next message, as its sender gave it to `__sendreq`. The
-- program waits for ever if there is none, which is `none` here.
unfoldable pub collect : List Node → List Bytes → Option (List Node)
collect [] msgs = some []
collect (d ∷ all_info) [] = none
collect (d ∷ all_info) (msg ∷ msgs) = do
  text ← transport msg
  d' ← register d text
  rest ← collect all_info msgs
  some (d' ∷ rest)

-- The last loop: each node gets its neighbours and its part of the map. `__sendreq` copies the answer to
-- a buffer of 2048 bytes: one that does not fit overflows it, which is `none`.
unfoldable pub send_replies : List Node → Option (List Datagram)
send_replies [] = some []
send_replies (d ∷ all_info) = do
  port ← atoi d.port
  line ← c_string 2048 (reply d)
  rest ← send_replies all_info
  some (record { ip = d.ip; port = port; payload = line } ∷ rest)

-- `main` of `__init.cpp` on an array and the messages that come in: the datagrams it sends.
unfoldable pub init_main : List Node → List Bytes → Option (List Datagram)
unfolding collect send_replies
init_main all_info msgs = do
  nodes ← collect all_info msgs
  ring ← bootstrap nodes
  send_replies ring

-- `main` of `server.cpp`, from what the user types: the node and the first message.
unfoldable pub start_node : Bytes → Bytes → List Bytes → Node
start_node ip port files =
    let named = set_ip_port (new_node []) (ip ++ colon ∷ port) in
    record named { my_file = named.my_file ++ files }

abbrev pub first_message : Bytes → Bytes → List Bytes → Datagram
first_message ip port files = record {
  ip = codes "127.0.0.1";
  port = 9090;
  payload = registration ip port files;
}

-- The peer waits for the answer and reads it.
unfoldable pub join : Node → Bytes → Option Node
join my_node msg = do text ← transport msg; read_reply my_node text
