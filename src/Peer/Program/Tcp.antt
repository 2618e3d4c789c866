-- ===== src/Peer/Program/Tcp.antt =====
-- The TCP server of a peer, which the second child of `main` in `server.cpp` runs.
use assignments_computer_net.Base.{◌≡◌, ap, ◌∙◌, some}
use assignments_computer_net.Peer.Decimal.{print_int, atoi, atoi-print_int}
use assignments_computer_net.Peer.Node.{Node}
use assignments_computer_net.Peer.Program.Ready.{Member, IsProper, member_node, start_node_lem}
use assignments_computer_net.Transfer.System.{System, Outcome}
use assignments_computer_net.Transfer.Listen.{Processes, Parent, set_up, set_up_port}

module _ (S : System) (P : Processes S) where
  -- The port is the node's, as a text.
  unfoldable pub tcp_server : Node → S.State → Outcome (Parent S)
  tcp_server my_node s = set_up_port S P (some my_node.port) s

  -- A member's server is set up on the number that the member's user typed, which is the one that the
  -- other peers connect to for a download.
  pub tcp_server-member_node :
      (m : Member) (s : S.State) → IsProper m → tcp_server (member_node m) s ≡ set_up S P m.number s
  unfolding tcp_server set_up_port
  tcp_server-member_node m s p =
      let port : (member_node m).port ≡ print_int m.number =
        ap (λ d. d.port) (start_node_lem m p) in
      let number : atoi (member_node m).port ≡ some m.number =
        ap atoi port ∙ atoi-print_int m.number p.is_int in
      simp (number, set_up_port)
