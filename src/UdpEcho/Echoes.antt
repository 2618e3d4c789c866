-- ===== src/UdpEcho/Echoes.antt =====
-- Which client of the simulation meets which server.
use mathlib.Core.List.{Perm, Memᴰ, perm_append_comm}
use mathlib.Core.List.Perm
use mathlib.Core.List.Memᴰ.{head, tail}
use assignments_computer_net.Base.{
  ℕ, ◌≡◌, ◌≢◌, ◌≤◌, refl, sym, ap, ◌∙◌, true, false, List, [], ◌∷◌, ◌++◌, map, arith,
}
use assignments_computer_net.Peer.Text.{All}
use assignments_computer_net.UdpEcho.{
  Helpers, EchoServer, Options, default_options, EchoClient, Simulation, get_address,
  get_address_v6, assign_addresses, udp_echo_main,
}

module _ (H : Helpers) where
  -- The client sends to the address of a node with a server on that port, which runs as long as the
  -- client does.
  pub record IsEchoed (m : Simulation H) (c : EchoClient H) : Type 0 where
    pub server : EchoServer
    pub installed : Memᴰ server m.servers
    pub reached : c.remote_address ≡ get_address H server.node
    pub same_port : c.port ≡ server.port
    pub started : server.start ≤ c.start
    pub stopped : c.stop ≤ server.stop

  -- The nodes of the applications.
  abbrev pub places : Simulation H → List ℕ
  places m = map (λ s. s.node) m.servers ++ map (λ c. c.node) m.clients

  -- A client of the program, when its address is that of a node with a server.
  meets :
      {m : Simulation H} {c : EchoClient H} (server : EchoServer)
      → Memᴰ server m.servers
      → c.remote_address ≡ get_address H server.node
      → c.port ≡ server.port
      → server.start ≤ c.start
      → c.stop ≤ server.stop
      → IsEchoed m c
  meets server here to p s t = record {
    server = server;
    installed = here;
    reached = to;
    same_port = p;
    started = s;
    stopped = t;
  }

  all_places :
      Perm {A = ℕ} (4 ∷ 5 ∷ 2 ∷ 3 ∷ 0 ∷ 1 ∷ 6 ∷ 7 ∷ []) (0 ∷ 1 ∷ 2 ∷ 3 ∷ 4 ∷ 5 ∷ 6 ∷ 7 ∷ [])
  all_places =
      Perm.trans
        (Perm.append_right (6 ∷ 7 ∷ []) (perm_append_comm (4 ∷ 5 ∷ 2 ∷ 3 ∷ []) (0 ∷ 1 ∷ [])))
        (Perm.append_left (0 ∷ 1 ∷ [])
          (Perm.append_right (6 ∷ 7 ∷ []) (perm_append_comm (4 ∷ 5 ∷ []) (2 ∷ 3 ∷ []))))

  -- Over IPv4, each client sends to the address of a node that runs a server on the client's port from
  -- before the client starts until it stops, and each of the eight nodes has exactly one of the servers
  -- and clients.
  pub udp_echo_main-IsEchoed :
      (parse : Options H → Options H) (rand : ℕ)
      → (parse (default_options H)).use_v6 ≡ false
      → All (IsEchoed (udp_echo_main H parse rand)) (udp_echo_main H parse rand).clients
        × Perm (places (udp_echo_main H parse rand)) (0 ∷ 1 ∷ 2 ∷ 3 ∷ 4 ∷ 5 ∷ 6 ∷ 7 ∷ [])
  unfolding udp_echo_main assign_addresses
  udp_echo_main-IsEchoed parse rand e =
      let a = assign_addresses H (parse (default_options H)).use_v6 in
      let assigned : a ≡ assign_addresses H false = ap (assign_addresses H) e in
      (
        (
          meets _ (head refl) (ap (λ b. b.server_address1) assigned) refl (omega arith)
              (omega arith),
          (
            meets _ (tail (head refl)) (ap (λ b. b.server_address2) assigned) refl (omega arith)
                (omega arith),
            (
              meets _ (tail (tail (head refl))) (ap (λ b. b.server_address3) assigned) refl
                  (omega arith) (omega arith),
              (
                meets _ (tail (tail (tail (head refl)))) (ap (λ b. b.server_address4) assigned) refl
                    (omega arith) (omega arith),
                tt,
              ),
            ),
          ),
        ),
        all_places,
      )

  -- Over IPv6 no client gets an address of an interface: only `serverAddress` is set, and the clients
  -- use the other four. The address of an interface is not the one of an unset `Address`.
  pub udp_echo_main-unset :
      (parse : Options H → Options H) (rand : ℕ)
      → (parse (default_options H)).use_v6 ≡ true
      → ((i j : ℕ) → get_address_v6 H i j ≢ H.no_address)
      → All
          (λ c. (i j : ℕ) → c.remote_address ≢ get_address_v6 H i j)
          (udp_echo_main H parse rand).clients
  unfolding udp_echo_main assign_addresses
  udp_echo_main-unset parse rand e set =
      let a = assign_addresses H (parse (default_options H)).use_v6 in
      let assigned : a ≡ assign_addresses H true = ap (assign_addresses H) e in
      (
        missed a.server_address1 (ap (λ b. b.server_address1) assigned),
        (
          missed a.server_address2 (ap (λ b. b.server_address2) assigned),
          (
            missed a.server_address3 (ap (λ b. b.server_address3) assigned),
            (missed a.server_address4 (ap (λ b. b.server_address4) assigned), tt),
          ),
        ),
      )
    where
      missed :
          (address : H.Address)
          → address ≡ H.no_address
          → (i j : ℕ) → address ≢ get_address_v6 H i j
      missed address unset' i j reached = set i j (sym reached ∙ unset')
