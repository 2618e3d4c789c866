-- ===== src/UdpEcho.antt =====
-- `main` of assignment 4/assign_4_12CS10046_12CS30022/udp-echo.cc, up to `Simulator::Run`: eight nodes
-- on one wire, and the echo servers and clients on them. Assignment 3 has the same file.
pub mod Echoes
use assignments_computer_net.Base.{
  ℕ, ◌+◌, ◌%◌, Bool, true, false, List, [], ◌∷◌, ◌++◌, if◌then◌else◌,
}
use assignments_computer_net.Peer.Text.{Bytes}
use assignments_computer_net.Peer.Search.{codes}

-- What the program uses of ns-3. The addresses are those that the helpers assign from a base and a mask
-- or prefix: of an interface, and of an interface and one of its addresses.
pub record Helpers : Type 1 where
  pub Address : Type 0
  pub no_address : Address
  pub ipv4_address : Bytes → Bytes → ℕ → Address
  pub ipv6_address : Bytes → ℕ → ℕ → ℕ → Address
  pub Double : Type 0
  pub quarter : Double
  pub Time : Type 0
  pub seconds : Double → Time

-- An application with the port that it listens on. `start` and `stop` are in seconds. A node is its place
-- in the container `n`; its device and its interface have the same place in theirs.
pub record EchoServer : Type 0 where
  pub node : ℕ
  pub port : ℕ
  pub start : ℕ
  pub stop : ℕ

module _ (H : Helpers) where
  -- The variables that the command line can change.
  pub record Options : Type 0 where
    pub use_v6 : Bool
    pub max_packet_count : ℕ
    pub packet_size : ℕ
    pub interval_ip : H.Double
    pub filename : Bytes

  abbrev pub default_options : Options
  default_options = record {
    use_v6 = false;
    max_packet_count = 1000;
    packet_size = 4;
    interval_ip = H.quarter;
    filename = codes "udp-echonew.tr";
  }

  pub record EchoClient : Type 0 where
    pub node : ℕ
    pub remote_address : H.Address
    pub port : ℕ
    pub max_packets : ℕ
    pub interval : H.Time
    pub packet_size : ℕ
    pub start : ℕ
    pub stop : ℕ

  -- What has been set up when the simulation runs.
  pub record Simulation : Type 0 where
    pub seed : ℕ
    pub nodes : ℕ
    pub data_rate : Bytes
    pub delay_ms : ℕ
    pub mtu : ℕ
    pub servers : List EchoServer
    pub clients : List EchoClient
    pub trace_file : Bytes
    pub capture_prefix : Bytes

  -- `serverAddress`, `serverAddress1`, ..., `serverAddress4`.
  pub record ServerAddresses : Type 0 where
    pub server_address : H.Address
    pub server_address1 : H.Address
    pub server_address2 : H.Address
    pub server_address3 : H.Address
    pub server_address4 : H.Address

  abbrev unset : ServerAddresses
  unset = record {
    server_address = H.no_address;
    server_address1 = H.no_address;
    server_address2 = H.no_address;
    server_address3 = H.no_address;
    server_address4 = H.no_address;
  }

  -- `i.GetAddress` of the addresses that are assigned.
  abbrev pub get_address : ℕ → H.Address
  get_address i = H.ipv4_address (codes "10.1.1.0") (codes "255.255.255.0") i

  abbrev pub get_address_v6 : ℕ → ℕ → H.Address
  get_address_v6 i j = H.ipv6_address (codes "2001:0000:f00d:cafe::") 64 i j

  unfoldable pub assign_addresses : Bool → ServerAddresses
  assign_addresses false = record unset {
    server_address1 = get_address 4;
    server_address2 = get_address 5;
    server_address3 = get_address 2;
    server_address4 = get_address 3;
  }
  assign_addresses true = record unset { server_address = get_address_v6 1 1 }

  -- The seed, the nodes and the wire. `rand` is the number that `rand ()` gives.
  unfoldable pub set_up_nodes : ℕ → Simulation
  set_up_nodes rand = record {
    seed = 1 + rand % 1000;
    nodes = 8;
    data_rate = codes "1024Kbps";
    delay_ms = 2;
    mtu = 1400;
    servers = [];
    clients = [];
    trace_file = [];
    capture_prefix = [];
  }

  unfoldable pub install_server : ℕ → ℕ → Simulation → Simulation
  install_server port node m =
      let server : EchoServer = record { node = node; port = port; start = 1; stop = 10 } in
      record m { servers = m.servers ++ server ∷ [] }

  unfoldable pub install_servers : ℕ → Simulation → Simulation
  unfolding install_server
  install_servers port m =
      let m1 = install_server port 4 m in
      let m2 = install_server port 5 m1 in
      let m3 = install_server port 2 m2 in install_server port 3 m3

  unfoldable pub install_client : Options → ℕ → H.Address → ℕ → Simulation → Simulation
  install_client o port address node m =
      let client : EchoClient = record {
        node = node;
        remote_address = address;
        port = port;
        max_packets = o.max_packet_count;
        interval = H.seconds o.interval_ip;
        packet_size = o.packet_size;
        start = 2;
        stop = 10;
      } in
      record m { clients = m.clients ++ client ∷ [] }

  unfoldable pub install_clients : Options → ServerAddresses → ℕ → Simulation → Simulation
  unfolding install_client
  install_clients o a port m =
      let m1 = install_client o port a.server_address1 0 m in
      let m2 = install_client o port a.server_address2 1 m1 in
      let m3 = install_client o port a.server_address3 6 m2 in
      install_client o port a.server_address4 7 m3

  unfoldable pub enable_traces : Options → Simulation → Simulation
  enable_traces o m = record m { trace_file = o.filename; capture_prefix = codes "udp-echo" }

  -- `parse` is `cmd.Parse (argc, argv)`, which may change each of the variables.
  unfoldable pub udp_echo_main : (Options → Options) → ℕ → Simulation
  unfolding assign_addresses set_up_nodes install_servers install_clients enable_traces
  udp_echo_main parse rand =
      let o = parse default_options in
      let a = assign_addresses o.use_v6 in
      enable_traces o (install_clients o a 9 (install_servers 9 (set_up_nodes rand)))
