-- ===== src/Examples/UdpEcho.antt =====
-- The experiment of `udp-echo.cc` with interfaces that are numbered.
use mathlib.Core.List.{Perm}
use assignments_computer_net.Base.{ℕ, ◌≢◌, refl, true, Option, none, some, [], ◌∷◌}
use assignments_computer_net.Peer.Text.{All}
use assignments_computer_net.UdpEcho.{Helpers, Options, get_address_v6, udp_echo_main}
use assignments_computer_net.UdpEcho.Echoes.{
  IsEchoed, places, udp_echo_main-IsEchoed, udp_echo_main-unset,
}

abbrev numbered : Helpers
numbered = record {
  Address = Option ℕ;
  no_address = none;
  ipv4_address = λ base mask i. some i;
  ipv6_address = λ base prefix i j. some i;
  Double = ℕ;
  quarter = 250;
  Time = ℕ;
  seconds = λ n. n;
}

abbrev as_given : Options numbered → Options numbered
as_given o = record o { max_packet_count = 20 }

abbrev with_v6 : Options numbered → Options numbered
with_v6 o = record o { use_v6 = true }

udp_echo_main-IsEchoed_example :
    All
      (IsEchoed numbered (udp_echo_main numbered as_given 1234))
      (udp_echo_main numbered as_given 1234).clients
    × Perm
        (places numbered (udp_echo_main numbered as_given 1234))
        (0 ∷ 1 ∷ 2 ∷ 3 ∷ 4 ∷ 5 ∷ 6 ∷ 7 ∷ [])
udp_echo_main-IsEchoed_example = udp_echo_main-IsEchoed numbered as_given 1234 refl

some_address : (i j : ℕ) → get_address_v6 numbered i j ≢ none
some_address i j e = cc

udp_echo_main-unset_example :
    All
      (λ c. (i j : ℕ) → c.remote_address ≢ get_address_v6 numbered i j)
      (udp_echo_main numbered with_v6 1234).clients
udp_echo_main-unset_example = udp_echo_main-unset numbered with_v6 1234 refl some_address
