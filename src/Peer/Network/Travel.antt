-- ===== src/Peer/Network/Travel.antt =====
-- A search finds the peer that knows the file.
use native.Mathlib.Nat.{mod-lt, mod-add-mod, mod-eq_of_lt}
use assignments_computer_net.Base.{
  ℕ, zero, suc, ◌+◌, ◌%◌, ◌^◌, ◌≡◌, ◌<◌, ◌≤◌, sym, ap, subst, ◌∙◌, inl, inr, none, some, List, ◌∷◌,
  ◌++◌, length, false, arith, Option-cases,
}
use assignments_computer_net.Peer.Text.{Bytes, Lacks, colon, space}
use assignments_computer_net.Peer.Decimal.{print_int, atoi, atoi-print_int}
use assignments_computer_net.Peer.Map.{find}
use assignments_computer_net.Peer.Node.{Node}
use assignments_computer_net.Peer.Transport.{transport_whole}
use assignments_computer_net.Peer.Search.{
  Datagram, sends, request, owner_of, contains, answer, serve-request, send_to,
}
use assignments_computer_net.Peer.Search.Route.{send_to-print_int, route-known, route-unknown}
use assignments_computer_net.Peer.Network.{Hop, hop, Hops, stays, goes, IsRing}

-- A request that a peer answers or passes on: neither the file name nor the asker has a space,
-- `owner_of` does not occur in it, and it arrives whole, with no zero byte and at most 1000 bytes. The
-- asker is an address and a port in decimal.
pub record Asks (file ip : Bytes) (port : ℕ) : Type 0 where
  pub one_word : Lacks space file
  pub no_space : Lacks space (ip ++ colon ∷ print_int port)
  pub no_colon : Lacks colon ip
  pub small : port < 2 ^ 31
  pub no_answer : contains owner_of (request file (ip ++ colon ∷ print_int port)) ≡ false
  pub no_zero : Lacks 0 (request file (ip ++ colon ∷ print_int port))
  pub fits : length (request file (ip ++ colon ∷ print_int port)) ≤ 1000

module _ (ring : List Node) (R : IsRing ring) (file ip : Bytes) (port : ℕ)
    (A : Asks file ip port) where
  abbrev asker : Bytes
  asker = ip ++ colon ∷ print_int port

  -- The request on its way to the peer at the index, and an answer on its way to the asker.
  abbrev pub to_peer : ℕ → Datagram
  to_peer j = record { ip = R.ip j; port = R.port j; payload = request file asker }

  abbrev pub answer_of : Bytes → Datagram
  answer_of owner = record { ip = ip; port = port; payload = answer file owner }

  Hop-known :
      (j : ℕ) (owner : Bytes)
      → j < length ring
      → find file (R.node j).my_file_info ≡ some owner
      → Hop ring (to_peer j) (answer_of owner)
  Hop-known j owner below known =
      hop j (R.node j) (request file asker) (R.present j below) (R.at_ip j below)
        (ap atoi (R.at_port j below) ∙ atoi-print_int (R.port j) (R.small j))
        (transport_whole (request file asker) A.no_zero A.fits)
        (serve-request file asker (R.node j) A.one_word A.no_space A.no_answer
          ∙ ap sends (
              route-known file asker owner (request file asker) (R.node j) known
              ∙ send_to-print_int ip (answer file owner) port A.no_colon A.small))

  Hop-unknown :
      (j : ℕ)
      → j < length ring
      → find file (R.node j).my_file_info ≡ none
      → Hop ring (to_peer j) (to_peer ((j + 1) % length ring))
  Hop-unknown j below unknown =
      let k = (j + 1) % length ring in
      hop j (R.node j) (request file asker) (R.present j below) (R.at_ip j below)
        (ap atoi (R.at_port j below) ∙ atoi-print_int (R.port j) (R.small j))
        (transport_whole (request file asker) A.no_zero A.fits)
        (serve-request file asker (R.node j) A.one_word A.no_space A.no_answer
          ∙ ap sends (
              route-unknown file asker (request file asker) (R.node j) unknown
              ∙ (ap (λ l. send_to l (request file asker)) (R.next j below)
                  ∙ send_to-print_int (R.ip k) (request file asker) (R.port k) (R.clean k)
                      (R.small k))))

  around : (j m : ℕ) → ((j + 1) % length ring + m) % length ring ≡ (j + suc m) % length ring
  around j m = mod-add-mod (j + 1) (length ring) m ∙ ap (λ k. k % length ring) (omega arith)

  -- The first peer that knows the file, from the one at `j` on.
  pub record Found (m j : ℕ) : Type 0 where
    pub hops : ℕ
    pub near : hops ≤ m
    pub owner : Bytes
    pub knows : find file (R.node ((j + hops) % length ring)).my_file_info ≡ some owner
    pub arrives : Hops ring (suc hops) (to_peer j) (answer_of owner)

  Found-here :
      (m j : ℕ) (owner : Bytes)
      → j < length ring
      → find file (R.node j).my_file_info ≡ some owner
      → Found m j
  Found-here m j owner below known = record {
    hops = 0;
    near = omega arith;
    owner = owner;
    knows =
        ap (λ k. find file (R.node k).my_file_info)
          (ap (λ k. k % length ring) (omega arith) ∙ mod-eq_of_lt below)
        ∙ known;
    arrives = goes (Hop-known j owner below known) stays;
  }

  Found-behind :
      (m j : ℕ)
      → j < length ring
      → find file (R.node j).my_file_info ≡ none
      → Found m ((j + 1) % length ring)
      → Found (suc m) j
  Found-behind m j below unknown F = record {
    hops = suc F.hops;
    near = omega (arith, F.near);
    owner = F.owner;
    knows = ap (λ k. find file (R.node k).my_file_info) (sym (around j F.hops)) ∙ F.knows;
    arrives = goes (Hop-unknown j below unknown) F.arrives;
  }

  -- A search reaches the first peer from `j` on that knows the file, when the one `m` places behind `j`
  -- does: that peer's answer goes to the asker after at most `m` more messages, none of which is lost.
  pub search_reaches :
      (m j : ℕ) (owner : Bytes)
      → j < length ring
      → find file (R.node ((j + m) % length ring)).my_file_info ≡ some owner
      → Found m j
  search_reaches zero j owner below known = Found-here 0 j owner below (
      ap (λ k. find file (R.node k).my_file_info)
        (sym (ap (λ k. k % length ring) (omega arith) ∙ mod-eq_of_lt below))
      ∙ known)
  search_reaches (suc m) j owner below known =
      elim (Option-cases (find file (R.node j).my_file_info)) [
        | inr (found, here) ↦ Found-here (suc m) j found below here
        | inl unknown ↦ Found-behind m j below unknown (
            search_reaches m ((j + 1) % length ring) owner (mod-lt (j + 1) (omega (arith, below)))
              (ap (λ k. find file (R.node k).my_file_info) (around j m) ∙ known))
      ]

  -- A file that no peer knows: the request is passed on again and again, after any number of messages
  -- to the peer that many places behind.
  pub search_circulates :
      (n j : ℕ)
      → j < length ring
      → ((i : ℕ) → i < length ring → find file (R.node i).my_file_info ≡ none)
      → Hops ring n (to_peer j) (to_peer ((j + n) % length ring))
  search_circulates zero j below unknown =
      subst (λ k. Hops ring 0 (to_peer j) (to_peer k))
        (sym (ap (λ k. k % length ring) (omega arith) ∙ mod-eq_of_lt below)) stays
  search_circulates (suc n) j below unknown =
      subst (λ k. Hops ring (suc n) (to_peer j) (to_peer k)) (around j n)
        (goes (Hop-unknown j below (unknown j below)) (
          search_circulates n ((j + 1) % length ring) (mod-lt (j + 1) (omega (arith, below)))
            unknown))
