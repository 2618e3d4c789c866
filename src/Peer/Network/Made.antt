-- ===== src/Peer/Network/Made.antt =====
-- The ring that the bootstrap program makes, and what its peers know of a file.
use mathlib.Core.Option.{some-injective}
use native.Mathlib.Nat.{mod-lt}
use assignments_computer_net.Base.{
  ℕ, ◌+◌, ◌%◌, ◌≡◌, ◌≢◌, ◌<◌, refl, sym, ap, subst, ◌∙◌, inl, inr, Option, none, some, List, ◌∷◌,
  ◌++◌, length, arith,
}
use assignments_computer_net.Peer.Text.{Bytes, colon}
use assignments_computer_net.Peer.Decimal.{print_int}
use assignments_computer_net.Peer.Map.{find}
use assignments_computer_net.Peer.Node.{Node, oat_hash, set_successor, set_predecessor}
use assignments_computer_net.Peer.Lookup.{ids, IsSorted, successor}
use assignments_computer_net.Peer.Ring.{field, link}
use assignments_computer_net.Peer.Ring.Linked.{Rounds}
use assignments_computer_net.Peer.Publish.{
  store, known, publish, publish-known, last_owner, index_same_or_not,
}
use assignments_computer_net.Peer.Publish.Keeps.{publish-field, publish-elsewhere}
use assignments_computer_net.Peer.Bootstrap.{
  length-ids, successor-lt, link-keeps, last_owner-place_between, known-place_between, known-Fresh,
}
use assignments_computer_net.Peer.Network.{IsRing}
use assignments_computer_net.Peer.Network.Registered.{
  AllRegistered, ip_of, port_of, ip_of-Lacks, port_of-lt, Fields-all, node_of, field-node_of,
  link-field, AllRegistered-Fresh,
}

-- What the bootstrap program does with nodes in the order of their identifiers.
pub record Made (s : List Node) (rs : AllRegistered s) : Type 0 where
  pub linked : List Node
  pub links : link s ≡ some linked
  pub rounds : Rounds s (length s) (length s) linked
  pub out : List Node
  pub publishes : publish linked ≡ some out
  pub order : IsSorted (ids s)
  pub linked_ids : ids linked ≡ ids s
  pub out_ids : ids out ≡ ids s

module _ (s : List Node) (rs : AllRegistered s) (M : Made s rs) where
  abbrev n : ℕ
  n = length s

  pub out_size : length M.out ≡ n
  out_size = sym (length-ids M.out) ∙ (ap length M.out_ids ∙ length-ids s)

  -- A member that neither the linking nor the publishing changes.
  pub published_field :
      {A : Type 0} (f : Node → A) (j : ℕ)
      → ((file owner : Bytes) (d : Node) → f (store file owner d) ≡ f d)
      → field f j M.out ≡ field f j M.linked
  published_field f j same =
      publish-field f j M.linked M.out same (subst IsSorted (sym M.linked_ids) M.order) M.publishes

  pub at_node :
      {A : Type 0} (f : Node → A) (j : ℕ) (a : A)
      → j < n
      → field f j M.out ≡ some a
      → f (node_of M.out j) ≡ a
  at_node f j a below e =
      some-injective _ _
        (sym (field-node_of f M.out j (subst (λ k. j < k) (sym out_size) below)) ∙ e)

  unfoldable pub Made-IsRing : IsRing M.out
  unfolding set_successor set_predecessor
  Made-IsRing = record {
    ip = ip_of s rs;
    port = port_of s rs;
    clean = ip_of-Lacks s rs;
    small = port_of-lt s rs;
    node = node_of M.out;
    present = λ j below. field-node_of (λ d. d) M.out j below;
    at_ip = λ j below.
        let below' = subst (λ k. j < k) out_size below in
        at_node (λ d. d.ip) j (ip_of s rs j) below'
          (published_field (λ d. d.ip) j (λ file owner d. refl)
            ∙ (link-field (λ d. d.ip) j s M.linked (λ next prev d. refl) M.links
                ∙ (Fields-all s rs j below').ips));
    at_port = λ j below.
        let below' = subst (λ k. j < k) out_size below in
        at_node (λ d. d.port) j (print_int (port_of s rs j)) below'
          (published_field (λ d. d.port) j (λ file owner d. refl)
            ∙ (link-field (λ d. d.port) j s M.linked (λ next prev d. refl) M.links
                ∙ (Fields-all s rs j below').ports));
    next = λ j below.
        let below' = subst (λ k. j < k) out_size below in
        let k = (j + 1) % n in
        at_node (λ d. d.scr) j (ip_of s rs k ++ colon ∷ print_int (port_of s rs k)) below'
          (published_field (λ d. d.scr) j (λ file owner d. refl)
            ∙ ((M.rounds.linked j below').next_side
                ∙ (Fields-all s rs k (mod-lt (j + 1) (omega (arith, below')))).addresses))
        ∙ ap (λ k'. ip_of s rs ((j + 1) % k') ++ colon ∷ print_int (port_of s rs ((j + 1) % k')))
            (sym out_size);
  }

  pub place_of : Bytes → ℕ
  place_of file = successor (oat_hash file) (ids M.out)

  pub place_of-lt : (file : Bytes) → 0 < n → place_of file < n
  unfolding place_of
  place_of-lt file h =
      subst (λ k. successor (oat_hash file) (ids M.out) < k) (length-ids M.out ∙ out_size)
        (successor-lt (oat_hash file) (ids M.out) (omega (arith, length-ids M.out, out_size, h)))

  known_linked : (file : Bytes) (i : ℕ) → i < n → known file i M.linked ≡ some none
  known_linked file i below =
      link-keeps (known file i) (known-place_between file i) s M.linked M.links
      ∙ known-Fresh file i s (AllRegistered-Fresh s rs) (omega (arith, length-ids s, below))

  -- What each peer knows of a file.
  finds_at :
      (file : Bytes) (i : ℕ) (o : Option Bytes)
      → i < n
      → known file i M.out ≡ some o
      → find file (node_of M.out i).my_file_info ≡ o
  finds_at file i o below e = at_node (λ d. find file d.my_file_info) i o below e

  place_of_linked : (file : Bytes) → successor (oat_hash file) (ids M.linked) ≡ place_of file
  unfolding place_of
  place_of_linked file = ap (successor (oat_hash file)) (M.linked_ids ∙ sym M.out_ids)

  pub finds_elsewhere :
      (file : Bytes) (i : ℕ)
      → i < n
      → i ≢ place_of file
      → find file (node_of M.out i).my_file_info ≡ none
  finds_elsewhere file i below apart = finds_at file i none below (
      publish-elsewhere file i M.linked M.out (λ e. apart (e ∙ place_of_linked file))
        (subst IsSorted (sym M.linked_ids) M.order) M.publishes
      ∙ known_linked file i below)

  pub finds_there :
      (file : Bytes)
      → 0 < n
      → find file (node_of M.out (place_of file)).my_file_info ≡ last_owner file s none
  finds_there file h =
      let p = successor (oat_hash file) (ids M.linked) in
      let same : p ≡ place_of file = place_of_linked file in
      let below : p < n = subst (λ k. k < n) (sym same) (place_of-lt file h) in
      let (out', e, _, knows) =
        publish-known file M.linked none (subst IsSorted (sym M.linked_ids) M.order)
          (known_linked file p below) in
      let owners : last_owner file M.linked none ≡ last_owner file s none =
        link-keeps (λ l. last_owner file l none)
          (λ i next prev l. last_owner-place_between file i next prev l none) s M.linked M.links in
      finds_at file (place_of file) (last_owner file s none) (place_of-lt file h) (
        subst (λ k. known file k M.out ≡ some (last_owner file s none)) same
          (ap (known file p) (some-injective _ _ (sym M.publishes ∙ e)) ∙ (knows ∙ ap some owners)))

  -- The one peer that answers.
  pub only_there :
      (file : Bytes) (i : ℕ) (found : Bytes)
      → i < n
      → find file (node_of M.out i).my_file_info ≡ some found
      → some found ≡ last_owner file s none
  only_there file i found below e = elim (index_same_or_not i (place_of file)) [
    | inr apart ↦ cc (finds_elsewhere file i below apart, e)
    | inl here ↦
        sym e
        ∙ (ap (λ k. find file (node_of M.out k).my_file_info) here
            ∙ finds_there file (omega (arith, below)))
  ]
