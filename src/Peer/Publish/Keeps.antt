-- ===== src/Peer/Publish/Keeps.antt =====
-- What the publishing of the files leaves as it is.
use mathlib.Core.Option.{some-injective}
use assignments_computer_net.Base.{
  ℕ, ◌≡◌, ◌≢◌, refl, sym, ap, subst, ◌∙◌, inl, inr, some, List, [], ◌∷◌, >>=-some, >>=-none,
  Option-cases,
}
use assignments_computer_net.Peer.Text.{Bytes}
use assignments_computer_net.Peer.Map.{find, find-insert_other, eq_of_compare_bytes}
use assignments_computer_net.Peer.Node.{Node, oat_hash}
use assignments_computer_net.Peer.Lookup.{
  ids, IsSorted, map_file_to_node, successor, map_file_to_node-successor,
}
use assignments_computer_net.Peer.Ring.{field, change}
use assignments_computer_net.Peer.Ring.Linked.{field_kept, field_other}
use assignments_computer_net.Peer.Publish.{
  store, publish_file, publish_files, publish_nodes, publish, ids-change, known, same_or_not,
}

module _ {B : Type 0} (F : List Node → B) (ks : List ℕ) (sorted : IsSorted ks)
    (keeps : (file owner : Bytes) (nodes : List Node)
      → F (change (successor (oat_hash file) ks) (store file owner) nodes) ≡ F nodes) where
  -- The array still has the identifiers `ks`, and `F` is as it was.
  record Kept (before after : List Node) : Type 0 where
    still : ids after ≡ ks
    same : F after ≡ F before

  publish_file-Kept :
      (owner file : Bytes) (nodes out : List Node)
      → ids nodes ≡ ks
      → publish_file owner file nodes ≡ some out
      → Kept nodes out
  unfolding publish_file
  publish_file-Kept owner file nodes out i e =
      let dest = successor (oat_hash file) ks in
      let found : map_file_to_node (oat_hash file) nodes ≡ some dest =
        map_file_to_node-successor (oat_hash file) nodes (subst IsSorted (sym i) sorted)
        ∙ ap (λ l. some (successor (oat_hash file) l)) i in
      let out' : change dest (store file owner) nodes ≡ out =
        some-injective _ _ (sym (>>=-some _ _ dest found) ∙ e) in
      subst (Kept nodes) out'
        (record { still = ids-change dest file owner nodes ∙ i; same = keeps file owner nodes })

  publish_files-Kept :
      (owner : Bytes) (files : List Bytes) (nodes out : List Node)
      → ids nodes ≡ ks
      → publish_files owner files nodes ≡ some out
      → Kept nodes out
  unfolding publish_files
  publish_files-Kept owner [] nodes out i e =
      subst (Kept nodes) (some-injective _ _ e) (record { still = i; same = refl })
  publish_files-Kept owner (f ∷ files) nodes out i e =
      elim (Option-cases (publish_file owner f nodes)) [
        | inl null ↦ cc (>>=-none (publish_file owner f nodes) (publish_files owner files) null, e)
        | inr (nodes', read) ↦
            let one = publish_file-Kept owner f nodes nodes' i read in
            let rest =
              publish_files-Kept owner files nodes' out one.still
                (sym (>>=-some _ _ nodes' read) ∙ e) in
            record { still = rest.still; same = rest.same ∙ one.same }
      ]

  publish_nodes-Kept :
      (owners nodes out : List Node)
      → ids nodes ≡ ks
      → publish_nodes owners nodes ≡ some out
      → Kept nodes out
  unfolding publish_nodes
  publish_nodes-Kept [] nodes out i e =
      subst (Kept nodes) (some-injective _ _ e) (record { still = i; same = refl })
  publish_nodes-Kept (d ∷ ds) nodes out i e =
      let files = publish_files d.ip_port d.my_file nodes in
      elim (Option-cases files) [
        | inl null ↦ cc (>>=-none files (publish_nodes ds) null, e)
        | inr (nodes', read) ↦
            let one = publish_files-Kept d.ip_port d.my_file nodes nodes' i read in
            let rest =
              publish_nodes-Kept ds nodes' out one.still (sym (>>=-some _ _ nodes' read) ∙ e) in
            record { still = rest.still; same = rest.same ∙ one.same }
      ]

  -- Whatever the storing of a file at its node keeps, the publishing keeps.
  pub publish-keeps :
      (nodes out : List Node) → ids nodes ≡ ks → publish nodes ≡ some out → F out ≡ F nodes
  unfolding publish
  publish-keeps nodes out i e = (publish_nodes-Kept nodes nodes out i e).same

-- Every member but the file map.
pub publish-field :
    {A : Type 0} (f : Node → A) (j : ℕ) (nodes out : List Node)
    → ((file owner : Bytes) (d : Node) → f (store file owner d) ≡ f d)
    → IsSorted (ids nodes)
    → publish nodes ≡ some out
    → field f j out ≡ field f j nodes
publish-field f j nodes out same sorted e =
    publish-keeps (field f j) (ids nodes) sorted
      (λ file owner l.
        field_kept f (store file owner) (successor (oat_hash file) (ids nodes)) j l
          (same file owner))
      nodes out refl e

known-store_other :
    (file f owner : Bytes) (i dest : ℕ) (nodes : List Node)
    → (file ≡ f → i ≢ dest)
    → known file i (change dest (store f owner) nodes) ≡ known file i nodes
known-store_other file f owner i dest nodes apart = elim (same_or_not file f) [
  | inl same ↦
      field_other (λ d. find file d.my_file_info) (store f owner) dest i nodes
        (apart (eq_of_compare_bytes file f same))
  | inr other ↦
      field_kept (λ d. find file d.my_file_info) (store f owner) dest i nodes
        (λ d. find-insert_other file f owner d.my_file_info other)
]

-- A node that is not responsible for a file learns nothing of it.
pub publish-elsewhere :
    (file : Bytes) (i : ℕ) (nodes out : List Node)
    → i ≢ successor (oat_hash file) (ids nodes)
    → IsSorted (ids nodes)
    → publish nodes ≡ some out
    → known file i out ≡ known file i nodes
publish-elsewhere file i nodes out apart sorted e =
    publish-keeps (known file i) (ids nodes) sorted
      (λ f owner l.
        known-store_other file f owner i (successor (oat_hash f) (ids nodes)) l
          (λ same. subst (λ g. i ≢ successor (oat_hash g) (ids nodes)) same apart))
      nodes out refl e
