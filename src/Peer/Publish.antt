-- ===== src/Peer/Publish.antt =====
-- `__init.cpp`: every file goes to the node that is responsible for it, with its owner's address.
pub mod Keeps
pub mod Each
use Prim.Native.Nat.{Ordering}
use assignments_computer_net.Base.{
  ℕ, zero, suc, ◌≡◌, ◌≢◌, refl, sym, ap, subst, ◌∙◌, ◌⊎◌, inl, inr, Option, some, List, [], ◌∷◌,
  arith, ◌>>=◌, >>=-some,
}
use assignments_computer_net.Peer.Text.{Bytes}
use assignments_computer_net.Peer.Map.{
  insert, find, compare_bytes, eq_of_compare_bytes, find-insert_self, find-insert_other,
}
use assignments_computer_net.Peer.Node.{Node, oat_hash}
use assignments_computer_net.Peer.Lookup.{
  ids, IsSorted, map_file_to_node, successor, map_file_to_node-successor,
}
use assignments_computer_net.Peer.Ring.{field, change}
use assignments_computer_net.Peer.Ring.Linked.{field_other}

abbrev pub store : Bytes → Bytes → Node → Node
store file owner d = record d { my_file_info = insert file owner d.my_file_info }

-- A NULL ends the program. The source hashes a copy of the name in a buffer of 2048 bytes; a name from a
-- message has at most 1000.
unfoldable pub publish_file : Bytes → Bytes → List Node → Option (List Node)
publish_file owner file nodes = do
  dest ← map_file_to_node (oat_hash file) nodes
  some (change dest (store file owner) nodes)

unfoldable pub publish_files : Bytes → List Bytes → List Node → Option (List Node)
unfolding publish_file
publish_files owner [] nodes = some nodes
publish_files owner (file ∷ files) nodes = do
  nodes' ← publish_file owner file nodes
  publish_files owner files nodes'

-- The first argument has the nodes from `i` on as the loop found them: it reads their addresses and
-- files only, which it does not write.
unfoldable pub publish_nodes : List Node → List Node → Option (List Node)
unfolding publish_files
publish_nodes [] nodes = some nodes
publish_nodes (d ∷ ds) nodes = do
  nodes' ← publish_files d.ip_port d.my_file nodes
  publish_nodes ds nodes'

unfoldable pub publish : List Node → Option (List Node)
unfolding publish_nodes
publish nodes = publish_nodes nodes nodes

-- The specification: the last of the owners of a file, and `o` if it has none.
abbrev pub newer : Bytes → Bytes → Bytes → Option Bytes → Option Bytes
newer file f owner o = elim (compare_bytes file f) [ Ordering.eq ↦ some owner | _ ↦ o ]

abbrev pub last_of : Bytes → Bytes → List Bytes → Option Bytes → Option Bytes
last_of file owner [] o = o
last_of file owner (f ∷ files) o = last_of file owner files (newer file f owner o)

abbrev pub last_owner : Bytes → List Node → Option Bytes → Option Bytes
last_owner file [] o = o
last_owner file (d ∷ ds) o = last_owner file ds (last_of file d.ip_port d.my_file o)

-- What the node at `i` answers for the file.
abbrev pub known : Bytes → ℕ → List Node → Option (Option Bytes)
known file i nodes = field (λ d. find file d.my_file_info) i nodes

field_changed :
    {A : Type 0} (f : Node → A) (g : Node → Node) (i : ℕ) (nodes : List Node) (a b : A)
    → ((d : Node) → f d ≡ a → f (g d) ≡ b)
    → field f i nodes ≡ some a
    → field f i (change i g nodes) ≡ some b
field_changed f g i [] a b h e = cc
field_changed f g zero (d ∷ nodes) a b h e = ground (arith, h d)
field_changed f g (suc i) (d ∷ nodes) a b h e = field_changed f g i nodes a b h e

pub ids-change :
    (i : ℕ) (file owner : Bytes) (nodes : List Node)
    → ids (change i (store file owner) nodes) ≡ ids nodes
ids-change i file owner [] = refl
ids-change zero file owner (d ∷ nodes) = refl
ids-change (suc i) file owner (d ∷ nodes) = ap (λ l. d.node_id ∷ l) (ids-change i file owner nodes)

pub same_or_not :
    (k j : Bytes) → (compare_bytes k j ≡ Ordering.eq) ⊎ (compare_bytes k j ≢ Ordering.eq)
same_or_not k j = ground arith

pub newer_same :
    (file f owner : Bytes) (o : Option Bytes)
    → compare_bytes file f ≡ Ordering.eq
    → newer file f owner o ≡ some owner
newer_same file f owner o h = rw (h, newer) refl

pub newer_other :
    (file f owner : Bytes) (o : Option Bytes)
    → compare_bytes file f ≢ Ordering.eq
    → newer file f owner o ≡ o
newer_other file f owner o h = ground arith

pub index_same_or_not : (i j : ℕ) → (i ≡ j) ⊎ (i ≢ j)
index_same_or_not i j = ground arith

known-change :
    (file f owner : Bytes) (i dest : ℕ) (nodes : List Node) (o : Option Bytes)
    → (file ≡ f → dest ≡ i)
    → known file i nodes ≡ some o
    → known file i (change dest (store f owner) nodes) ≡ some (newer file f owner o)
known-change file f owner i dest nodes o there e =
    let answers : Node → Option Bytes = λ d. find file d.my_file_info in
    elim (same_or_not file f) [
      | inl same ↦
          let eq : file ≡ f = eq_of_compare_bytes file f same in
          subst (λ k. known file i (change k (store f owner) nodes) ≡ some (newer file f owner o))
            (sym (there eq))
            (field_changed answers (store f owner) i nodes o (newer file f owner o)
              (λ d _.
                ap (λ k. find k (insert f owner d.my_file_info)) eq
                ∙ (find-insert_self f owner d.my_file_info ∙ sym (newer_same file f owner o same)))
              e)
      | inr other ↦
          (elim (index_same_or_not i dest) [
            | inl here ↦
                subst (λ k. known file i (change k (store f owner) nodes) ≡ some o) here
                  (field_changed answers (store f owner) i nodes o o
                    (λ d h. find-insert_other file f owner d.my_file_info other ∙ h) e)
            | inr apart ↦ field_other answers (store f owner) dest i nodes apart ∙ e
          ]
            ∙ ap some (sym (newer_other file f owner o other)))
    ]

-- What a step of the loop gives for one file at the node that is responsible for it.
record Step (file : Bytes) (i : ℕ) (nodes nodes' : List Node) (o : Option Bytes) : Type 0 where
  same_ids : ids nodes' ≡ ids nodes
  knows : known file i nodes' ≡ some o

publish_file-Step :
    (file owner f : Bytes) (i : ℕ) (nodes : List Node) (o : Option Bytes)
    → IsSorted (ids nodes)
    → i ≡ successor (oat_hash file) (ids nodes)
    → known file i nodes ≡ some o
    → (nodes' : List Node) × (publish_file owner f nodes ≡ some nodes')
      × Step file i nodes nodes' (newer file f owner o)
unfolding publish_file
publish_file-Step file owner f i nodes o sorted place e =
    let dest = successor (oat_hash f) (ids nodes) in
    (
      change dest (store f owner) nodes,
      >>=-some _ _ dest (map_file_to_node-successor (oat_hash f) nodes sorted),
      record {
        same_ids = ids-change dest f owner nodes;
        knows =
            known-change file f owner i dest nodes o
              (λ same. ap (λ k. successor (oat_hash k) (ids nodes)) (sym same) ∙ sym place) e;
      },
    )

publish_files-Step :
    (file owner : Bytes) (files : List Bytes) (i : ℕ) (nodes : List Node) (o : Option Bytes)
    → IsSorted (ids nodes)
    → i ≡ successor (oat_hash file) (ids nodes)
    → known file i nodes ≡ some o
    → (nodes' : List Node) × (publish_files owner files nodes ≡ some nodes')
      × Step file i nodes nodes' (last_of file owner files o)
unfolding publish_files
publish_files-Step file owner [] i nodes o sorted place e =
    (nodes, refl, record { same_ids = refl; knows = e })
publish_files-Step file owner (f ∷ files) i nodes o sorted place e =
    let one = publish_file-Step file owner f i nodes o sorted place e in
    let step : Step file i nodes one.0 (newer file f owner o) = one.2 in
    let rest =
      publish_files-Step file owner files i one.0 (newer file f owner o)
        (subst IsSorted (sym step.same_ids) sorted)
        (place ∙ ap (successor (oat_hash file)) (sym step.same_ids)) step.knows in
    let step' : Step file i one.0 rest.0 (last_of file owner (f ∷ files) o) = rest.2 in
    (
      rest.0,
      >>=-some _ _ one.0 one.1 ∙ rest.1,
      record { same_ids = step'.same_ids ∙ step.same_ids; knows = step'.knows },
    )

publish_nodes-Step :
    (file : Bytes) (owners : List Node) (i : ℕ) (nodes : List Node) (o : Option Bytes)
    → IsSorted (ids nodes)
    → i ≡ successor (oat_hash file) (ids nodes)
    → known file i nodes ≡ some o
    → (nodes' : List Node) × (publish_nodes owners nodes ≡ some nodes')
      × Step file i nodes nodes' (last_owner file owners o)
unfolding publish_nodes
publish_nodes-Step file [] i nodes o sorted place e =
    (nodes, refl, record { same_ids = refl; knows = e })
publish_nodes-Step file (d ∷ ds) i nodes o sorted place e =
    let after = last_of file d.ip_port d.my_file o in
    let one = publish_files-Step file d.ip_port d.my_file i nodes o sorted place e in
    let step : Step file i nodes one.0 after = one.2 in
    let rest =
      publish_nodes-Step file ds i one.0 after (subst IsSorted (sym step.same_ids) sorted)
        (place ∙ ap (successor (oat_hash file)) (sym step.same_ids)) step.knows in
    let step' : Step file i one.0 rest.0 (last_owner file (d ∷ ds) o) = rest.2 in
    (
      rest.0,
      >>=-some _ _ one.0 one.1 ∙ rest.1,
      record { same_ids = step'.same_ids ∙ step.same_ids; knows = step'.knows },
    )

-- On nodes sorted by identifiers the publishing of the files never fails, and the node that is
-- responsible for a file answers a search for it with the last of its owners, or with what it
-- knew before if nobody has the file. The identifiers are as before.
pub publish-known :
    (file : Bytes) (nodes : List Node) (o : Option Bytes)
    → IsSorted (ids nodes)
    → known file (successor (oat_hash file) (ids nodes)) nodes ≡ some o
    → (published : List Node) × (publish nodes ≡ some published)
      × (ids published ≡ ids nodes)
      × (known file (successor (oat_hash file) (ids nodes)) published
          ≡ some (last_owner file nodes o))
unfolding publish
publish-known file nodes o sorted e =
    let done =
      publish_nodes-Step file nodes (successor (oat_hash file) (ids nodes)) nodes o sorted refl e in
    let step : Step file _ nodes done.0 (last_owner file nodes o) = done.2 in
    (done.0, done.1, step.same_ids, step.knows)
