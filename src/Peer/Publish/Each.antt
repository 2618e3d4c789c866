-- ===== src/Peer/Publish/Each.antt =====
-- A property of each node that the publishing of the files keeps.
use mathlib.Core.Option.{some-injective}
use assignments_computer_net.Base.{
  ◌≡◌, sym, subst, ◌∙◌, inl, inr, some, List, [], ◌∷◌, >>=-some, Option-cases, arith,
}
use assignments_computer_net.Peer.Text.{Bytes, All}
use assignments_computer_net.Peer.Node.{Node, oat_hash}
use assignments_computer_net.Peer.Lookup.{map_file_to_node}
use assignments_computer_net.Peer.Ring.Keeps.{change-All}
use assignments_computer_net.Peer.Publish.{
  store, publish_file, publish_files, publish_nodes, publish,
}

module _ (Q : Node → Type 0) (W : Bytes → Type 0) (address : (d : Node) → Q d → W d.ip_port)
    (files : (d : Node) → Q d → All W d.my_file)
    (stored : (file owner : Bytes) (d : Node)
      → W file
      → W owner
      → Q d
      → Q (store file owner d)) where
  publish_file-All :
      (owner file : Bytes) (nodes out : List Node)
      → W owner
      → W file
      → All Q nodes
      → publish_file owner file nodes ≡ some out
      → All Q out
  unfolding publish_file
  publish_file-All owner file nodes out o f qs e =
      elim (Option-cases (map_file_to_node (oat_hash file) nodes)) [
        | inl null ↦ absurd (ground (arith, null))
        | inr (dest, found) ↦
            subst (All Q) (some-injective _ _ (sym (>>=-some _ _ dest found) ∙ e))
              (change-All Q dest (store file owner) nodes (λ d q. stored file owner d f o q) qs)
      ]

  publish_files-All :
      (owner : Bytes) (fs : List Bytes) (nodes out : List Node)
      → W owner
      → All W fs
      → All Q nodes
      → publish_files owner fs nodes ≡ some out
      → All Q out
  unfolding publish_files
  publish_files-All owner [] nodes out o ws qs e = subst (All Q) (some-injective _ _ e) qs
  publish_files-All owner (f ∷ fs) nodes out o ws qs e =
      elim (Option-cases (publish_file owner f nodes)) [
        | inl null ↦ absurd (ground (arith, null))
        | inr (nodes', read) ↦
            publish_files-All owner fs nodes' out o ws.1
              (publish_file-All owner f nodes nodes' o ws.0 qs read)
              (sym (>>=-some _ _ nodes' read) ∙ e)
      ]

  publish_nodes-All :
      (owners nodes out : List Node)
      → All Q owners
      → All Q nodes
      → publish_nodes owners nodes ≡ some out
      → All Q out
  unfolding publish_nodes
  publish_nodes-All [] nodes out os qs e = subst (All Q) (some-injective _ _ e) qs
  publish_nodes-All (d ∷ ds) nodes out os qs e =
      elim (Option-cases (publish_files d.ip_port d.my_file nodes)) [
        | inl null ↦ absurd (ground (arith, null))
        | inr (nodes', read) ↦
            publish_nodes-All ds nodes' out os.1
              (publish_files-All d.ip_port d.my_file nodes nodes' (address d os.0) (files d os.0) qs
                read)
              (sym (>>=-some _ _ nodes' read) ∙ e)
      ]

  pub publish-All : (nodes out : List Node) → All Q nodes → publish nodes ≡ some out → All Q out
  unfolding publish
  publish-All nodes out qs e = publish_nodes-All nodes nodes out qs qs e
