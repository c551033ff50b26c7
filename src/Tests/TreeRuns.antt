-- ===== src/Tests/TreeRuns.antt =====
-- The results on the functions that read a blob, each at one of the blobs.
use dtboverlay.Base.{◌+◌, ◌<◌, ◌^◌, ◌≡◌, ◌-◌, refl, true, not, ◌==◌, arith, none}
use dtboverlay.Base.Every.{every_at}
use dtboverlay.Base.Int.{pos}
use dtboverlay.Fdt.Layout.{field}
use dtboverlay.Fdt.Word.{word}
use dtboverlay.Fdt.Encode.{put32, put_header}
use dtboverlay.Fdt.Read.{spent}
use dtboverlay.Fdt.Walk.{fdt_next_tag, fdt_next_node, node_loop}
use dtboverlay.Fdt.Walk.Pointers.{room}
use dtboverlay.Fdt.Walk.Skip.{length_at}
use dtboverlay.Fdt.Walk.Next.{Ended, fdt_next_tag-Ended}
use dtboverlay.Fdt.Walk.Nodes.{HasLengths, Lands, fdt_next_node-Lands}
use dtboverlay.Fdt.Walk.Loops.{IsStuck, node_loop-spent}
use dtboverlay.Fdt.Write.{pure}
use dtboverlay.Fdt.Overlay.Both.{fdt_for_each_subnode, fdt_for_each_property_offset}
use dtboverlay.Fdt.Overlay.Loops.{for_each-Ended}
use dtboverlay.Fdt.Overlay.Loops as Ends
use dtboverlay.Tests.Trees.{
  two_node_tree, endless_tree, two_node_tree-IsLoaded, endless_tree-IsLoaded,
}

two_nodes_enough : room two_node_tree-IsLoaded + 4 < two_node_tree.fuel
unfolding field word put_header put32
two_nodes_enough = omega arith

fdt_next_tag-Ended_example : Ended two_node_tree-IsLoaded 8 (fdt_next_tag two_node_tree (pos 8))
fdt_next_tag-Ended_example =
    fdt_next_tag-Ended two_node_tree-IsLoaded (omega (arith, two_nodes_enough)) 8 (omega arith)

two_nodes-HasLengths : HasLengths two_node_tree-IsLoaded
unfolding field word put_header put32
two_nodes-HasLengths s low at_prop same =
    let ordinary =
      every_at 60 (λ s'. not (length_at two_node_tree-IsLoaded s' == 2 ^ 32 - 12)) refl s
        (omega arith) in
    absurd (ground (arith, same, ordinary))

fdt_next_node-Lands_example :
    Lands two_node_tree-IsLoaded 1 (fdt_next_node two_node_tree true (pos 0) (pos 0))
fdt_next_node-Lands_example =
    fdt_next_node-Lands two_node_tree-IsLoaded two_nodes_enough two_nodes-HasLengths true 0 (pos 0)
      (omega arith)

endless-IsStuck : IsStuck endless_tree-IsLoaded 8
unfolding field word put_header put32
endless-IsStuck = record { aligned = refl; inside = omega arith; is_prop = refl; wraps = refl }

node_loop-spent_example : node_loop endless_tree 1000000 true (pos 8) (pos 1) ≡ spent
node_loop-spent_example =
    node_loop-spent endless_tree-IsLoaded 8 endless-IsStuck 1000000 true (pos 1)

for_each-Ended_example :
    Ends.Ended
      (λ t. t)
      two_node_tree
      (fdt_for_each_subnode (λ t. t) (λ o. pure none) (pos 0))
      two_node_tree
    × Ends.Ended
        (λ t. t)
        two_node_tree
        (fdt_for_each_property_offset (λ t. t) (λ o. pure none) (pos 0))
        two_node_tree
unfolding pure
for_each-Ended_example =
    for_each-Ended (λ t. t) two_node_tree-IsLoaded two_nodes_enough two_nodes-HasLengths
      (λ o. pure none) (λ o s at. (none, s, refl, at)) 0 (omega arith) two_node_tree refl
