-- ===== src/Rbtree/Tests.antt =====
-- The walks on a tree of three nodes: 1 and 4 below 2.
use my_practise.Base.{ℕ, ◌≡◌, refl, none, some, ◌==◌, if◌then◌else◌}
use my_practise.Rbtree.{RbTreeColor, Store, left_most, right_most}
use my_practise.Rbtree.Outermost.{Tree, leaf, node, inorder, size, first, last, outermost_lem}

abbrev store : Store
store p = record {
  color = RbTreeColor.rb_black;
  parent = if p == 2 then none else some 2;
  left = if p == 2 then some 1 else none;
  right = if p == 2 then some 4 else none;
}

abbrev one : Tree
one = node 1 leaf leaf

abbrev four : Tree
four = node 4 leaf leaf

outermost_lem_example :
    (a : ℕ) × (b : ℕ) × (left_most (size (node 2 one four)) store 2 ≡ some a)
    × (first (inorder (node 2 one four)) ≡ some a)
    × (right_most (size (node 2 one four)) store 2 ≡ some b)
    × (last (inorder (node 2 one four)) ≡ some b)
outermost_lem_example =
    outermost_lem store 2 one four (refl, (refl, refl, refl), (refl, refl, refl))
