-- ===== src/Rbtree.antt =====
-- rbtree/rbtree.hpp: the nodes, the header and the walks to the outermost nodes. The file has no
-- insertion and no removal. A pointer is null or the number of a node.
pub mod Outermost
mod Tests
use my_practise.Base.{ℕ, zero, suc, Option, none, some}

pub data RbTreeColor : Type 0 where
  rb_red rb_black : RbTreeColor

pub record RbTreeNodeBase : Type 0 where
  pub color : RbTreeColor
  pub parent : Option ℕ
  pub left : Option ℕ
  pub right : Option ℕ

abbrev pub Store : Type 0
Store = ℕ → RbTreeNodeBase

-- `leftMost` of a node; none is no return within the fuel.
unfoldable pub left_most : ℕ → Store → ℕ → Option ℕ
left_most zero s p = none
left_most (suc fuel) s p = elim (s p).left [ none ↦ some p | some q ↦ left_most fuel s q ]

-- `rightMost` of a node
unfoldable pub right_most : ℕ → Store → ℕ → Option ℕ
right_most zero s p = none
right_most (suc fuel) s p = elim (s p).right [ none ↦ some p | some q ↦ right_most fuel s q ]

pub record RbTreeHeader : Type 0 where
  pub header : RbTreeNodeBase
  pub node_count : ℕ

-- `resetHeader` of the header at `here`, and its constructor, which sets the same.
unfoldable pub reset_header : ℕ → RbTreeHeader
reset_header here = record {
  header = record {
    color = RbTreeColor.rb_red;
    parent = none;
    left = some here;
    right = some here;
  };
  node_count = 0;
}

pub record RbNode (Val : Type 0) : Type 0 where
  pub base : RbTreeNodeBase
  pub value_field : Val
  pub left : Option ℕ
  pub right : Option ℕ
  pub parent : Option ℕ

-- The members of `RbTree` of these names, on its header.
unfoldable pub root : RbTreeHeader → Option ℕ
root h = h.header.parent

unfoldable pub tree_left_most : RbTreeHeader → Option ℕ
tree_left_most h = h.header.left

unfoldable pub tree_right_most : RbTreeHeader → Option ℕ
tree_right_most h = h.header.right

-- `keyof`
unfoldable pub keyof : {Key Val : Type 0} → (Val → Key) → RbNode Val → Key
keyof key_of_value x = key_of_value x.value_field
