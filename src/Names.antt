-- ===== src/Names.antt =====
-- The names of the players online (`WildcardTreeNode` of wildcardtree.cpp), for completion.
-- The map of children is a list with one entry for each character; only whether it has none, one or
-- more entries is ever asked of its order.
pub mod Members
pub mod Removal
pub mod Completion
mod Examples
use projeto_bruxo.Base.{
  ℕ, Bool, true, false, not, ◌&&◌, Option, none, some, List, [], ◌∷◌, ◌++◌, ◌==◌, if◌then◌else◌,
}

mutual
  pub data Node : Type 0 where
    node : Bool → Children → Node

  pub data Children : Type 0 where
    childless : Children
    child : ℕ → Node → Children → Children

-- `WildcardTreeNode::getChild`
unfoldable pub get_child : ℕ → Children → Option Node
get_child c childless = none
get_child c (child d n cs) = if d == c then some n else get_child c cs

-- The map with another child for a character.
unfoldable pub put_child : ℕ → Node → Children → Children
put_child c m childless = child c m childless
put_child c m (child d n cs) =
    let rest = put_child c m cs in if d == c then child d m cs else child d n rest

-- `children.erase`
unfoldable pub erase_child : ℕ → Children → Children
erase_child c childless = childless
erase_child c (child d n cs) =
    let rest = erase_child c cs in if d == c then rest else child d n rest

abbrev pub fresh : Node
fresh = node false childless

-- The child that `addChild` finds or makes, before its breakpoint is set.
unfoldable pub child_or_new : ℕ → Children → Node
child_or_new c cs = elim (get_child c cs) [ none ↦ fresh | some n ↦ n ]

unfoldable pub mark : Bool → Node → Node
mark breakpoint (node b cs) = node breakpoint cs

-- `WildcardTreeNode::insert`, of a name that is not empty.
unfoldable pub insert : List ℕ → Node → Node
insert [] n = n
insert (c ∷ []) (node b cs) = node b (put_child c (mark true (child_or_new c cs)) cs)
insert (c ∷ d ∷ s) (node b cs) = node b (put_child c (insert (d ∷ s) (child_or_new c cs)) cs)

unfoldable pub is_bare : Node → Bool
is_bare (node true cs) = false
is_bare (node false childless) = true
is_bare (node false (child c n cs)) = false

-- `WildcardTreeNode::remove`: none where the name's path is not there; nodes that lead nowhere any
-- more are erased on the way back.
unfoldable pub remove_at : List ℕ → Node → Option Node
remove_at [] n = some (mark false n)
remove_at (c ∷ s) (node b cs) = elim (get_child c cs) [
  | none ↦ none
  | some n ↦ elim (remove_at s n) [
    | none ↦ none
    | some m ↦ some (node b (if is_bare m then erase_child c cs else put_child c m cs))
  ]
]

unfoldable pub remove : List ℕ → Node → Node
remove s n = elim (remove_at s n) [ none ↦ n | some m ↦ m ]

-- `ReturnValue`: the text found, or the two errors; what `result` holds beside an error is dropped.
pub data Found : Type 0 where
  found : List ℕ → Found
  not_online too_ambiguous : Found

unfoldable pub prepend : ℕ → Found → Found
prepend c (found s) = found (c ∷ s)
prepend c not_online = not_online
prepend c too_ambiguous = too_ambiguous

-- The second loop of `findOne`, from a node, with what it appends to the result.
unfoldable pub complete : Node → Found
complete (node b childless) = found []
complete (node true (child c n childless)) = too_ambiguous
complete (node false (child c n childless)) = prepend c (complete n)
complete (node b (child c n (child d m cs))) = too_ambiguous

-- `WildcardTreeNode::findOne`
unfoldable pub find_one : List ℕ → Node → Found
find_one [] n = complete n
find_one (c ∷ q) (node b cs) = elim (get_child c cs) [
  | none ↦ not_online
  | some n ↦ prepend c (find_one q n)
]
