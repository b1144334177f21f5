-- ===== src/Container.antt =====
-- Containers (container.cpp): what they hold, and the weight that each keeps of it.
-- Things are numbers into an explicit heap; a parent that is no container (a tile, a player) is a
-- thing too. What clients are told of a change is not modelled.
-- `depth` is how deep containers stand in one another: the loops up the parents make so many steps.
pub mod Walk
pub mod Linked
pub mod Changes
pub mod Reweighed
pub mod Replaced
pub mod Queries
mod Examples
use projeto_bruxo.Base.{
  ℕ, zero, suc, ◌+◌, ◌-◌, ◌*◌, ◌%◌, Bool, true, false, not, ◌&&◌, ◌||◌, Option, none, some, List,
  [], ◌∷◌, ◌++◌, max, ltb, leb, ◌==◌, if◌then◌else◌, u8_mod, u32_mod, floor_sub32, length,
  get_elem?, set, contains, erase, update,
}
use projeto_bruxo.Base.Int.{ℤ, pos, leb_ℤ}

pub record Heap : Type 0 where
  -- `getBaseWeight`, `isStackable` and `getItemCount`
  pub base_weight : ℕ → ℕ
  pub stackable : ℕ → Bool
  pub count : ℕ → ℕ
  pub parent : ℕ → Option ℕ
  -- `getContainer() != nullptr`; the rest are fields of `Container`.
  pub is_container : ℕ → Bool
  pub itemlist : ℕ → List ℕ
  pub max_size : ℕ → ℕ
  pub total_weight : ℕ → ℕ

-- `Item::getWeight`
unfoldable pub item_weight : Heap → ℕ → ℕ
item_weight h x =
    if h.stackable x
    then h.base_weight x * max 1 (h.count x) % u32_mod
    else h.base_weight x % u32_mod

-- `getWeight`, of an item or of a container.
unfoldable pub get_weight : Heap → ℕ → ℕ
get_weight h x =
    if h.is_container x then (item_weight h x + h.total_weight x) % u32_mod else item_weight h x

-- `Container::getParentContainer`
unfoldable pub get_parent_container : Heap → ℕ → Option ℕ
get_parent_container h c = elim (h.parent c) [
  | none ↦ none
  | some p ↦ if h.is_container p then some p else none
]

unfoldable pub add_weight : Heap → ℕ → ℕ → Heap
add_weight h c diff = record h {
  total_weight = update h.total_weight c ((h.total_weight c + diff) % u32_mod);
}

-- `Container::updateItemWeight`; a negative `diff` is its pattern of 32 bits.
unfoldable pub update_item_weight : ℕ → Heap → ℕ → ℕ → Heap
update_item_weight zero h c diff = h
update_item_weight (suc depth) h c diff = elim (get_parent_container h c) [
  | none ↦ add_weight h c diff
  | some p ↦ update_item_weight depth (add_weight h c diff) p diff
]

abbrev pub negated : ℕ → ℕ
negated w = u32_mod - w

unfoldable pub set_parent : Heap → ℕ → Option ℕ → Heap
set_parent h x o = record h { parent = update h.parent x o }

unfoldable pub set_items : Heap → ℕ → List ℕ → Heap
set_items h c xs = record h { itemlist = update h.itemlist c xs }

-- `Container::getThingIndex`
unfoldable pub get_thing_index : ℕ → List ℕ → Option ℕ
get_thing_index x [] = none
get_thing_index x (y ∷ ys) =
    let rest : Option ℕ = elim (get_thing_index x ys) [ none ↦ none | some i ↦ some (suc i) ] in
    if y == x then some 0 else rest

-- `Container::internalAddThing`
unfoldable pub internal_add_thing : ℕ → Heap → ℕ → ℕ → Heap
internal_add_thing depth h c x =
    let h' = set_items (set_parent h x (some c)) c (x ∷ h.itemlist c) in
    update_item_weight depth h' c (get_weight h' x)

-- `Container::addThing`
unfoldable pub add_thing : ℕ → Heap → ℕ → ℤ → ℕ → Heap
add_thing depth h c index x =
    if leb_ℤ (pos (h.max_size c)) index then h else internal_add_thing depth h c x

-- `Container::addItemBack`
unfoldable pub add_item_back : ℕ → Heap → ℕ → ℕ → Heap
add_item_back depth h c x =
    let h' = set_items (set_parent h x (some c)) c (h.itemlist c ++ x ∷ []) in
    update_item_weight depth h' c (get_weight h' x)

-- `Container::replaceThing`
unfoldable pub replace_thing : ℕ → Heap → ℕ → ℕ → ℕ → Heap
replace_thing depth h c index x = elim (get_elem? (h.itemlist c) index) [
  | none ↦ h
  | some y ↦
      let h' = set_parent (set_items h c (set (h.itemlist c) index x)) x (some c) in
      set_parent
        (update_item_weight depth h' c ((negated (get_weight h' y) + get_weight h' x) % u32_mod)) y
        none
]

-- `Container::updateThing`, with the weight and the count that the new kind and subtype give.
unfoldable pub update_thing : ℕ → Heap → ℕ → ℕ → ℕ → Bool → ℕ → Heap
update_thing depth h c x base stack n = elim (get_thing_index x (h.itemlist c)) [
  | none ↦ h
  | some i ↦
      let h' = record h {
        base_weight = update h.base_weight x base;
        stackable = update h.stackable x stack;
        count = update h.count x n;
      } in
      update_item_weight depth h' c ((negated (get_weight h x) + get_weight h' x) % u32_mod)
]

-- `Container::removeThing`: a part of a stack, or the whole item.
unfoldable pub remove_part : ℕ → Heap → ℕ → ℕ → ℕ → Heap
remove_part depth h c x n =
    let h' = record h { count = update h.count x (floor_sub32 (h.count x) n % u8_mod) } in
    update_item_weight depth h' c ((negated (get_weight h x) + get_weight h' x) % u32_mod)

unfoldable pub remove_whole : ℕ → Heap → ℕ → ℕ → Heap
remove_whole depth h c x =
    let h' = set_parent (update_item_weight depth h c (negated (get_weight h x))) x none in
    set_items h' c (erase x (h.itemlist c))

unfoldable pub remove_thing : ℕ → Heap → ℕ → ℕ → ℕ → Heap
remove_thing depth h c x n = elim (get_thing_index x (h.itemlist c)) [
  | none ↦ h
  | some i ↦
      if h.stackable x && not (n == h.count x)
      then remove_part depth h c x n
      else remove_whole depth h c x
]

pub data ReturnValue : Type 0 where
  no_error not_possible cannot_pickup this_is_impossible container_not_enough_room : ReturnValue
  player_is_not_invited not_moveable : ReturnValue
  -- What the owner of the outermost container answers.
  refused : ℕ → ReturnValue

-- What a query asks of the thing, the flags, the house and the owner of the outermost container.
pub record Query : Type 0 where
  pub is_item : ℕ → Bool
  pub is_pickupable : ℕ → Bool
  pub is_moveable : ℕ → Bool
  pub child_is_owner : Bool
  pub no_limit : Bool
  pub ignore_not_moveable : Bool
  -- `actor`, the configuration and `House::isInvited` together
  pub is_invited : Bool
  -- `topParent == this`, and its `queryAdd` if not
  pub is_top : Bool
  pub top_query_add : ReturnValue

-- The loop up the parents: does the container stand in the thing?
unfoldable pub stands_in : ℕ → Heap → ℕ → ℕ → Bool
stands_in zero h c x = false
stands_in (suc depth) h c x = elim (h.parent c) [
  | none ↦ false
  | some p ↦ elim (p == x) [ true ↦ true | false ↦ stands_in depth h p x ]
]

-- `Container::queryAdd`; `wherever` is `index == INDEX_WHEREEVER`.
unfoldable pub query_add : Query → ℕ → Heap → ℕ → Bool → ℕ → ReturnValue
query_add q depth h c wherever x =
    if q.child_is_owner
    then no_error
    else if not (q.is_item x)
    then not_possible
    else if not (q.is_pickupable x)
    then cannot_pickup
    else if x == c
    then this_is_impossible
    else if stands_in depth h c x
    then this_is_impossible
    else if not q.no_limit && wherever && leb (h.max_size c) (length (h.itemlist c))
    then container_not_enough_room
    else if not q.is_invited
    then player_is_not_invited
    else if not q.is_top
    then q.top_query_add
    else no_error

-- `Container::queryRemove`
unfoldable pub query_remove : Query → Heap → ℕ → ℕ → ℕ → ReturnValue
query_remove q h c x n = elim (get_thing_index x (h.itemlist c)) [
  | none ↦ not_possible
  | some i ↦
      if not (q.is_item x)
      then not_possible
      else if n == 0 || h.stackable x && ltb (h.count x) n
      then not_possible
      else if not (q.is_moveable x) && not q.ignore_not_moveable
      then not_moveable
      else if not q.is_invited
      then player_is_not_invited
      else no_error
]
