-- ===== src/Container/Examples.antt =====
-- A backpack with a bag of coins: tests, and the theorems at it.
use projeto_bruxo.Base.{
  ℕ, ◌+◌, ◌≡◌, refl, true, false, ◌||◌, none, some, [], ◌∷◌, ◌==◌, if◌then◌else◌, floor_sub32,
  arith,
}
use projeto_bruxo.Base.Int.{pos}
use projeto_bruxo.Container.{
  Heap, Query, no_error, item_weight, get_weight, get_parent_container, add_weight,
  update_item_weight, set_parent, set_items, get_thing_index, internal_add_thing, add_thing,
  add_item_back, remove_part, remove_thing, stands_in, query_add,
}
use projeto_bruxo.Container.Walk.{sum_of, IsTree}
use projeto_bruxo.Container.Linked.{IsFree}
use projeto_bruxo.Container.Changes.{IsWeighed, add_thing-IsWeighed}
use projeto_bruxo.Container.Reweighed.{remove_thing-IsWeighed}
use projeto_bruxo.Container.Queries.{query_add-accepts}

-- Thing 1 is a backpack that holds the bag 2, which holds the coins 3; the sword 4 lies elsewhere.
abbrev pack : Heap
pack = record {
  base_weight = λ x. if x == 1 then 1800 else if x == 2 then 800 else if x == 3 then 10 else 4000;
  stackable = λ x. x == 3;
  count = λ x. if x == 3 then 5 else 1;
  parent = λ x. if x == 2 then some 1 else if x == 3 then some 2 else none;
  is_container = λ x. x == 1 || x == 2;
  itemlist = λ x. if x == 1 then 2 ∷ [] else if x == 2 then 3 ∷ [] else [];
  max_size = λ x. 20;
  total_weight = λ x. if x == 1 then 850 else if x == 2 then 50 else 0;
}

abbrev rank : ℕ → ℕ
rank x = if x == 1 then 3 else if x == 2 then 2 else if x == 3 then 1 else 0

pack-IsTree : IsTree 0 4 rank pack
pack-IsTree = record {
  owned = λ c x k y. ground arith;
  listed = λ c x l k e. ground arith;
  once = λ c k. ground arith;
  higher = λ c x e. ground arith;
  capped = λ c. ground arith;
}

pack-IsWeighed : IsWeighed 4 rank pack
unfolding sum_of get_weight item_weight
pack-IsWeighed = record { tree = pack-IsTree; weighed = record { kept = λ c k. ground arith } }

sword-IsFree : IsFree pack 4
sword-IsFree = record { free = λ q k. ground arith }

-- A sword in the bag weighs on the bag and on the backpack.
sword_weighs : get_weight (add_thing 4 pack 2 (pos 0) 4) 1 ≡ 1800 + 850 + 4000
unfolding add_thing internal_add_thing update_item_weight add_weight set_items set_parent get_weight
    item_weight get_parent_container
sword_weighs = refl

-- Two coins fewer.
coins_weigh : get_weight (remove_thing 4 pack 2 3 2) 1 ≡ 1800 + 830
unfolding remove_thing remove_part get_thing_index update_item_weight add_weight get_weight
    item_weight get_parent_container floor_sub32
coins_weigh = refl

add_thing-IsWeighed_example :
    IsWeighed 4 rank (add_thing 4 pack 2 (pos 0) 4)
    × IsWeighed 4 rank (internal_add_thing 4 pack 2 4)
    × IsWeighed 4 rank (add_item_back 4 pack 2 4)
add_thing-IsWeighed_example =
    add_thing-IsWeighed 4 rank pack 2 4 (pos 0) pack-IsWeighed sword-IsFree (omega arith) refl

remove_thing-IsWeighed_example : IsWeighed 4 rank (remove_thing 4 pack 2 3 2)
remove_thing-IsWeighed_example = remove_thing-IsWeighed 4 rank pack 2 3 2 pack-IsWeighed refl

abbrev asked : Query
asked = record {
  is_item = λ _. true;
  is_pickupable = λ _. true;
  is_moveable = λ _. true;
  child_is_owner = false;
  no_limit = false;
  ignore_not_moveable = false;
  is_invited = true;
  is_top = true;
  top_query_add = no_error;
}

bag-accepts : query_add asked 4 pack 2 true 4 ≡ no_error
unfolding query_add stands_in
bag-accepts = refl

query_add-accepts_example :
    (depth' : ℕ) × (rank' : ℕ → ℕ) × IsWeighed depth' rank' (add_thing depth' pack 2 (pos 0) 4)
query_add-accepts_example =
    query_add-accepts asked 4 rank pack 2 true 4 (pos 0) pack-IsWeighed refl bag-accepts
      sword-IsFree refl
