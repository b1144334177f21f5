-- ===== src/Container/Reweighed.antt =====
-- A thing in a container whose own weight changes, and `Container::removeThing` as a whole.
use projeto_bruxo.Base.{
  ℕ, ◌+◌, ◌%◌, ◌≡◌, refl, Bool, true, false, not, ◌&&◌, some, List, [], ◌∷◌, ◌==◌, if_cases, u8_mod,
  u32_mod, floor_sub32, contains, update, Option-cases, inl, inr, arith,
}
use projeto_bruxo.Container.{
  Heap, item_weight, get_weight, update_item_weight, negated, get_thing_index, update_thing,
  remove_part, remove_thing,
}
use projeto_bruxo.Container.Walk.{
  IsTree, Differs, sum_of_ne, sum_of_changed, update_item_weight-KeepsWeight,
  update_item_weight-IsTree,
}
use projeto_bruxo.Container.Changes.{IsWeighed, get_weight-below, remove_whole-IsWeighed}

abbrev reweighed : Heap → (ℕ → ℕ) → (ℕ → Bool) → (ℕ → ℕ) → Heap
reweighed h b s n = record h { base_weight = b; stackable = s; count = n }

-- Whatever has an index in a list is in the list.
pub get_thing_index-some :
    (x : ℕ) (ys : List ℕ) (i : ℕ) → get_thing_index x ys ≡ some i → contains x ys ≡ true
unfolding get_thing_index
get_thing_index-some x [] i e = cc
get_thing_index-some x (y ∷ ys) i e = elim (Option-cases (get_thing_index x ys)) [
  | inl n ↦ ground arith
  | inr (j, k) ↦ ground (arith, get_thing_index-some x ys j k)
]

get_weight-reweighed :
    (h : Heap) (x y w m : ℕ) (s : Bool)
    → (x == y) ≡ false
    → get_weight
        (reweighed h (update h.base_weight x w) (update h.stackable x s) (update h.count x m))
        y
      ≡ get_weight h y
unfolding get_weight item_weight
get_weight-reweighed h x y w m s n = rw n refl

get_weight-counted :
    (h : Heap) (x y m : ℕ)
    → (x == y) ≡ false
    → get_weight (record h { count = update h.count x m }) y ≡ get_weight h y
unfolding get_weight item_weight
get_weight-counted h x y m n = rw n refl

module _ (depth : ℕ) (rank : ℕ → ℕ) (h : Heap) (c x : ℕ) where
  -- The heap in which the thing weighs something else, before the containers above know of it.
  changed-IsWeighed :
      (b : ℕ → ℕ) (s : ℕ → Bool) (n : ℕ → ℕ)
      → IsWeighed depth rank h
      → h.is_container c ≡ true
      → contains x (h.itemlist c) ≡ true
      → let h' = reweighed h b s n in
        let d = (negated (get_weight h x) + get_weight h' x) % u32_mod in
        ((y : ℕ) → (x == y) ≡ false → get_weight h' y ≡ get_weight h y)
        → IsWeighed depth rank (update_item_weight depth h' c d)
  changed-IsWeighed b s n v k y o =
      let h' = reweighed h b s n in
      let d = (negated (get_weight h x) + get_weight h' x) % u32_mod in
      let below = get_weight-below depth rank h c x in
      let diff : Differs h h' x d = record { others = o; here = omega (arith, below) } in
      let t : IsTree 0 depth rank h' = record {
        owned = v.tree.owned;
        listed = v.tree.listed;
        once = v.tree.once;
        higher = v.tree.higher;
        capped = v.tree.capped;
      } in
      record {
        tree = update_item_weight-IsTree 0 depth rank depth h' c d t;
        weighed =
            update_item_weight-KeepsWeight 0 depth rank (λ _. 0) depth h' c d t (omega arith) k
              (omega arith)
              (record {
                kept = λ q a. ground (
                  arith,
                  v.weighed.kept q a,
                  v.tree.owned c x k y,
                  v.tree.owned q x a,
                  v.tree.once q a,
                  sum_of_ne h h' x d (h.itemlist q) diff,
                  sum_of_changed h h' x d (h.itemlist q) diff,
                );
              });
      }

  remove_part-IsWeighed :
      (n : ℕ)
      → IsWeighed depth rank h
      → h.is_container c ≡ true
      → contains x (h.itemlist c) ≡ true
      → IsWeighed depth rank (remove_part depth h c x n)
  unfolding remove_part
  remove_part-IsWeighed n v k y =
      changed-IsWeighed h.base_weight h.stackable
        (update h.count x (floor_sub32 (h.count x) n % u8_mod)) v k y
        (λ z. get_weight-counted h x z (floor_sub32 (h.count x) n % u8_mod))

  -- Where the containers stand as a tree and each keeps the weight of what it holds: whatever is
  -- asked of removeThing, a part of a stack, a whole thing, or one that is not there, every
  -- container still keeps its weight, and they still stand as a tree.
  pub remove_thing-IsWeighed :
      (n : ℕ)
      → IsWeighed depth rank h
      → h.is_container c ≡ true
      → IsWeighed depth rank (remove_thing depth h c x n)
  unfolding remove_thing
  remove_thing-IsWeighed n v k = elim (Option-cases (get_thing_index x (h.itemlist c))) [
    | inl e ↦ rw (e, remove_thing) v
    | inr (i, e) ↦
        let y = get_thing_index-some x (h.itemlist c) i e in
        rw (e, remove_thing)
          (if_cases (IsWeighed depth rank) (h.stackable x && not (n == h.count x))
            (λ _. remove_part-IsWeighed n v k y)
            (λ _. remove_whole-IsWeighed depth rank h c x v k y))
  ]

  -- Where the containers stand as a tree and each keeps the weight of what it holds: whatever thing
  -- is asked of updateThing to become one of another kind or count, one that is there or not, every
  -- container still keeps its weight, and they still stand as a tree.
  pub update_thing-IsWeighed :
      (base n : ℕ) (stack : Bool)
      → IsWeighed depth rank h
      → h.is_container c ≡ true
      → IsWeighed depth rank (update_thing depth h c x base stack n)
  unfolding update_thing
  update_thing-IsWeighed base n stack v k = elim (Option-cases (get_thing_index x (h.itemlist c))) [
    | inl e ↦ rw (e, update_thing) v
    | inr (i, e) ↦
        rw (e, update_thing)
          (changed-IsWeighed (update h.base_weight x base) (update h.stackable x stack)
            (update h.count x n) v k (get_thing_index-some x (h.itemlist c) i e)
            (λ z. get_weight-reweighed h x z base n stack))
  ]
