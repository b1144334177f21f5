-- ===== src/Container/Replaced.antt =====
-- `Container::replaceThing`: one thing of a container gives way to another.
use projeto_bruxo.Base.{
  ℕ, zero, suc, ◌+◌, ◌%◌, ◌<◌, ◌≡◌, refl, sym, ap, ◌∙◌, true, false, not, ◌&&◌, ◌||◌, Option, none,
  some, List, [], ◌∷◌, ◌==◌, u32_mod, get_elem?, set, contains, nodup, update, Option-cases, inl,
  inr, arith,
}
use projeto_bruxo.Container.{
  Heap, item_weight, get_weight, get_parent_container, add_weight, update_item_weight, negated,
  set_parent, set_items, replace_thing,
}
use projeto_bruxo.Container.Walk.{
  sum_of, IsTree, KeepsWeight, update_item_weight-KeepsWeight, update_item_weight-IsTree,
}
use projeto_bruxo.Container.Linked.{IsFree}
use projeto_bruxo.Container.Changes.{IsWeighed, get_weight-below}

-- The list in which `x` stands for `y`.
record IsSwapped (x y : ℕ) (xs ys : List ℕ) : Type 0 where
  member : contains y xs ≡ true
  contains_eq : (z : ℕ) → contains z ys ≡ (z == x || contains z xs && not (z == y))
  once : nodup ys ≡ true
  sum_eq : (h : Heap) → sum_of h ys + get_weight h y ≡ sum_of h xs + get_weight h x

get_elem?-contains : (xs : List ℕ) (i y : ℕ) → get_elem? xs i ≡ some y → contains y xs ≡ true
get_elem?-contains [] i y e = cc
get_elem?-contains (a ∷ xs) zero y e = ground arith
get_elem?-contains (a ∷ xs) (suc i) y e = ground (arith, get_elem?-contains xs i y e)

contains-set :
    (xs : List ℕ) (i x y z : ℕ)
    → get_elem? xs i ≡ some y
    → nodup xs ≡ true
    → contains z (set xs i x) ≡ (z == x || contains z xs && not (z == y))
contains-set [] i x y z e n = cc
contains-set (a ∷ xs) zero x y z e n = ground arith
contains-set (a ∷ xs) (suc i) x y z e n =
    ground (arith, contains-set xs i x y z e, get_elem?-contains xs i y e)

nodup-set :
    (xs : List ℕ) (i x y : ℕ)
    → get_elem? xs i ≡ some y
    → nodup xs ≡ true
    → contains x xs ≡ false
    → nodup (set xs i x) ≡ true
nodup-set [] i x y e n f = cc
nodup-set (a ∷ xs) zero x y e n f = ground arith
nodup-set (a ∷ xs) (suc i) x y e n f =
    ground (arith, nodup-set xs i x y e, contains-set xs i x y a e)

sum_of-set :
    (h : Heap) (xs : List ℕ) (i x y : ℕ)
    → get_elem? xs i ≡ some y
    → sum_of h (set xs i x) + get_weight h y ≡ sum_of h xs + get_weight h x
unfolding sum_of
sum_of-set h [] i x y e = cc
sum_of-set h (a ∷ xs) zero x y e = let same : a ≡ y = cc in omega (arith, ap (get_weight h) same)
sum_of-set h (a ∷ xs) (suc i) x y e = omega (arith, sum_of-set h xs i x y e)

set-IsSwapped :
    (xs : List ℕ) (i x y : ℕ)
    → get_elem? xs i ≡ some y
    → nodup xs ≡ true
    → contains x xs ≡ false
    → IsSwapped x y xs (set xs i x)
set-IsSwapped xs i x y e n f = record {
  member = get_elem?-contains xs i y e;
  contains_eq = λ z. contains-set xs i x y z e n;
  once = nodup-set xs i x y e n f;
  sum_eq = λ h. sum_of-set h xs i x y e;
}

get_parent_container-set_parent :
    (h : Heap) (c y : ℕ) (o : Option ℕ)
    → (y == c) ≡ false
    → get_parent_container (set_parent h y o) c ≡ get_parent_container h c
unfolding get_parent_container set_parent
get_parent_container-set_parent h c y o n = rw (n, get_parent_container) refl

get_parent_container-parent :
    (h : Heap) (c p : ℕ) → get_parent_container h c ≡ some p → h.parent c ≡ some p
unfolding get_parent_container
get_parent_container-parent h c p e = ground arith

add_weight-set_parent :
    (h : Heap) (c d y : ℕ) (o : Option ℕ)
    → add_weight (set_parent h y o) c d ≡ set_parent (add_weight h c d) y o
unfolding add_weight set_parent
add_weight-set_parent h c d y o = refl

parent-add_weight : (h : Heap) (c d : ℕ) → (add_weight h c d).parent ≡ h.parent
unfolding add_weight
parent-add_weight h c d = refl

-- The parent of what stands below plays no part in a walk up.
set_parent-update_item_weight :
    (rank : ℕ → ℕ) (fuel : ℕ) (h : Heap) (c d y : ℕ) (o : Option ℕ)
    → ((q z : ℕ) → h.parent z ≡ some q → rank z < rank q)
    → rank y < rank c
    → set_parent (update_item_weight fuel h c d) y o
      ≡ update_item_weight fuel (set_parent h y o) c d
unfolding update_item_weight
set_parent-update_item_weight rank zero h c d y o t r = refl
set_parent-update_item_weight rank (suc fuel) h c d y o t r =
    let same = get_parent_container-set_parent h c y o (ground arith) in
    elim (Option-cases (get_parent_container h c)) [
      | inl e ↦ rw (e, same ∙ e, update_item_weight) (sym (add_weight-set_parent h c d y o))
      | inr (p, e) ↦
          rw (e, same ∙ e, update_item_weight, add_weight-set_parent h c d y o)
            (set_parent-update_item_weight rank fuel (add_weight h c d) p d y o
              (rw (parent-add_weight h c d) t)
              (omega (arith, t p c (get_parent_container-parent h c p e))))
    ]

module _ (depth : ℕ) (rank : ℕ → ℕ) (h : Heap) (c x y : ℕ) (ys : List ℕ) where
  -- The heap in which `x` stands for `y`, before the containers above know of it.
  abbrev swapped : Heap
  unfolding set_items set_parent
  swapped = set_parent (set_parent (set_items h c ys) x (some c)) y none

  get_weight-swapped : (z : ℕ) → get_weight swapped z ≡ get_weight h z
  unfolding get_weight item_weight set_items set_parent
  get_weight-swapped z = refl

  sum_of-swapped : (zs : List ℕ) → sum_of swapped zs ≡ sum_of h zs
  unfolding sum_of
  sum_of-swapped [] = refl
  sum_of-swapped (z ∷ zs) = omega (arith, get_weight-swapped z, sum_of-swapped zs)

  swapped-IsTree :
      IsTree 0 depth rank h
      → IsFree h x
      → rank x < rank c
      → h.is_container c ≡ true
      → IsSwapped x y (h.itemlist c) ys
      → IsTree 0 depth rank swapped
  unfolding set_items set_parent
  swapped-IsTree t f r k g = record {
    owned = λ q z a b. ground (
      arith,
      t.owned q z a,
      t.owned c y k g.member,
      f.free q a,
      f.free c k,
      g.contains_eq z,
      g.member,
    );
    listed = λ q z a b e. ground (arith, t.listed q z, g.contains_eq z);
    once = λ q a. ground (arith, t.once q a, g.once);
    higher = λ q z e. ground (arith, t.higher q z);
    capped = t.capped;
  }

  swapped-KeepsWeight :
      KeepsWeight (λ _. 0) h
      → IsSwapped x y (h.itemlist c) ys
      → KeepsWeight
          (update (λ _. 0) c (0 + (negated (get_weight h y) + get_weight h x) % u32_mod))
          swapped
  unfolding set_items set_parent
  swapped-KeepsWeight v g = record {
    kept = λ q a. ground (
      arith,
      v.kept q a,
      g.sum_eq h,
      sum_of-swapped ys,
      sum_of-swapped (h.itemlist q),
      get_weight-below depth rank h c y,
    );
  }

  walked-IsWeighed :
      IsWeighed depth rank h
      → IsFree h x
      → rank x < rank c
      → rank y < rank c
      → h.is_container c ≡ true
      → IsSwapped x y (h.itemlist c) ys
      → let d = (negated (get_weight h y) + get_weight h x) % u32_mod in
        let h' = set_parent (set_items h c ys) x (some c) in
        IsWeighed depth rank (set_parent (update_item_weight depth h' c d) y none)
  unfolding set_items set_parent
  walked-IsWeighed v f r s k g =
      let d = (negated (get_weight h y) + get_weight h x) % u32_mod in
      let t = swapped-IsTree v.tree f r k g in
      rw
        (set_parent-update_item_weight rank depth (set_parent (set_items h c ys) x (some c)) c d y
          none (λ q z e. ground (arith, v.tree.higher q z)) s)
        (record {
          tree = update_item_weight-IsTree 0 depth rank depth swapped c d t;
          weighed =
              update_item_weight-KeepsWeight 0 depth rank (λ _. 0) depth swapped c d t (omega arith)
                k (omega arith) (swapped-KeepsWeight v.weighed g);
        })

get_weight-put :
    (h : Heap) (c x : ℕ) (ys : List ℕ) (z : ℕ)
    → get_weight (set_parent (set_items h c ys) x (some c)) z ≡ get_weight h z
unfolding get_weight item_weight set_items set_parent
get_weight-put h c x ys z = refl

-- Where the containers stand as a tree and each keeps the weight of what it holds, and a thing that
-- is in no container takes the place of one in a container that does not stand in it: every
-- container still keeps its weight, and they still stand as a tree.
pub replace_thing-IsWeighed :
    (depth : ℕ) (rank : ℕ → ℕ) (h : Heap) (c index x : ℕ)
    → IsWeighed depth rank h
    → IsFree h x
    → rank x < rank c
    → h.is_container c ≡ true
    → IsWeighed depth rank (replace_thing depth h c index x)
unfolding replace_thing
replace_thing-IsWeighed depth rank h c index x v f r k =
    elim (Option-cases (get_elem? (h.itemlist c) index)) [
      | inl e ↦ rw (e, replace_thing) v
      | inr (y, e) ↦
          let ys = set (h.itemlist c) index x in
          let g = set-IsSwapped (h.itemlist c) index x y e (v.tree.once c k) (f.free c k) in
          rw (e, replace_thing, get_weight-put h c x ys y, get_weight-put h c x ys x)
            (walked-IsWeighed depth rank h c x y ys v f r
              (v.tree.higher c y (v.tree.owned c y k g.member)) k g)
    ]
