-- ===== src/Container/Changes.antt =====
-- What is put into a container or taken out of it changes all weights above by its own.
use projeto_bruxo.Base.{
  ℕ, ◌%◌, ◌<◌, ◌≡◌, ap, ◌∙◌, true, some, List, [], ◌∷◌, ◌++◌, if_cases, u32_mod, contains, erase,
  contains-erase, nodup-erase, update, arith,
}
use projeto_bruxo.Base.Int.{ℤ, pos, leb_ℤ}
use projeto_bruxo.Container.{
  Heap, item_weight, get_weight, update_item_weight, set_parent, set_items, negated,
  internal_add_thing, add_thing, add_item_back, remove_whole,
}
use projeto_bruxo.Container.Walk.{
  IsTree, KeepsWeight, update_item_weight-KeepsWeight, update_item_weight-IsTree,
  get_weight-update_item_weight, lists-update_item_weight,
}
use projeto_bruxo.Container.Linked.{
  IsFree, IsGrown, cons-IsGrown, snoc-IsGrown, erase-IsGrown, get_weight-linked,
  is_container-linked, put-IsTree, put-KeepsWeight, taken-IsTree, taken-KeepsWeight,
}

-- Containers that stand in one another as a tree, no deeper than `depth`, each with the weight of what
-- it holds.
pub record IsWeighed (depth : ℕ) (rank : ℕ → ℕ) (h : Heap) : Type 0 where
  pub tree : IsTree 0 depth rank h
  pub weighed : KeepsWeight (λ _. 0) h

module _ (depth : ℕ) (rank : ℕ → ℕ) (h : Heap) (c x : ℕ) where
  linked-IsWeighed :
      (xs : List ℕ)
      → IsWeighed depth rank h
      → IsFree h x
      → rank x < rank c
      → h.is_container c ≡ true
      → IsGrown x (h.itemlist c) xs
      → let h' = set_items (set_parent h x (some c)) c xs in
        IsWeighed depth rank (update_item_weight depth h' c (get_weight h' x))
  linked-IsWeighed xs v f r k g =
      let h' = set_items (set_parent h x (some c)) c xs in
      let t = put-IsTree depth rank h c x xs v.tree f r k g in
      record {
        tree = update_item_weight-IsTree 0 depth rank depth h' c (get_weight h' x) t;
        weighed =
            update_item_weight-KeepsWeight 0 depth rank (λ _. 0) depth h' c (get_weight h' x) t
              (omega arith) (is_container-linked h x c (some c) xs c ∙ k) (omega arith)
              (put-KeepsWeight depth rank h c x xs v.tree r g v.weighed (get_weight h' x)
                (ap (λ w. w % u32_mod) (get_weight-linked h x c (some c) xs x)));
      }

  -- Where the containers stand as a tree and each keeps the weight of what it holds, and a thing
  -- that is in no container is put into one that does not stand in it, by addThing, internalAddThing
  -- or addItemBack: every container still keeps its weight, and they still stand as a tree.
  pub add_thing-IsWeighed :
      (index : ℤ)
      → IsWeighed depth rank h
      → IsFree h x
      → rank x < rank c
      → h.is_container c ≡ true
      → IsWeighed depth rank (add_thing depth h c index x)
        × IsWeighed depth rank (internal_add_thing depth h c x)
        × IsWeighed depth rank (add_item_back depth h c x)
  unfolding add_thing internal_add_thing add_item_back
  add_thing-IsWeighed index v f r k =
      let n = v.tree.once c k in
      let front =
        linked-IsWeighed (x ∷ h.itemlist c) v f r k
          (cons-IsGrown x (h.itemlist c) n (f.free c k)) in
      let back =
        linked-IsWeighed (h.itemlist c ++ x ∷ []) v f r k
          (snoc-IsGrown x (h.itemlist c) n (f.free c k)) in
      (
        if_cases (IsWeighed depth rank) (leb_ℤ (pos (h.max_size c)) index) (λ _. v) (λ _. front),
        front,
        back,
      )

  pub get_weight-below : get_weight h x < u32_mod
  unfolding get_weight item_weight
  get_weight-below = ground arith

  pub remove_whole-IsWeighed :
      IsWeighed depth rank h
      → h.is_container c ≡ true
      → contains x (h.itemlist c) ≡ true
      → IsWeighed depth rank (remove_whole depth h c x)
  unfolding remove_whole
  remove_whole-IsWeighed v k y =
      let w = get_weight h x in
      let h1 = update_item_weight depth h c (negated w) in
      let r : rank x < rank c = v.tree.higher c x (v.tree.owned c x k y) in
      let (el, ek) = lists-update_item_weight depth h c (negated w) c in
      let n = v.tree.once c k in
      let g : IsGrown x (erase x (h.itemlist c)) (h1.itemlist c) =
        rw el (erase-IsGrown x (h.itemlist c) n y) in
      let t = update_item_weight-IsTree 0 depth rank depth h c (negated w) v.tree in
      let kept : KeepsWeight (update (λ _. 0) c w) h1 =
        update_item_weight-KeepsWeight 0 depth rank (update (λ _. 0) c w) depth h c (negated w)
          v.tree (omega arith) k (omega arith)
          (record { kept = λ q a. ground (arith, v.weighed.kept q a, get_weight-below) }) in
      record {
        tree =
            taken-IsTree depth rank h1 c x (erase x (h.itemlist c)) t (ek ∙ k) g
              (nodup-erase x (h.itemlist c) n)
              (ground (arith, contains-erase x x (h.itemlist c) n));
        weighed = taken-KeepsWeight depth rank h1 c x (erase x (h.itemlist c)) g (
            rw
              (get_weight-update_item_weight 0 depth rank depth h c (negated w) x v.tree
                (omega arith) r)
              kept);
      }
