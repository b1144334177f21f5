-- ===== src/Container/Walk.antt =====
-- `updateItemWeight` walks up the containers and sets each weight right.
use projeto_bruxo.Base.{
  ℕ, zero, suc, ◌+◌, ◌%◌, ◌≤◌, ◌<◌, ◌≡◌, refl, ap, ◌∙◌, true, false, none, some, List, [], ◌∷◌,
  ◌==◌, if◌then◌else◌, u32_mod, contains, nodup, update, Bool-cases, Option-cases, inl, inr, arith,
}
use projeto_bruxo.Container.{
  Heap, item_weight, get_weight, get_parent_container, add_weight, update_item_weight,
}

-- The weight of a list of things, which no word bounds.
unfoldable pub sum_of : Heap → List ℕ → ℕ
sum_of h [] = 0
sum_of h (x ∷ xs) = get_weight h x + sum_of h xs

-- Parents and lists agree, from things of rank `low` on: what is listed has the container for its
-- parent, and back; nothing is listed twice; a parent has a higher rank, and ranks are below `depth`.
pub record IsTree (low depth : ℕ) (rank : ℕ → ℕ) (h : Heap) : Type 0 where
  pub owned :
      (c x : ℕ) → h.is_container c ≡ true → contains x (h.itemlist c) ≡ true → h.parent x ≡ some c
  pub listed :
      (c x : ℕ)
      → low ≤ rank x
      → h.is_container c ≡ true
      → h.parent x ≡ some c
      → contains x (h.itemlist c) ≡ true
  pub once : (c : ℕ) → h.is_container c ≡ true → nodup (h.itemlist c) ≡ true
  pub higher : (c x : ℕ) → h.parent x ≡ some c → rank x < rank c
  pub capped : (c : ℕ) → rank c < depth

-- Each container keeps the weight of what it holds, but for an error that is known.
pub record KeepsWeight (error : ℕ → ℕ) (h : Heap) : Type 0 where
  pub kept :
      (c : ℕ)
      → h.is_container c ≡ true
      → (h.total_weight c + error c) % u32_mod ≡ sum_of h (h.itemlist c) % u32_mod

item_weight-add_weight : (h : Heap) (c d x : ℕ) → item_weight (add_weight h c d) x ≡ item_weight h x
unfolding item_weight add_weight
item_weight-add_weight h c d x = refl

get_weight-add_weight_ne :
    (h : Heap) (c d x : ℕ) → (c == x) ≡ false → get_weight (add_weight h c d) x ≡ get_weight h x
unfolding get_weight add_weight
get_weight-add_weight_ne h c d x n = ground (arith, item_weight-add_weight h c d x)

get_weight-add_weight :
    (h : Heap) (c d x : ℕ)
    → h.is_container c ≡ true
    → (c == x) ≡ true
    → get_weight (add_weight h c d) x % u32_mod ≡ (get_weight h x + d) % u32_mod
unfolding get_weight add_weight
get_weight-add_weight h c d x k e =
    let same : c ≡ x = ground arith in
    ground (arith, item_weight-add_weight h c d x, ap h.is_container same, ap h.total_weight same)

-- Two heaps in which one thing's weight differs by `d`, and no other's.
pub record Differs (h h' : Heap) (x d : ℕ) : Type 0 where
  pub others : (y : ℕ) → (x == y) ≡ false → get_weight h' y ≡ get_weight h y
  pub here : get_weight h' x % u32_mod ≡ (get_weight h x + d) % u32_mod

pub sum_of_ne :
    (h h' : Heap) (x d : ℕ) (ys : List ℕ)
    → Differs h h' x d
    → contains x ys ≡ false
    → sum_of h' ys ≡ sum_of h ys
unfolding sum_of
sum_of_ne h h' x d [] v n = refl
sum_of_ne h h' x d (y ∷ ys) v n = ground (arith, v.others y, sum_of_ne h h' x d ys v)

pub sum_of_changed :
    (h h' : Heap) (x d : ℕ) (ys : List ℕ)
    → Differs h h' x d
    → contains x ys ≡ true
    → nodup ys ≡ true
    → sum_of h' ys % u32_mod ≡ (sum_of h ys + d) % u32_mod
unfolding sum_of
sum_of_changed h h' x d [] v k n = cc
sum_of_changed h h' x d (y ∷ ys) v k n = elim (Bool-cases (x == y)) [
  | inl e ↦
      let same : x ≡ y = ground arith in
      let alone : contains x ys ≡ false = ground (arith, ap (λ z. contains z ys) same) in
      omega (
        arith,
        v.here,
        ap (get_weight h) same,
        ap (get_weight h') same,
        sum_of_ne h h' x d ys v alone,
      )
  | inr m ↦ omega (arith, v.others y m, sum_of_changed h h' x d ys v (ground arith) (ground arith))
]

add_weight-Differs :
    (h : Heap) (c d : ℕ) → h.is_container c ≡ true → Differs h (add_weight h c d) c d
add_weight-Differs h c d k = record {
  others = get_weight-add_weight_ne h c d;
  here = get_weight-add_weight h c d c k (ground arith);
}

module _ (low depth : ℕ) (rank : ℕ → ℕ) where
  pub add_weight-IsTree :
      (h : Heap) (c d : ℕ) → IsTree low depth rank h → IsTree low depth rank (add_weight h c d)
  unfolding add_weight
  add_weight-IsTree h c d t = record {
    owned = t.owned;
    listed = t.listed;
    once = t.once;
    higher = t.higher;
    capped = t.capped;
  }

  total-add_weight :
      (h : Heap) (c d q : ℕ)
      → (add_weight h c d).total_weight q
        ≡ (if c == q then (h.total_weight c + d) % u32_mod else h.total_weight q)
  unfolding add_weight
  total-add_weight h c d q = refl

  lists-apart :
      (h : Heap) (c q : ℕ)
      → IsTree low depth rank h
      → h.is_container q ≡ true
      → contains c (h.itemlist q) ≡ true
      → (c == q) ≡ false
  lists-apart h c q t g y = ground (arith, t.higher q c (t.owned q c g y))

  -- After one step the error is that of whatever lists the container.
  step_kept :
      (error : ℕ → ℕ) (h : Heap) (c d q : ℕ)
      → IsTree low depth rank h
      → h.is_container c ≡ true
      → KeepsWeight (update error c (error c + d)) h
      → h.is_container q ≡ true
      → ((add_weight h c d).total_weight q
            + (if contains c (h.itemlist q) then error q + d else error q))
          % u32_mod
        ≡ sum_of (add_weight h c d) (h.itemlist q) % u32_mod
  step_kept error h c d q t k v g = elim (Bool-cases (contains c (h.itemlist q))) [
    | inl y ↦ rw y (
        omega (
          arith,
          total_ne (apart y),
          v.kept q g,
          error_ne (apart y),
          sum_of_changed h (add_weight h c d) c d (h.itemlist q) (add_weight-Differs h c d k) y
              (t.once q g),
        ))
    | inr n ↦ rw n (elim (Bool-cases (c == q)) [
      | inl e ↦
          let same : c ≡ q = ground arith in
          ground (
            arith,
            total-add_weight h c d q,
            v.kept q g,
            ap h.total_weight same,
            ap error same,
            sum_of_ne h (add_weight h c d) c d (h.itemlist q) (add_weight-Differs h c d k) n,
          )
      | inr m ↦ omega (
        arith,
        total_ne m,
        v.kept q g,
        error_ne m,
        sum_of_ne h (add_weight h c d) c d (h.itemlist q) (add_weight-Differs h c d k) n,
      )
    ])
  ]
    where
      total_ne : (c == q) ≡ false → (add_weight h c d).total_weight q ≡ h.total_weight q
      total_ne m = ground (arith, total-add_weight h c d q)

      error_ne : (c == q) ≡ false → update error c (error c + d) q ≡ error q
      error_ne m = rw m refl

      apart : contains c (h.itemlist q) ≡ true → (c == q) ≡ false
      apart y = lists-apart h c q t g y

  lists-parent :
      (h : Heap) (c q : ℕ)
      → IsTree low depth rank h
      → h.is_container q ≡ true
      → contains c (h.itemlist q) ≡ true
      → get_parent_container h c ≡ some q
  unfolding get_parent_container
  lists-parent h c q t g y = ground (arith, t.owned q c g y)

  parent_lists :
      (h : Heap) (c p : ℕ)
      → IsTree low depth rank h
      → low ≤ rank c
      → get_parent_container h c ≡ some p
      → (h.is_container p ≡ true) × (contains c (h.itemlist p) ≡ true) × (rank c < rank p)
  unfolding get_parent_container
  parent_lists h c p t l e = ground (arith, t.listed p c l, t.higher p c)

  topmost-KeepsWeight :
      (error : ℕ → ℕ) (h : Heap) (c d : ℕ)
      → IsTree low depth rank h
      → h.is_container c ≡ true
      → KeepsWeight (update error c (error c + d)) h
      → get_parent_container h c ≡ none
      → KeepsWeight error (add_weight h c d)
  unfolding add_weight
  topmost-KeepsWeight error h c d t k v e = record {
    kept = λ q g. ground (arith, step_kept error h c d q t k v g, lists-parent h c q t g);
  }

  below-KeepsWeight :
      (error : ℕ → ℕ) (h : Heap) (c d p : ℕ)
      → IsTree low depth rank h
      → low ≤ rank c
      → h.is_container c ≡ true
      → KeepsWeight (update error c (error c + d)) h
      → get_parent_container h c ≡ some p
      → KeepsWeight (update error p (error p + d)) (add_weight h c d)
  unfolding add_weight
  below-KeepsWeight error h c d p t l k v e = record {
    kept = λ q g.
        ground (
          arith,
          step_kept error h c d q t k v g,
          lists-parent h c q t g,
          parent_lists h c p t l e,
        );
  }

  -- Walking up from a container sets right what was wrong by `d` there, and leaves the tree alone.
  pub update_item_weight-KeepsWeight :
      (error : ℕ → ℕ) (fuel : ℕ) (h : Heap) (c d : ℕ)
      → IsTree low depth rank h
      → low ≤ rank c
      → h.is_container c ≡ true
      → depth ≤ rank c + fuel
      → KeepsWeight (update error c (error c + d)) h
      → KeepsWeight error (update_item_weight fuel h c d)
  unfolding update_item_weight add_weight
  update_item_weight-KeepsWeight error zero h c d t l k f v = absurd (omega (arith, t.capped c))
  update_item_weight-KeepsWeight error (suc fuel) h c d t l k f v =
      elim (Option-cases (get_parent_container h c)) [
        | inl e ↦ rw (e, update_item_weight) (topmost-KeepsWeight error h c d t k v e)
        | inr (p, e) ↦
            let (g, y, r) = parent_lists h c p t l e in
            rw (e, update_item_weight)
              (update_item_weight-KeepsWeight error fuel (add_weight h c d) p d
                (add_weight-IsTree h c d t) (omega arith) g (omega arith)
                (below-KeepsWeight error h c d p t l k v e))
      ]

  pub update_item_weight-IsTree :
      (fuel : ℕ) (h : Heap) (c d : ℕ)
      → IsTree low depth rank h
      → IsTree low depth rank (update_item_weight fuel h c d)
  unfolding update_item_weight
  update_item_weight-IsTree zero h c d t = t
  update_item_weight-IsTree (suc fuel) h c d t = elim (Option-cases (get_parent_container h c)) [
    | inl e ↦ rw (e, update_item_weight) (add_weight-IsTree h c d t)
    | inr (p, e) ↦
        rw (e, update_item_weight)
          (update_item_weight-IsTree fuel (add_weight h c d) p d (add_weight-IsTree h c d t))
  ]

  -- What stands below the container weighs what it did.
  pub get_weight-update_item_weight :
      (fuel : ℕ) (h : Heap) (c d y : ℕ)
      → IsTree low depth rank h
      → low ≤ rank c
      → rank y < rank c
      → get_weight (update_item_weight fuel h c d) y ≡ get_weight h y
  unfolding update_item_weight
  get_weight-update_item_weight zero h c d y t l r = refl
  get_weight-update_item_weight (suc fuel) h c d y t l r =
      let n : (c == y) ≡ false = ground arith in
      elim (Option-cases (get_parent_container h c)) [
        | inl e ↦ rw (e, update_item_weight) (get_weight-add_weight_ne h c d y n)
        | inr (p, e) ↦
            let (g, k, s) = parent_lists h c p t l e in
            rw (e, update_item_weight)
              (get_weight-update_item_weight fuel (add_weight h c d) p d y
                  (add_weight-IsTree h c d t) (omega arith) (omega arith)
                ∙ get_weight-add_weight_ne h c d y n)
      ]

-- The walk leaves the lists alone.
pub lists-update_item_weight :
    (fuel : ℕ) (h : Heap) (c d q : ℕ)
    → let h' = update_item_weight fuel h c d in
      (h'.itemlist q ≡ h.itemlist q) × (h'.is_container q ≡ h.is_container q)
unfolding update_item_weight add_weight
lists-update_item_weight zero h c d q = (refl, refl)
lists-update_item_weight (suc fuel) h c d q = elim (Option-cases (get_parent_container h c)) [
  | inl e ↦ rw (e, update_item_weight) (refl, refl)
  | inr (p, e) ↦ rw (e, update_item_weight) (lists-update_item_weight fuel (add_weight h c d) p d q)
]
