-- ===== src/Container/Linked.antt =====
-- How a tree of containers changes when a thing is put into a container or taken out of it.
use projeto_bruxo.Base.{
  ℕ, ◌+◌, ◌%◌, ◌<◌, ◌≡◌, refl, ap, true, false, ◌||◌, Option, none, some, List, [], ◌∷◌, ◌++◌, ◌==◌,
  ==_iff, u32_mod, contains, nodup, erase, contains-erase, contains-append, nodup-snoc, update,
  Bool-cases, inl, inr, arith,
}
use projeto_bruxo.Container.{Heap, item_weight, get_weight, set_parent, set_items}
use projeto_bruxo.Container.Walk.{sum_of, IsTree, KeepsWeight}

-- In no container.
pub record IsFree (h : Heap) (x : ℕ) : Type 0 where
  pub free : (q : ℕ) → h.is_container q ≡ true → contains x (h.itemlist q) ≡ false

-- Parents and lists have no part in the weight of a thing.
pub get_weight-linked :
    (h : Heap) (x c : ℕ) (o : Option ℕ) (xs : List ℕ) (y : ℕ)
    → get_weight (set_items (set_parent h x o) c xs) y ≡ get_weight h y
unfolding get_weight item_weight set_items set_parent
get_weight-linked h x c o xs y = refl

pub sum_of-linked :
    (h : Heap) (x c : ℕ) (o : Option ℕ) (xs ys : List ℕ)
    → sum_of (set_items (set_parent h x o) c xs) ys ≡ sum_of h ys
unfolding sum_of
sum_of-linked h x c o xs [] = refl
sum_of-linked h x c o xs (y ∷ ys) =
    omega (arith, get_weight-linked h x c o xs y, sum_of-linked h x c o xs ys)

pub is_container-linked :
    (h : Heap) (x c : ℕ) (o : Option ℕ) (xs : List ℕ) (q : ℕ)
    → (set_items (set_parent h x o) c xs).is_container q ≡ h.is_container q
unfolding set_items set_parent
is_container-linked h x c o xs q = refl

-- The same set of things, with one more.
pub record IsGrown (x : ℕ) (xs ys : List ℕ) : Type 0 where
  pub contains_eq : (y : ℕ) → contains y ys ≡ (y == x || contains y xs)
  pub once : nodup ys ≡ true
  pub sum_eq : (h : Heap) → sum_of h ys ≡ get_weight h x + sum_of h xs

pub cons-IsGrown :
    (x : ℕ) (xs : List ℕ) → nodup xs ≡ true → contains x xs ≡ false → IsGrown x xs (x ∷ xs)
unfolding sum_of
cons-IsGrown x xs n f = record { contains_eq = λ y. refl; once = ground arith; sum_eq = λ h. refl }

sum_of-append : (h : Heap) (xs ys : List ℕ) → sum_of h (xs ++ ys) ≡ sum_of h xs + sum_of h ys
unfolding sum_of
sum_of-append h [] ys = omega arith
sum_of-append h (x ∷ xs) ys = omega (arith, sum_of-append h xs ys)

pub snoc-IsGrown :
    (x : ℕ) (xs : List ℕ) → nodup xs ≡ true → contains x xs ≡ false → IsGrown x xs (xs ++ x ∷ [])
unfolding sum_of
snoc-IsGrown x xs n f = record {
  contains_eq = λ y. ground (arith, contains-append y xs (x ∷ []));
  once = nodup-snoc x xs n f;
  sum_eq = λ h. omega (arith, sum_of-append h xs (x ∷ []));
}

pub erase-IsGrown :
    (x : ℕ) (xs : List ℕ) → nodup xs ≡ true → contains x xs ≡ true → IsGrown x (erase x xs) xs
unfolding sum_of erase
erase-IsGrown x xs n f = record {
  contains_eq = λ y. ground (arith, contains-erase y x xs n, ==_iff y x);
  once = n;
  sum_eq = λ h. sum_of-erase h xs f;
}
  where
    sum_of-erase :
        (h : Heap) (ys : List ℕ)
        → contains x ys ≡ true
        → sum_of h ys ≡ get_weight h x + sum_of h (erase x ys)
    sum_of-erase h [] k = cc
    sum_of-erase h (y ∷ ys) k = elim (Bool-cases (x == y)) [
      | inl e ↦ rw e (let same : x ≡ y = ground arith in omega (arith, ap (get_weight h) same))
      | inr m ↦ rw m (omega (arith, sum_of-erase h ys (ground arith)))
    ]

module _ (depth : ℕ) (rank : ℕ → ℕ) (h : Heap) (c x : ℕ) (xs : List ℕ) where
  pub put-IsTree :
      IsTree 0 depth rank h
      → IsFree h x
      → rank x < rank c
      → h.is_container c ≡ true
      → IsGrown x (h.itemlist c) xs
      → IsTree 0 depth rank (set_items (set_parent h x (some c)) c xs)
  unfolding set_items set_parent
  put-IsTree t f r k g = record {
    owned = λ q y a b. ground (arith, t.owned q y, f.free q a, g.contains_eq y);
    listed = λ q y a b e. ground (arith, t.listed q y, g.contains_eq y);
    once = λ q a. ground (arith, t.once q a, g.once);
    higher = λ q y e. ground (arith, t.higher q y);
    capped = t.capped;
  }

  -- The weight that a container lacks once a thing is put into it.
  pub put-KeepsWeight :
      IsTree 0 depth rank h
      → rank x < rank c
      → IsGrown x (h.itemlist c) xs
      → KeepsWeight (λ _. 0) h
      → (d : ℕ) → d % u32_mod ≡ get_weight h x % u32_mod
      → KeepsWeight (update (λ _. 0) c (0 + d)) (set_items (set_parent h x (some c)) c xs)
  unfolding set_items set_parent
  put-KeepsWeight t r g v d e = record {
    kept = λ q a. ground (
      arith,
      v.kept q a,
      e,
      g.sum_eq h,
      sum_of-linked h x c (some c) xs xs,
      sum_of-linked h x c (some c) xs (h.itemlist q),
    );
  }

  pub taken-IsTree :
      IsTree 0 depth rank h
      → h.is_container c ≡ true
      → IsGrown x xs (h.itemlist c)
      → nodup xs ≡ true
      → contains x xs ≡ false
      → IsTree 0 depth rank (set_items (set_parent h x none) c xs)
  unfolding set_items set_parent
  taken-IsTree t k g n f = record {
    owned =
        λ q y a b. ground (arith, t.owned q y a, t.owned c x k, g.contains_eq y, g.contains_eq x);
    listed = λ q y a b e. ground (arith, t.listed q y, g.contains_eq y);
    once = λ q a. ground (arith, t.once q a);
    higher = λ q y e. ground (arith, t.higher q y);
    capped = t.capped;
  }

  -- The weight that a container keeps too much is that of the thing taken out of it.
  pub taken-KeepsWeight :
      IsGrown x xs (h.itemlist c)
      → KeepsWeight (update (λ _. 0) c (get_weight h x)) h
      → KeepsWeight (λ _. 0) (set_items (set_parent h x none) c xs)
  unfolding set_items set_parent
  taken-KeepsWeight g v = record {
    kept = λ q a. ground (
      arith,
      v.kept q a,
      g.sum_eq h,
      sum_of-linked h x c none xs xs,
      sum_of-linked h x c none xs (h.itemlist q),
    );
  }
