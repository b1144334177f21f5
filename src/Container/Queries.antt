-- ===== src/Container/Queries.antt =====
-- What `Container::queryAdd` and `Container::queryRemove` allow is safe to do.
use projeto_bruxo.Base.{
  ℕ, zero, suc, ◌+◌, ◌≤◌, ◌<◌, ◌≡◌, ◌≢◌, refl, sym, ap, ◌∙◌, Bool, true, false, ◌||◌, none, some,
  ◌==◌, if◌then◌else◌, Bool-cases, Option-cases, inl, inr, arith,
}
use projeto_bruxo.Base.Int.{ℤ}
use projeto_bruxo.Container.{Heap, Query, no_error, stands_in, query_add, add_thing}
use projeto_bruxo.Container.Walk.{IsTree}
use projeto_bruxo.Container.Linked.{IsFree}
use projeto_bruxo.Container.Changes.{IsWeighed, add_thing-IsWeighed}

true≢false : true ≢ false
true≢false = λ e. cc

-- The steps of the loop.
stands_in-found :
    (depth : ℕ) (h : Heap) (c p x : ℕ)
    → h.parent c ≡ some p
    → (p == x) ≡ true
    → stands_in (suc depth) h c x ≡ true
unfolding stands_in
stands_in-found depth h c p x e k = rw (e, stands_in, k) refl

stands_in-next :
    (depth : ℕ) (h : Heap) (c p x : ℕ)
    → h.parent c ≡ some p
    → (p == x) ≡ false
    → stands_in (suc depth) h c x ≡ stands_in depth h p x
unfolding stands_in
stands_in-next depth h c p x e k = rw (e, stands_in, k) refl

stands_in-none :
    (depth : ℕ) (h : Heap) (c x : ℕ) → h.parent c ≡ none → stands_in (suc depth) h c x ≡ false
unfolding stands_in
stands_in-none depth h c x e = rw (e, stands_in) refl

stands_in-direct :
    (fuel : ℕ) (h : Heap) (c p : ℕ) → 0 < fuel → h.parent c ≡ some p → stands_in fuel h c p ≡ true
stands_in-direct zero h c p f e = absurd (omega arith)
stands_in-direct (suc fuel) h c p f e = stands_in-found fuel h c p p e (ground arith)

-- What a parent stands in, the thing stands in.
stands_in-step :
    (fuel : ℕ) (h : Heap) (c p x : ℕ)
    → h.parent c ≡ some p
    → stands_in fuel h p x ≡ true
    → stands_in (suc fuel) h c x ≡ true
stands_in-step fuel h c p x e k = elim (Bool-cases (p == x)) [
  | inl y ↦ stands_in-found fuel h c p x e y
  | inr n ↦ stands_in-next fuel h c p x e n ∙ k
]

module _ (depth : ℕ) (rank : ℕ → ℕ) (h : Heap) (t : IsTree 0 depth rank h) where
  -- Whatever the container stands in has a parent in which it stands too.
  stands_in-parent :
      (fuel c z q : ℕ)
      → depth ≤ rank c + fuel
      → h.parent z ≡ some q
      → stands_in fuel h c z ≡ true
      → stands_in fuel h c q ≡ true
  unfolding stands_in
  stands_in-parent zero c z q f e k = cc
  stands_in-parent (suc fuel) c z q f e k = elim (Option-cases (h.parent c)) [
    | inl n ↦ absurd (true≢false (sym k ∙ stands_in-none fuel h c z n))
    | inr (p, m) ↦ stands_in-step fuel h c p q m (elim (Bool-cases (p == z)) [
      | inl y ↦
          let same : p ≡ z = ground arith in
          stands_in-direct fuel h p q
            (omega (arith, t.higher p c m, t.higher q z e, t.capped q, ap rank same))
            (ap h.parent same ∙ e)
      | inr o ↦
          stands_in-parent fuel p z q (omega (arith, t.higher p c m)) e
            (sym (stands_in-next fuel h c p z m o) ∙ k)
    ])
  ]

  above : ℕ → ℕ → Bool
  above c z = z == c || stands_in depth h c z

  above-parent : (c z q : ℕ) → h.parent z ≡ some q → above c z ≡ true → above c q ≡ true
  unfolding above
  above-parent c z q e k = elim (Bool-cases (z == c)) [
    | inl y ↦
        let same : z ≡ c = ground arith in
        ground (
          arith,
          stands_in-direct depth h c q (omega (arith, t.capped q)) (sym (ap h.parent same) ∙ e),
        )
    | inr n ↦ ground (arith, stands_in-parent depth c z q (omega arith) e (ground arith))
  ]

  -- With what is above a container raised over a thing that it does not stand in, the tree still is one.
  raised : ℕ → ℕ → ℕ → ℕ
  raised c x z = if above c z then rank z + suc (rank x) else rank z

  raised-IsTree : (c x : ℕ) → IsTree 0 (depth + suc (rank x)) (raised c x) h
  unfolding raised
  raised-IsTree c x = record {
    owned = t.owned;
    listed = λ q z a. t.listed q z (omega arith);
    once = t.once;
    higher = λ q z e. ground (arith, t.higher q z e, above-parent c z q e);
    capped = λ q. ground (arith, t.capped q);
  }

  raised-lt :
      (c x : ℕ) → (x == c) ≡ false → stands_in depth h c x ≡ false → raised c x x < raised c x c
  unfolding raised above
  raised-lt c x n s = ground arith

query_add-apart :
    (q : Query) (depth : ℕ) (h : Heap) (c : ℕ) (wherever : Bool) (x : ℕ)
    → q.child_is_owner ≡ false
    → query_add q depth h c wherever x ≡ no_error
    → ((x == c) ≡ false) × (stands_in depth h c x ≡ false)
unfolding query_add
query_add-apart q depth h c wherever x o e = ground arith

-- Where the containers stand as a tree and each keeps the weight of what it holds, and queryAdd, not
-- asked by an inner container, lets a thing that is in no container into one: after addThing they
-- still stand as a tree, of some depth, so that none holds itself, and each keeps its weight.
pub query_add-accepts :
    (q : Query) (depth : ℕ) (rank : ℕ → ℕ) (h : Heap) (c : ℕ) (wherever : Bool) (x : ℕ) (index : ℤ)
    → IsWeighed depth rank h
    → q.child_is_owner ≡ false
    → query_add q depth h c wherever x ≡ no_error
    → IsFree h x
    → h.is_container c ≡ true
    → (depth' : ℕ) × (rank' : ℕ → ℕ) × IsWeighed depth' rank' (add_thing depth' h c index x)
query_add-accepts q depth rank h c wherever x index v o e f k =
    let (n, s) = query_add-apart q depth h c wherever x o e in
    let depth' = depth + suc (rank x) in
    let rank' = raised depth rank h v.tree c x in
    (
      depth',
      rank',
      (add_thing-IsWeighed depth' rank' h c x index
          (record { tree = raised-IsTree depth rank h v.tree c x; weighed = v.weighed }) f
          (raised-lt depth rank h v.tree c x n s) k).0,
    )
