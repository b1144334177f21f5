-- ===== src/Creature/Visited.antt =====
-- An execution of a creature's conditions leaves one at most of a key.
use projeto_bruxo.Base.{
  ℕ, ◌≡◌, refl, Bool, true, false, List, [], ◌∷◌, ◌==◌, if_cases, arith, Bool-cases, Option-cases,
  inl, inr, some,
}
use projeto_bruxo.Conditions.{Condition}
use mathlib.Core.Option.{some-injective}
use projeto_bruxo.Creature.{find_handle, Outcome, Entry, Notice}
use projeto_bruxo.Creature.Executing.{store, prune, end_at, executed_at, visit, visit_all}
use projeto_bruxo.Creature.Keys.{
  same_key, has_any, unique, KeepsKey, same_key-IsKeyTest, same_key_left, has_any_cong,
  erase_handle-unique,
}

store-has_any :
    (handle : ℕ) (d : Condition) (p : Condition → Bool) (es : List Entry) (c : Condition)
    → find_handle handle es ≡ some c
    → p d ≡ p c
    → has_any p (store handle d es) ≡ has_any p es
unfolding store find_handle
store-has_any handle d p [] c f k = refl
store-has_any handle d p (e ∷ es) c f k = elim (Bool-cases (e.handle == handle)) [
  | inl here ↦
      let same : some e.condition ≡ some c = rw here at f in
      let q : e.condition ≡ c = some-injective e.condition c same in rw (here, k, q) refl
  | inr there ↦
      let rest : find_handle handle es ≡ some c = rw there at f in
      rw (there, store-has_any handle d p es c rest k) refl
]

store-unique :
    (handle : ℕ) (d : Condition) (es : List Entry) (c : Condition)
    → find_handle handle es ≡ some c
    → KeepsKey c d
    → unique es ≡ true
    → unique (store handle d es) ≡ true
unfolding store find_handle
store-unique handle d [] c f k u = refl
store-unique handle d (e ∷ es) c f k u = elim (Bool-cases (e.handle == handle)) [
  | inl here ↦
      let q : e.condition ≡ c = some-injective e.condition c (rw here at f) in
      let same : has_any (same_key d) es ≡ has_any (same_key e.condition) es =
        rw q (has_any_cong (same_key d) (same_key c) es (λ x. same_key_left c d x k)) in
      rw (here, same) u
  | inr there ↦
      let rest : find_handle handle es ≡ some c = rw there at f in
      let p = same_key e.condition in
      rw (there, store-has_any handle d p es c rest (same_key-IsKeyTest e.condition c d k))
        (ground (arith, store-unique handle d es c rest k))
]

prune-has_any :
    (removes : Entry → Bool) (p : Condition → Bool) (es : List Entry)
    → has_any p es ≡ false
    → has_any p (prune removes es) ≡ false
unfolding prune
prune-has_any removes p [] h = refl
prune-has_any removes p (e ∷ es) h = ground (arith, prune-has_any removes p es)

prune-unique :
    (removes : Entry → Bool) (es : List Entry) → unique es ≡ true → unique (prune removes es) ≡ true
unfolding prune
prune-unique removes [] h = refl
prune-unique removes (e ∷ es) h =
    ground (arith, prune-unique removes es, prune-has_any removes (same_key e.condition) es)

end_at-unique :
    (handle : ℕ) (es : List Entry) → unique es ≡ true → unique (end_at handle es).0 ≡ true
unfolding end_at
end_at-unique handle es u = elim (Option-cases (find_handle handle es)) [
  | inl absent ↦ rw (absent, end_at) u
  | inr (c, present) ↦ rw (present, end_at) (erase_handle-unique handle es u)
]

visit-unique :
    (execute : Condition → Outcome) (handle : ℕ) (es : List Entry)
    → ((c : Condition) → KeepsKey c (execute c).after)
    → unique es ≡ true
    → unique (visit execute handle es).0 ≡ true
unfolding visit executed_at
visit-unique execute handle es h u = elim (Option-cases (find_handle handle es)) [
  | inl absent ↦ rw (absent, visit) u
  | inr (c, present) ↦
      let x = execute c in
      let left = prune x.removes (store handle x.after es) in
      let kept : unique left ≡ true =
        prune-unique x.removes (store handle x.after es)
          (store-unique handle x.after es c present (h c) u) in
      rw (present, visit)
        (if_cases (λ (r : List Entry × List Notice). unique r.0 ≡ true) x.answer (λ a. kept)
          (λ a. end_at-unique handle left kept))
]

pub visit_all-unique :
    (execute : Condition → Outcome) (hs : List ℕ) (es : List Entry)
    → ((c : Condition) → KeepsKey c (execute c).after)
    → unique es ≡ true
    → unique (visit_all execute hs es).0 ≡ true
unfolding visit_all
visit_all-unique execute [] es h u = u
visit_all-unique execute (handle ∷ hs) es h u =
    visit_all-unique execute hs (visit execute handle es).0 h (visit-unique execute handle es h u)
