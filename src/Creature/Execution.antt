-- ===== src/Creature/Execution.antt =====
-- What `Creature::executeConditions` leaves, against going through the conditions themselves.
use projeto_bruxo.Base.{
  ℕ, ◌≡◌, refl, ap, sym, ◌∙◌, Bool, true, false, not, ◌&&◌, ◌||◌, List, [], ◌∷◌, ◌++◌, ◌==◌,
  if◌then◌else◌, if_cases, Bool-cases, inl, inr, arith, contains, nodup,
}
use mathlib.Core.List.{append_assoc, append-nil}
use projeto_bruxo.Conditions.{Condition}
use projeto_bruxo.Creature.{
  Behaviour, Outcome, Entry, Notice, Creature, with_conditions, notify, handles,
}
use projeto_bruxo.Creature.Executing.{
  store, prune, ends, end_at, executed_at, visit, visit_all, execute_conditions,
}
use projeto_bruxo.Creature.Behind.{
  contains_both, find_handle-absent, find_handle-behind, store-behind, end_at-absent, end_at-behind,
  prune-append, prune-prune, prune-none, prune-contains,
}

-- What an execution leaves of its own condition.
unfoldable pub kept_of : Outcome → Entry → List Entry
kept_of x e =
    let after = record e { condition = x.after } in
    if x.answer && not (x.removes after) then after ∷ [] else []

-- The conditions are gone through in order: those behind are done, and some of those ahead are gone.
unfoldable pub iterate :
    (Condition → Outcome) → List Entry → (Entry → Bool) → List Entry → List Entry
iterate execute done gone [] = done
iterate execute done gone (e ∷ todo) =
    let x = execute e.condition in
    elim (gone e) [
      | true ↦ iterate execute done gone todo
      | false ↦
          iterate execute (prune x.removes done ++ kept_of x e) (λ d. gone d || x.removes d) todo
    ]

executed-cases :
    (x : Outcome) (e : Entry) (done es : List Entry) (told more : List Notice)
    → contains e.handle (handles done) ≡ false
    → contains e.handle (handles (prune x.removes es)) ≡ false
    → let left = done ++ prune x.removes (record e { condition = x.after } ∷ es) in
      let result : List Entry × List Notice =
        if x.answer then (left, told) else ((end_at e.handle left).0, more) in
      result.0 ≡ (done ++ kept_of x e) ++ prune x.removes es
unfolding kept_of prune
executed-cases x e done es told more h k =
    let after = record e { condition = x.after } in
    let rest = prune x.removes es in
    let nothing : (done ++ []) ++ rest ≡ done ++ rest = ap (λ l. l ++ rest) (append-nil done) in
    elim (Bool-cases (x.removes after)) [
      | inl gone ↦ elim (Bool-cases x.answer) [
        | inl stays ↦ rw (gone, stays) (sym nothing)
        | inr goes ↦
            rw (gone, goes)
              (end_at-absent e.handle (done ++ rest) (contains_both e.handle done rest h k)
                ∙ sym nothing)
      ]
      | inr left ↦ elim (Bool-cases x.answer) [
        | inl stays ↦ rw (left, stays) (sym (append_assoc done (after ∷ []) rest))
        | inr goes ↦ rw (left, goes) (end_at-behind done after rest h ∙ sym nothing)
      ]
    ]

visit-absent :
    (execute : Condition → Outcome) (x : ℕ) (es : List Entry)
    → contains x (handles es) ≡ false
    → (visit execute x es).0 ≡ es
unfolding visit
visit-absent execute x es h = rw (find_handle-absent x es h, visit) refl

-- The condition that is visited stands behind others of other handles.
visit-behind :
    (execute : Condition → Outcome) (done : List Entry) (e : Entry) (es : List Entry)
    → contains e.handle (handles done) ≡ false
    → contains e.handle (handles es) ≡ false
    → let x = execute e.condition in
      (visit execute e.handle (done ++ (e ∷ es))).0
      ≡ (prune x.removes done ++ kept_of x e) ++ prune x.removes es
unfolding visit executed_at kept_of
visit-behind execute done e es h k =
    let x = execute e.condition in
    let after = record e { condition = x.after } in
    let r = x.removes in
    let left : prune r (store e.handle x.after (done ++ (e ∷ es)))
        ≡ prune r done ++ prune r (after ∷ es) =
      ap (prune r) (store-behind x.after done e es h) ∙ prune-append r done (after ∷ es) in
    let told = ends r (store e.handle x.after (done ++ (e ∷ es))) in
    let last = end_at e.handle (prune r done ++ prune r (after ∷ es)) in
    let p = prune-contains r e.handle done h in
    let q = prune-contains r e.handle es k in
    rw (find_handle-behind done e es h, visit, left)
      (executed-cases x e (prune r done) es told (told ++ last.1) p q)

-- No handle of the one list is one of the other.
abbrev Apart : List Entry → List Entry → Type 0
Apart done es = (x : ℕ) → contains x (handles es) ≡ true → contains x (handles done) ≡ false

not_later :
    (x h : ℕ) (hs : List ℕ) → contains h hs ≡ false → contains x hs ≡ true → (x == h) ≡ false
not_later x h hs k l = elim (Bool-cases (x == h)) [
  | inl same ↦
      let e : x ≡ h = ground arith in let m : contains h hs ≡ true = rw (← e) l in ground arith
  | inr other ↦ other
]

kept_of-contains :
    (r : Outcome) (e : Entry) (x : ℕ)
    → (x == e.handle) ≡ false
    → contains x (handles (kept_of r e)) ≡ false
unfolding kept_of
kept_of-contains r e x h =
    if_cases (λ (l : List Entry). contains x (handles l) ≡ false)
      (r.answer && not (r.removes (record e { condition = r.after }))) (λ t. rw h refl) (λ t. refl)

Apart-kept_of :
    (r : Outcome) (done : List Entry) (e : Entry) (es : List Entry)
    → nodup (handles (e ∷ es)) ≡ true
    → Apart done (e ∷ es)
    → Apart (prune r.removes done ++ kept_of r e) es
Apart-kept_of r done e es u a x m =
    let fresh : contains e.handle (handles es) ≡ false = ground arith in
    let other : (x == e.handle) ≡ false = not_later x e.handle (handles es) fresh m in
    contains_both x (prune r.removes done) (kept_of r e)
      (prune-contains r.removes x done (a x (ground arith))) (kept_of-contains r e x other)

visit_all-iterate :
    (execute : Condition → Outcome) (done : List Entry) (gone : Entry → Bool) (es : List Entry)
    → nodup (handles es) ≡ true
    → Apart done es
    → (visit_all execute (handles es) (done ++ prune gone es)).0 ≡ iterate execute done gone es
unfolding visit_all iterate prune
visit_all-iterate execute done gone [] u a = append-nil done
visit_all-iterate execute done gone (e ∷ es) u a =
    let x = execute e.condition in
    let outside : contains e.handle (handles done) ≡ false = a e.handle (ground arith) in
    let others : nodup (handles es) ≡ true = ground arith in
    let fresh : contains e.handle (handles es) ≡ false = ground arith in
    let ahead = prune-contains gone e.handle es fresh in
    elim (Bool-cases (gone e)) [
      | inl passed ↦
          let left : prune gone (e ∷ es) ≡ prune gone es = rw passed refl in
          let same : iterate execute done gone (e ∷ es) ≡ iterate execute done gone es =
            rw (passed, iterate) refl in
          ap (λ l. (visit_all execute (handles (e ∷ es)) (done ++ l)).0) left
          ∙ ap (λ l. (visit_all execute (handles es) l).0)
              (visit-absent execute e.handle (done ++ prune gone es)
                (contains_both e.handle done (prune gone es) outside ahead))
          ∙ visit_all-iterate execute done gone es others (λ y m. a y (ground arith))
          ∙ sym same
      | inr stays ↦
          let behind = prune x.removes done ++ kept_of x e in
          let next = λ (d : Entry). gone d || x.removes d in
          let left : prune gone (e ∷ es) ≡ e ∷ prune gone es = rw stays refl in
          let same : iterate execute done gone (e ∷ es) ≡ iterate execute behind next es =
            rw (stays, iterate) refl in
          ap (λ l. (visit_all execute (handles (e ∷ es)) (done ++ l)).0) left
          ∙ ap (λ l. (visit_all execute (handles es) l).0)
              (visit-behind execute done e (prune gone es) outside ahead
                ∙ ap (λ l. behind ++ l) (prune-prune x.removes gone es))
          ∙ visit_all-iterate execute behind next es others (Apart-kept_of x done e es u a)
          ∙ sym same
    ]

pub execute_conditions-iterate :
    (b : Behaviour) (now interval : ℕ) (creature : Creature)
    → nodup (handles creature.conditions) ≡ true
    → (execute_conditions b now interval creature).conditions
      ≡ iterate (b.executes now interval) [] (λ e. false) creature.conditions
unfolding execute_conditions notify with_conditions
execute_conditions-iterate b now interval creature u =
    let execute = b.executes now interval in
    let es = creature.conditions in
    ap (λ l. (visit_all execute (handles es) l).0) (sym (prune-none es))
    ∙ visit_all-iterate execute [] (λ e. false) es u (λ x m. refl)
