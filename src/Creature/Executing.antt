-- ===== src/Creature/Executing.antt =====
-- The execution of the conditions of a creature (`executeConditions` of creature.cpp).
use projeto_bruxo.Base.{ℕ, Bool, none, some, List, [], ◌∷◌, ◌++◌, ◌==◌, if◌then◌else◌}
use projeto_bruxo.Conditions.{Condition}
use projeto_bruxo.Creature.{
  Behaviour, Outcome, Entry, Notice, on_end, Creature, with_conditions, notify, find_handle,
  erase_handle, handles,
}

-- The condition of a handle, changed in place.
unfoldable pub store : ℕ → Condition → List Entry → List Entry
store handle c [] = []
store handle c (e ∷ es) =
    let rest = store handle c es in
    if e.handle == handle then record e { condition = c } ∷ es else e ∷ rest

-- What is left by the removals during an execution, and what they tell.
unfoldable pub prune : (Entry → Bool) → List Entry → List Entry
prune removes [] = []
prune removes (e ∷ es) = let rest = prune removes es in if removes e then rest else e ∷ rest

unfoldable pub ends : (Entry → Bool) → List Entry → List Notice
ends removes [] = []
ends removes (e ∷ es) =
    let rest = ends removes es in
    if removes e then on_end e.condition.condition_type ∷ rest else rest

-- A condition that has answered false is looked up again, and goes if it is still there.
unfoldable pub end_at : ℕ → List Entry → List Entry × List Notice
end_at handle es = elim (find_handle handle es) [
  | none ↦ (es, [])
  | some c ↦ (erase_handle handle es, on_end c.condition_type ∷ [])
]

unfoldable pub executed_at : ℕ → Outcome → List Entry → List Entry × List Notice
executed_at handle x es =
    let stored = store handle x.after es in
    let left = prune x.removes stored in
    let last = end_at handle left in
    if x.answer then (left, ends x.removes stored) else (last.0, ends x.removes stored ++ last.1)

-- The condition of a handle is looked up, and executed if it is still there.
unfoldable pub visit : (Condition → Outcome) → ℕ → List Entry → List Entry × List Notice
visit execute handle es = elim (find_handle handle es) [
  | none ↦ (es, [])
  | some c ↦ executed_at handle (execute c) es
]

unfoldable pub visit_all : (Condition → Outcome) → List ℕ → List Entry → List Entry × List Notice
visit_all execute [] es = (es, [])
visit_all execute (handle ∷ handles) es =
    let now = visit execute handle es in
    let later = visit_all execute handles now.0 in (later.0, now.1 ++ later.1)

-- `Creature::executeConditions`
unfoldable pub execute_conditions : Behaviour → (now interval : ℕ) → Creature → Creature
execute_conditions b now interval creature =
    let result =
      visit_all (b.executes now interval) (handles creature.conditions) creature.conditions in
    notify result.1 (with_conditions result.0 creature)
