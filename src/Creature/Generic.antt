-- ===== src/Creature/Generic.antt =====
-- The conditions of the generic class on a creature.
use projeto_bruxo.Base.{
  ℕ, ◌≡◌, refl, Bool, true, false, ◌&&◌, ◌||◌, List, [], ◌∷◌, ◌++◌, ◌==◌, if_cases, Bool-cases, inl,
  inr, arith, nodup,
}
use projeto_bruxo.Conditions.{Condition, forever, set_ticks, set_end_time}
use projeto_bruxo.Conditions.Life.{
  before, is_positive, start_condition, execute_condition, update_condition, add_generic, in_force,
}
use projeto_bruxo.Creature.{Behaviour, Outcome, Entry, Creature, handles}
use projeto_bruxo.Creature.Executing.{prune, execute_conditions}
use projeto_bruxo.Creature.Keys.{KeepsKey, IsKeyed}
use projeto_bruxo.Creature.Execution.{kept_of, iterate, execute_conditions-iterate}

-- An execution of a generic condition removes no condition.
abbrev pub generic_outcome : ℕ → ℕ → Condition → Outcome
generic_outcome now interval c = record {
  answer = (execute_condition now interval c).0;
  after = (execute_condition now interval c).1;
  removes = λ e. false;
}

-- The virtual functions of `ConditionGeneric`.
abbrev pub generic_behaviour : Behaviour
generic_behaviour = record {
  starts = λ now c. (true, start_condition now c);
  executes = generic_outcome;
  adds = add_generic;
}

pub generic_behaviour-IsKeyed : IsKeyed generic_behaviour
unfolding start_condition execute_condition add_generic set_ticks set_end_time
generic_behaviour-IsKeyed = record {
  start_keeps = λ now c.
      if_cases (λ (d : Condition). KeepsKey c d) (is_positive c.ticks && c.end_time == 0)
        (λ h. (refl, (refl, refl))) (λ h. (refl, (refl, refl)));
  execute_keeps = λ now interval c.
      if_cases (λ (r : Bool × Condition). KeepsKey c r.1) (c.ticks == forever)
        (λ h. (refl, (refl, refl))) (λ h. (refl, (refl, refl)));
  add_keeps = λ now c added.
      if_cases (λ (d : Condition). KeepsKey c d) (update_condition now c added)
        (λ h. (refl, (refl, refl))) (λ h. (refl, (refl, refl)));
}

abbrev pub all_active : ℕ → List Entry → Bool
all_active now [] = true
all_active now (e ∷ es) = in_force now e.condition && all_active now es

all_active-append :
    (now : ℕ) (xs ys : List Entry)
    → all_active now xs ≡ true
    → all_active now ys ≡ true
    → all_active now (xs ++ ys) ≡ true
all_active-append now [] ys h k = k
all_active-append now (x ∷ xs) ys h k = ground (arith, all_active-append now xs ys)

prune-all_active :
    (now : ℕ) (removes : Entry → Bool) (es : List Entry)
    → all_active now es ≡ true
    → all_active now (prune removes es) ≡ true
unfolding prune
prune-all_active now removes [] h = refl
prune-all_active now removes (e ∷ es) h = ground (arith, prune-all_active now removes es)

kept_of-active :
    (now interval : ℕ) (e : Entry)
    → all_active now (kept_of (generic_outcome now interval e.condition) e) ≡ true
unfolding kept_of execute_condition in_force
kept_of-active now interval e =
    let c = e.condition in
    elim (Bool-cases (c.ticks == forever)) [
      | inl endless ↦ elim (Bool-cases (before c.end_time now)) [
        | inl late ↦ rw (endless, endless, late) refl
        | inr in_time ↦ rw (endless, endless, in_time) refl
      ]
      | inr finite ↦ elim (Bool-cases (before c.end_time now)) [
        | inl late ↦ rw (finite, late) refl
        | inr in_time ↦ rw (finite, in_time, in_force, in_time) refl
      ]
    ]

iterate-active :
    (now interval : ℕ) (done : List Entry) (gone : Entry → Bool) (es : List Entry)
    → all_active now done ≡ true
    → all_active now (iterate (generic_outcome now interval) done gone es) ≡ true
unfolding iterate
iterate-active now interval done gone [] h = h
iterate-active now interval done gone (e ∷ es) h = elim (Bool-cases (gone e)) [
  | inl passed ↦ rw (passed, iterate) (iterate-active now interval done gone es h)
  | inr stays ↦
      let x = generic_outcome now interval e.condition in
      rw (stays, iterate)
        (iterate-active now interval (prune x.removes done ++ kept_of x e)
          (λ d. gone d || x.removes d) es
          (all_active-append now (prune x.removes done) (kept_of x e)
            (prune-all_active now x.removes done h) (kept_of-active now interval e)))
]

-- After an execution of a creature's conditions, where these are of the generic class and no two are at
-- one address, every condition that is left is in force: its end is not past, or it is endless.
pub execute_conditions-active :
    (now interval : ℕ) (creature : Creature)
    → nodup (handles creature.conditions) ≡ true
    → all_active now (execute_conditions generic_behaviour now interval creature).conditions ≡ true
execute_conditions-active now interval creature u =
    rw (execute_conditions-iterate generic_behaviour now interval creature u)
      (iterate-active now interval [] (λ e. false) creature.conditions refl)
