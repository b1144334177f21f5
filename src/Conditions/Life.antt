-- ===== src/Conditions/Life.antt =====
-- The life of a condition on a creature (`startCondition`, `executeCondition`, `updateCondition` and the
-- generic `addCondition` of condition.cpp), at the time `now`.
use projeto_bruxo.Base.{
  ℕ, ◌+◌, ◌%◌, ◌≤◌, ◌<◌, ◌≡◌, refl, List, [], ◌∷◌, Bool, true, false, not, ◌&&◌, ◌||◌, ltb, leb,
  ◌==◌, if◌then◌else◌, if_cases, arith, floor_sub32, u64_mod,
}
use projeto_bruxo.Conditions.{Condition, forever, signed64, set_end_time, set_ticks}

-- Signed words: one of 32 bits above zero, one not below it, and the order of two of 64 bits.
abbrev pub is_positive : ℕ → Bool
is_positive x = ltb 0 x && ltb x 2147483648

abbrev pub is_natural : ℕ → Bool
is_natural x = ltb x 2147483648

abbrev pub before : ℕ → ℕ → Bool
before s t = ltb ((s + 9223372036854775808) % u64_mod) ((t + 9223372036854775808) % u64_mod)

-- `Condition::startCondition`
unfoldable pub start_condition : ℕ → Condition → Condition
start_condition now c =
    if is_positive c.ticks && c.end_time == 0
    then set_end_time ((signed64 c.ticks + now) % u64_mod) c
    else c

-- `Condition::executeCondition`
unfoldable pub execute_condition : (now interval : ℕ) → Condition → Bool × Condition
execute_condition now interval c =
    if c.ticks == forever
    then (true, c)
    else (not (before c.end_time now), record c { ticks = floor_sub32 c.ticks interval })

-- `Condition::updateCondition`
unfoldable pub update_condition : ℕ → Condition → Condition → Bool
update_condition now c added =
    if not (c.condition_type == added.condition_type)
    then false
    else if c.ticks == forever && is_positive added.ticks
    then false
    else if is_natural added.ticks && before ((now + added.ticks) % u64_mod) c.end_time
    then false
    else true

-- `ConditionGeneric::addCondition`
unfoldable pub add_generic : ℕ → Condition → Condition → Condition
add_generic now c added = if update_condition now c added then set_ticks now added.ticks c else c

-- Whether a condition is in force, as `Creature::hasCondition` asks.
unfoldable pub in_force : ℕ → Condition → Bool
in_force now c = not (before c.end_time now) || c.ticks == forever

-- The times of a running server.
abbrev pub IsTime : ℕ → Type 0
IsTime t = t < 4611686018427387904

-- Whether a condition is kept by all these executions, each at a time and with an interval.
unfoldable pub survives : List (ℕ × ℕ) → Condition → Bool
survives [] c = true
survives ((now, interval) ∷ rest) c =
    let answer = execute_condition now interval c in answer.0 && survives rest answer.1

abbrev pub all_until : ℕ → List (ℕ × ℕ) → Bool
all_until t [] = true
all_until t ((now, _) ∷ rest) = leb now t && all_until t rest

abbrev pub AllTimes : List (ℕ × ℕ) → Type 0
AllTimes [] = 0 ≤ 0
AllTimes ((now, _) ∷ rest) = IsTime now × AllTimes rest

pub floor_sub32_lt : (a b : ℕ) → floor_sub32 a b < 2147483648
unfolding floor_sub32
floor_sub32_lt a b = ground arith

pub execute_condition_lem :
    (now interval : ℕ) (c : Condition)
    → c.ticks < 2147483648
    → execute_condition now interval c
      ≡ (not (before c.end_time now), record c { ticks = floor_sub32 c.ticks interval })
unfolding execute_condition
execute_condition_lem now interval c h =
    let e : (c.ticks == forever) ≡ false = ground arith in rw e refl

not-before :
    (s t : ℕ) → s < 9223372036854775808 → t < 9223372036854775808 → not (before s t) ≡ leb t s
not-before s t h k = ground arith

survives_until :
    (times : List (ℕ × ℕ)) (c : Condition)
    → AllTimes times
    → c.ticks < 2147483648
    → c.end_time < 9223372036854775808
    → survives times c ≡ all_until c.end_time times
unfolding survives
survives_until [] c h k l = refl
survives_until ((now, interval) ∷ rest) c (h, hs) k l =
    let d = record c { ticks = floor_sub32 c.ticks interval } in
    rw
      (
        execute_condition_lem now interval c k,
        not-before c.end_time now l (omega arith),
        survives_until rest d hs (floor_sub32_lt c.ticks interval) l,
      )
      refl

start_condition_lem :
    (start : ℕ) (c : Condition)
    → is_positive c.ticks ≡ true
    → c.end_time ≡ 0
    → IsTime start
    → start_condition start c ≡ record c { end_time = c.ticks + start }
unfolding start_condition set_end_time signed64
start_condition_lem start c p e h =
    let z : (c.end_time == 0) ≡ true = ground arith in
    let t : ltb c.ticks 2147483648 ≡ true = ground arith in
    let w : (c.ticks + start) % u64_mod ≡ c.ticks + start = ground arith in rw (p, z, t, w) refl

-- A condition of some ticks that has no end yet, once it is started, is kept by executions at later
-- times exactly as long as these are not after its start and its ticks, whatever their intervals are.
pub survives-start_condition :
    (start : ℕ) (times : List (ℕ × ℕ)) (c : Condition)
    → IsTime start
    → AllTimes times
    → is_positive c.ticks ≡ true
    → c.end_time ≡ 0
    → survives times (start_condition start c) ≡ all_until (c.ticks + start) times
survives-start_condition start times c h k p e =
    rw (start_condition_lem start c p e h) (
      survives_until times (record c { end_time = c.ticks + start }) k (ground arith)
        (ground arith))

all_passed :
    (a b n d : Bool)
    → n ≡ true
    → (if not a then false else if b then false else if n && d then false else true) ≡ true
    → d ≡ false
all_passed a b n d h k = ground arith

later_end :
    (now : ℕ) (c added : Condition)
    → is_natural added.ticks ≡ true
    → update_condition now c added ≡ true
    → before ((now + added.ticks) % u64_mod) c.end_time ≡ false
unfolding update_condition
later_end now c added k u =
    all_passed (c.condition_type == added.condition_type)
      (c.ticks == forever && is_positive added.ticks) (is_natural added.ticks)
      (before ((now + added.ticks) % u64_mod) c.end_time) k u

end_time-set_ticks :
    (now : ℕ) (c : Condition) (t : ℕ)
    → is_natural t ≡ true
    → (set_ticks now t c).end_time ≡ (now + t) % u64_mod
unfolding set_ticks set_end_time signed64
end_time-set_ticks now c t h = let e : t + now ≡ now + t = omega arith in rw (h, e) refl

before_irrefl : (t : ℕ) → before t t ≡ false
before_irrefl t = ground arith

-- Adding a condition of natural ticks to a generic one never brings its end forward.
pub end_time-add_generic :
    (now : ℕ) (c added : Condition)
    → is_natural added.ticks ≡ true
    → before (add_generic now c added).end_time c.end_time ≡ false
unfolding add_generic
end_time-add_generic now c added k =
    if_cases (λ (r : Condition). before r.end_time c.end_time ≡ false)
      (update_condition now c added)
      (λ u. rw (end_time-set_ticks now c added.ticks k) (later_end now c added k u))
      (λ u. before_irrefl c.end_time)
