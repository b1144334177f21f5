-- ===== src/Creature.antt =====
-- The conditions of a creature (creature.cpp). A pointer to a condition is a number, its handle. The
-- virtual functions of a condition are a parameter: of what they do to the rest of the creature, only
-- which conditions an execution removes is kept. The walk delay of a creature, read as 0 where it is not
-- positive, is the same throughout one call.
pub mod Removing
pub mod Executing
pub mod Adding
pub mod Keys
pub mod Visited
pub mod Unique
pub mod Behind
pub mod Execution
pub mod Generic
pub mod Removal
pub mod Addition
mod Examples
use projeto_bruxo.Base.{
  ℕ, ◌+◌, ◌≡◌, Bool, true, false, not, ◌&&◌, ◌||◌, Option, none, some, List, [], ◌∷◌, ◌++◌, map,
  ltb, ◌==◌, replicate, if◌then◌else◌,
}
use projeto_bruxo.Conditions.{Condition}
use projeto_bruxo.Conditions.Life.{in_force}
use projeto_bruxo.Conditions.Types

pub record Entry : Type 0 where
  pub handle : ℕ
  pub condition : Condition

-- The outcome of `executeCondition`: its answer, the condition after it, and which of the creature's
-- conditions, this one among them, are removed while it runs (by a death, say).
pub record Outcome : Type 0 where
  pub answer : Bool
  pub after : Condition
  pub removes : Entry → Bool

-- The virtual functions, at a time: `startCondition`, `executeCondition` (with an interval) and
-- `addCondition` (of the condition, with the new one). Starting a condition or adding to it changes no
-- other condition, and an execution starts none.
pub record Behaviour : Type 0 where
  pub starts : ℕ → Condition → Bool × Condition
  pub executes : ℕ → ℕ → Condition → Outcome
  pub adds : ℕ → Condition → Condition → Condition

-- What `addCondition` and `removeCondition` leave to the scheduler.
pub data ScheduledEvent : Type 0 where
  force_add : Entry → ScheduledEvent
  force_remove : ℕ → ScheduledEvent

pub data Notice : Type 0 where
  on_add : ℕ → Notice
  on_end : ℕ → Notice
  on_add_combat : ℕ → Notice

pub record Creature : Type 0 where
  pub conditions : List Entry
  pub scheduled : List ScheduledEvent
  pub notices : List Notice
  pub walk_delay : ℕ
  pub is_suppress : ℕ → Bool

unfoldable pub with_conditions : List Entry → Creature → Creature
with_conditions xs creature = record creature { conditions = xs }

-- `g_scheduler.addEvent`, after the walk delay
unfoldable pub add_event : ScheduledEvent → Creature → Creature
add_event event creature = record creature { scheduled = creature.scheduled ++ (event ∷ []) }

unfoldable pub notify : List Notice → Creature → Creature
notify notices creature = record creature { notices = creature.notices ++ notices }

-- The first condition that passes a test.
unfoldable pub find_condition : (Condition → Bool) → List Entry → Option Condition
find_condition test [] = none
find_condition test (e ∷ es) =
    let rest = find_condition test es in if test e.condition then some e.condition else rest

abbrev pub has_type : ℕ → Condition → Bool
has_type type c = c.condition_type == type

abbrev pub has_key : ℕ → ℕ → ℕ → Condition → Bool
has_key type id sub_id c = c.condition_type == type && c.id == id && c.sub_id == sub_id

-- `Creature::getCondition(type)`
unfoldable pub get_condition : ℕ → Creature → Option Condition
get_condition type creature = find_condition (has_type type) creature.conditions

-- `Creature::getCondition(type, conditionId, subId)`
unfoldable pub get_condition_of : ℕ → ℕ → ℕ → Creature → Option Condition
get_condition_of type id sub_id creature =
    find_condition (has_key type id sub_id) creature.conditions

unfoldable pub any_active : ℕ → ℕ → ℕ → List Entry → Bool
any_active now type sub_id [] = false
any_active now type sub_id (e ∷ es) =
    let rest = any_active now type sub_id es in
    if e.condition.condition_type == type && e.condition.sub_id == sub_id
    then in_force now e.condition || rest
    else rest

-- `Creature::hasCondition`
unfoldable pub has_condition : ℕ → ℕ → ℕ → Creature → Bool
has_condition now type sub_id creature =
    if creature.is_suppress type then false else any_active now type sub_id creature.conditions

-- A change of the first condition that passes a test.
unfoldable pub change_first : (Condition → Bool) → (Condition → Condition) → List Entry → List Entry
change_first test f [] = []
change_first test f (e ∷ es) =
    let rest = change_first test f es in
    if test e.condition then record e { condition = f e.condition } ∷ es else e ∷ rest

-- `std::find` by a pointer
unfoldable pub find_handle : ℕ → List Entry → Option Condition
find_handle handle [] = none
find_handle handle (e ∷ es) =
    let rest = find_handle handle es in if e.handle == handle then some e.condition else rest

unfoldable pub erase_handle : ℕ → List Entry → List Entry
erase_handle handle [] = []
erase_handle handle (e ∷ es) =
    let rest = erase_handle handle es in if e.handle == handle then es else e ∷ rest

abbrev pub handles : List Entry → List ℕ
handles es = map Entry.handle es
