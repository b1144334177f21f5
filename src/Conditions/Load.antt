-- ===== src/Conditions/Load.antt =====
-- The loaders of conditions (`createCondition` of a stream and `unserialize` of condition.cpp, and the
-- loop of `IOLoginData::loadPlayer`). A loop takes fuel, since it ends with its stream.
use projeto_bruxo.Base.{
  ℕ, zero, suc, ◌%◌, not, Option, none, some, List, [], ◌∷◌, ◌==◌, if◌then◌else◌, length, ◌>>=◌,
}
use projeto_bruxo.Stream.{read}
use projeto_bruxo.Conditions.{Condition, set_end_time}
use projeto_bruxo.Conditions.Classes.{create_condition}
use projeto_bruxo.Conditions.Readers.{Reader, reader_of}
use projeto_bruxo.Conditions.Attr

unfoldable pub set_field : (ℕ → Condition) → Option ℕ × List ℕ → Option Condition × List ℕ
set_field store (none, s) = (none, s)
set_field store (some v, s) = (some (store v), s)

-- `unserializeProp`: the condition after, or none for false, and the stream after.
unfoldable pub unserialize_prop : Reader → List ℕ → Option Condition × List ℕ
unserialize_prop none s = (none, s)
unserialize_prop (some (width, store)) s = set_field store (read width s)

-- How a pass of a loop ends it, or goes on.
pub data Pass : Type 0 where
  over : Option Condition → List ℕ → Pass
  onward : Condition → List ℕ → Pass

unfoldable pub pass_of : Option Condition × List ℕ → Pass
pass_of (none, s) = over none s
pass_of (some c, s) = onward c s

unfoldable pub pass_at : ℕ → Condition → Option ℕ × List ℕ → Pass
pass_at now c (none, s) = over (some c) s
pass_at now c (some attr, s) =
    if attr == Attr.end
    then over (some c) s
    else pass_of (unserialize_prop (reader_of now c c.kind attr) s)

-- One pass of the loop of `Condition::unserialize`.
unfoldable pub pass : ℕ → Condition → List ℕ → Pass
pass now c s = pass_at now c (read 1 s)

unfoldable pub unserialize_loop : ℕ → ℕ → Condition → List ℕ → Option Condition × List ℕ
unserialize_loop zero now c s = (none, s)
unserialize_loop (suc fuel) now c s = elim (pass now c s) [
  | over answer r ↦ (answer, r)
  | onward d r ↦ unserialize_loop fuel now d r
]

-- `Condition::unserialize`: none for false.
unfoldable pub unserialize : ℕ → Condition → List ℕ → Option Condition × List ℕ
unserialize now c s = unserialize_loop (suc (length s)) now c s

unfoldable pub with_value : Option ℕ × List ℕ → Option (ℕ × List ℕ)
with_value (none, s) = none
with_value (some v, s) = some (v, s)

unfoldable pub value_after : ℕ → ℕ → Option ℕ × List ℕ → Option (ℕ × List ℕ)
value_after attr width (none, s) = none
value_after attr width (some a, s) = if a == attr then with_value (read width s) else none

-- An attribute byte that must come next, and its value.
unfoldable pub expect : ℕ → ℕ → List ℕ → Option (ℕ × List ℕ)
expect attr width s = value_after attr width (read 1 s)

-- The end of a constant condition.
unfoldable pub with_end_time : Condition → List ℕ → Option (Condition × List ℕ)
with_end_time c s = do (end_time, s) ← expect Attr.end_time 8 s; some (set_end_time end_time c, s)

-- `Condition::createCondition(propStream)`: none for no condition, after which nothing more is read.
unfoldable pub create_stored : List ℕ → Option (Condition × List ℕ)
create_stored s = do
  (type, s) ← expect Attr.type 4 s
  (id, s) ← expect Attr.id 4 s
  (ticks, s) ← expect Attr.ticks 4 s
  (buff, s) ← expect Attr.is_buff 1 s
  (sub_id, s) ← expect Attr.sub_id 4 s
  (aggressive, s) ← expect Attr.is_aggressive 1 s
  (constant, s) ← expect Attr.constant 1 s
  made ← create_condition (id % 256) type ticks 0 (not (buff == 0)) sub_id (not (aggressive == 0))
  let c = record made { constant = not (constant == 0) }
  if c.constant then with_end_time c s else some (c, s)

unfoldable pub store_read : Option Condition → List Condition → List Condition
store_read none stored = stored
store_read (some c) stored = c ∷ stored

-- The loop of `IOLoginData::loadPlayer`; `stored` is `storedConditionList`, the newest first.
unfoldable pub load_loop : ℕ → ℕ → List ℕ → List Condition → List Condition
load_loop zero now s stored = stored
load_loop (suc fuel) now s stored = elim (create_stored s) [
  | none ↦ stored
  | some (c, r) ↦
      let answer = unserialize now c r in load_loop fuel now answer.1 (store_read answer.0 stored)
]

unfoldable pub load_conditions : ℕ → List ℕ → List Condition
load_conditions now s = load_loop (suc (length s)) now s []
