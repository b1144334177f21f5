-- ===== src/Conditions/Storage.antt =====
-- All the conditions of a player, saved and loaded.
use projeto_bruxo.Base.{
  ℕ, suc, ◌≤◌, ◌≡◌, refl, sym, ◌∙◌, ◌||◌, some, List, [], ◌∷◌, ◌++◌, map, if◌then◌else◌, arith,
  length, length-append, Bool-cases, inl, inr,
}
use mathlib.Core.List.{reverse, reverse_aux, append_assoc, append-nil}
use projeto_bruxo.Stream.{read}
use projeto_bruxo.Conditions.{Condition}
use projeto_bruxo.Conditions.Fields.{own_fields, is_persistent, save_conditions}
use projeto_bruxo.Conditions.Load.{
  expect, value_after, create_stored, store_read, load_loop, load_conditions,
}
use projeto_bruxo.Conditions.Fuel.{load_loop_fuel}
use projeto_bruxo.Conditions.Header.{IsTyped, fresh}
use projeto_bruxo.Conditions.Encoding.{InRange, taken_all}
use projeto_bruxo.Conditions.RoundTrip.{
  IsRestorable, own_fields-InRange, taken_all-own_fields, as_loaded, saved, saved_pos,
  serialize_lem, load_one,
}

-- The conditions that are saved.
unfoldable pub kept : List Condition → List Condition
kept [] = []
kept (c ∷ cs) = let rest = kept cs in if is_persistent c || c.constant then c ∷ rest else rest

abbrev pub AllRestorable : List Condition → Type 0
AllRestorable [] = 0 ≤ 0
AllRestorable (c ∷ cs) = IsRestorable c × AllRestorable cs

pub saved_all : List Condition → List ℕ
saved_all [] = []
saved_all (c ∷ cs) = saved c ++ saved_all cs

pub save_conditions_lem :
    (cs : List Condition) (buffer : List ℕ)
    → AllRestorable (kept cs)
    → save_conditions cs buffer ≡ buffer ++ saved_all (kept cs)
unfolding kept save_conditions saved_all
save_conditions_lem [] buffer h = sym (append-nil buffer)
save_conditions_lem (c ∷ cs) buffer h = elim (Bool-cases (is_persistent c || c.constant)) [
  | inl yes_kept ↦
      let (r, rs) : AllRestorable (c ∷ kept cs) = rw yes_kept at h in
      rw (yes_kept, serialize_lem c buffer r.typed (own_fields-InRange c.kind r.fits))
        (save_conditions_lem cs (buffer ++ saved c) rs
          ∙ append_assoc buffer (saved c) (saved_all (kept cs)))
  | inr not_kept ↦
      let rs : AllRestorable (kept cs) = rw not_kept at h in
      rw not_kept (save_conditions_lem cs buffer rs)
]

-- The loader takes one saved condition from the front of the stream.
pub load_loop-saved :
    (now : ℕ) (c d : Condition) (s : List ℕ) (stored : List Condition)
    → IsTyped c
    → InRange (own_fields c.kind)
    → taken_all now (fresh c) (own_fields c.kind) ≡ some d
    → load_loop (suc (length (saved c ++ s))) now (saved c ++ s) stored
      ≡ load_loop (suc (length s)) now s (d ∷ stored)
unfolding load_loop store_read
load_loop-saved now c d s stored t r e =
    let (made, read_on) = load_one now c d s t r e in
    rw (made, load_loop, read_on)
      (load_loop_fuel (length (saved c ++ s)) (suc (length s)) now s (d ∷ stored)
        (omega (arith, saved_pos c, length-append (saved c) s)) (omega arith))

pub load_loop-saved_all :
    (now : ℕ) (cs : List Condition) (s : List ℕ) (stored : List Condition)
    → AllRestorable cs
    → load_loop (suc (length (saved_all cs ++ s))) now (saved_all cs ++ s) stored
      ≡ load_loop (suc (length s)) now s (reverse_aux (map (as_loaded now) cs) stored)
unfolding saved_all
load_loop-saved_all now [] s stored h = refl
load_loop-saved_all now (c ∷ cs) s stored (r, rs) = rw (append_assoc (saved c) (saved_all cs) s) (
    load_loop-saved now c (as_loaded now c) (saved_all cs ++ s) stored r.typed
      (own_fields-InRange c.kind r.fits) (taken_all-own_fields now c c.kind r.fits)
    ∙ load_loop-saved_all now cs s (as_loaded now c ∷ stored) rs)

pub load_loop-nil : (now : ℕ) (stored : List Condition) → load_loop 1 now [] stored ≡ stored
unfolding load_loop create_stored expect value_after read
load_loop-nil now stored = refl

-- The conditions of a player that are saved, where none is a light or attributes, their types are those
-- of their classes, and their numbers fit, are loaded again, the last first. Each has its type, id,
-- sub-id, ticks, flags and the fields of its class as they were, and a constant one its end, but: the
-- counters of regeneration and soul start at 0, a drunk condition has the default strength, and of a
-- damage condition only the delay, the period damage and the damages ahead are as they were, the other
-- fields of its class have defaults, and it lasts from now for the intervals of these damages.
pub load_conditions-save_conditions :
    (now : ℕ) (cs : List Condition)
    → AllRestorable (kept cs)
    → load_conditions now (save_conditions cs []) ≡ reverse (map (as_loaded now) (kept cs))
unfolding load_conditions
load_conditions-save_conditions now cs h =
    rw (save_conditions_lem cs [] h, ← append-nil (saved_all (kept cs)))
      (load_loop-saved_all now (kept cs) [] [] h
        ∙ load_loop-nil now (reverse_aux (map (as_loaded now) (kept cs)) []))
