-- ===== src/Conditions/Lost.antt =====
-- Saved conditions that are not loaded: lights, and the experience rates of attributes.
use projeto_bruxo.Base.{
  ℕ, suc, ◌/◌, ◌%◌, ◌<◌, ◌≡◌, refl, sym, ap, ◌∙◌, true, ◌||◌, none, some, List, [], ◌∷◌, ◌++◌, map,
  arith, length, u32_mod, Bool-cases, inl, inr,
}
use mathlib.Core.List.{reverse, reverse_aux, append_assoc, append-nil}
use projeto_bruxo.Stream.{bytes_of, write}
use projeto_bruxo.Stream.RoundTrip.{read_byte_lem}
use projeto_bruxo.Conditions.{Condition, Light, light}
use projeto_bruxo.Conditions.Classes.{make, blank_data}
use projeto_bruxo.Conditions.Fields.{
  Field, field_of, put_field, put_all, base_fields, light_fields, own_fields, serialize,
  is_persistent, save_conditions,
}
use projeto_bruxo.Conditions.Readers.{base_reader, light_reader, reader_of}
use projeto_bruxo.Conditions.Load.{
  pass, pass_at, pass_of, set_field, unserialize_prop, unserialize_loop, expect, value_after,
  create_stored, unserialize, store_read, load_loop, load_conditions,
}
use projeto_bruxo.Conditions.Fuel.{load_loop_fuel}
use projeto_bruxo.Conditions.Header.{IsTyped, fresh, class_of, create_stored-base_fields}
use projeto_bruxo.Conditions.Encoding.{InRange, encoded_all}
use projeto_bruxo.Conditions.RoundTrip.{saved, serialize_lem, as_loaded}
use projeto_bruxo.Conditions.Storage.{kept, AllRestorable, save_conditions_lem, load_loop-saved_all}
use projeto_bruxo.Conditions.Attr

-- A writer adds to the end of its buffer.
put_all-append : (fs : List Field) (buffer : List ℕ) → put_all fs buffer ≡ buffer ++ put_all fs []
unfolding put_all put_field write
put_all-append [] buffer = sym (append-nil buffer)
put_all-append (f ∷ fs) buffer =
    put_all-append fs (put_field f buffer)
    ∙ (rw
        (
          put_all-append fs (put_field f []),
          append_assoc buffer (bytes_of 1 f.attr) (bytes_of f.width f.value),
          append_assoc buffer (put_field f []) (put_all fs []),
        )
        refl)

write-append : (n x : ℕ) (buffer : List ℕ) → write n x buffer ≡ buffer ++ write n x []
unfolding write
write-append n x buffer = refl

serialize-append : (c : Condition) (buffer : List ℕ) → serialize c buffer ≡ buffer ++ serialize c []
unfolding serialize
serialize-append c buffer =
    let own = own_fields c.kind in
    let base = base_fields c in
    rw
      (
        put_all-append own (put_all base buffer),
        put_all-append own (put_all base []),
        put_all-append base buffer,
      )
      (append_assoc buffer (put_all base []) (put_all own []))

save_conditions-append :
    (cs : List Condition) (buffer : List ℕ)
    → save_conditions cs buffer ≡ buffer ++ save_conditions cs []
unfolding save_conditions write
save_conditions-append [] buffer = sym (append-nil buffer)
save_conditions-append (c ∷ cs) buffer = elim (Bool-cases (is_persistent c || c.constant)) [
  | inl yes_kept ↦
      let whole = write 1 Attr.end (serialize c []) in
      rw
        (
          yes_kept,
          save_conditions-append cs (write 1 Attr.end (serialize c buffer)),
          save_conditions-append cs whole,
          serialize-append c buffer,
        )
        (let mark = bytes_of 1 Attr.end in
          append_assoc (buffer ++ serialize c []) mark (save_conditions cs [])
          ∙ append_assoc buffer (serialize c []) (mark ++ save_conditions cs [])
          ∙ ap (λ t. buffer ++ t)
              (sym (append_assoc (serialize c []) mark (save_conditions cs []))))
  | inr not_kept ↦ rw not_kept (save_conditions-append cs buffer)
]

bytes_of_byte : (x : ℕ) → x < 256 → bytes_of 4 x ≡ x ∷ (0 ∷ (0 ∷ (0 ∷ [])))
unfolding bytes_of
bytes_of_byte x h =
    let a : x % 256 ≡ x = omega arith in let b : x / 256 ≡ 0 = omega arith in rw (a, b) refl

-- The reader takes one of the four bytes of a colour, and the next is no attribute.
refused :
    (now : ℕ) (c : Condition) (l : Light) (color : ℕ) (s : List ℕ)
    → unserialize now (record c { kind = light l }) (Attr.light_color ∷ (color ∷ (0 ∷ s)))
      ≡ (none, s)
unfolding unserialize unserialize_loop pass pass_at pass_of unserialize_prop set_field reader_of
    light_reader base_reader
refused now c l color s =
    rw
      (
        read_byte_lem Attr.light_color (color ∷ (0 ∷ s)),
        read_byte_lem color (0 ∷ s),
        read_byte_lem 0 s,
        unserialize_loop,
      )
      refl

-- A light as it is saved: the base, and the rest behind its colour.
saved_light : Condition → Light → List ℕ
saved_light c l = write 1 Attr.end (serialize (record c { kind = light l }) [])

after_color : Light → List ℕ
after_color l =
    0
    ∷ (0
        ∷ encoded_all (
            field_of Attr.light_level 4 l.level
            ∷ (field_of Attr.light_ticks 4 l.internal_light_ticks
                ∷ (field_of Attr.light_interval 4 l.light_change_interval ∷ []))))

-- The numbers of a light fit their types.
abbrev pub LightFits : Light → Type 0
LightFits l =
    (l.color < 256)
    × ((l.level < 256) × ((l.internal_light_ticks < u32_mod) × (l.light_change_interval < u32_mod)))

saved_light_lem :
    (c : Condition) (l : Light) (s : List ℕ)
    → IsTyped (record c { kind = light l })
    → LightFits l
    → saved_light c l ++ s
      ≡ encoded_all (base_fields (record c { kind = light l }))
        ++ (Attr.light_color ∷ (l.color ∷ (0 ∷ (after_color l ++ (Attr.end ∷ s)))))
unfolding saved_light own_fields light_fields after_color saved
saved_light_lem c l s t (h, (k, (m, n))) =
    let d = record c { kind = light l } in
    let base = encoded_all (base_fields d) in
    let own = encoded_all (light_fields l) in
    let fits : InRange (light_fields l) = (
      omega arith,
      (
        omega arith,
        (omega arith, (omega arith, (omega arith, (m, (omega arith, (n, omega arith)))))),
      ),
    ) in
    rw
      (
        serialize_lem d [] t fits,
        append_assoc base (own ++ (Attr.end ∷ [])) s,
        append_assoc own (Attr.end ∷ []) s,
        bytes_of_byte l.color h,
      )
      refl

-- A condition that is made but whose attributes are refused before something else than a condition ends
-- the loop.
load_loop-refused :
    (now : ℕ) (c : Condition) (s r t : List ℕ) (stored : List Condition)
    → create_stored s ≡ some (c, r)
    → unserialize now c r ≡ (none, t)
    → create_stored t ≡ none
    → load_loop (suc (length s)) now s stored ≡ stored
unfolding load_loop store_read
load_loop-refused now c s r t stored e f g =
    load_loop_fuel (suc (length s)) (suc (suc (length s))) now s stored (omega arith) (omega arith)
    ∙ rw (e, load_loop, f, g, f) refl

create_stored-zero : (s : List ℕ) → create_stored (0 ∷ s) ≡ none
unfolding create_stored expect value_after
create_stored-zero s = rw (read_byte_lem 0 s) refl

load_loop-light :
    (now : ℕ) (c : Condition) (l : Light) (s : List ℕ) (stored : List Condition)
    → IsTyped (record c { kind = light l })
    → LightFits l
    → load_loop (suc (length (saved_light c l ++ s))) now (saved_light c l ++ s) stored ≡ stored
unfolding after_color fresh make blank_data class_of
load_loop-light now c l s stored t h =
    let d = record c { kind = light l } in
    let rest = after_color l ++ (Attr.end ∷ s) in
    let tail = Attr.light_color ∷ (l.color ∷ (0 ∷ rest)) in
    let bytes = saved_light_lem c l s t h in
    rw bytes (
      load_loop-refused now (fresh d) (encoded_all (base_fields d) ++ tail) tail rest stored
        (create_stored-base_fields d tail t) (refused now (fresh d) _ l.color rest)
        (create_stored-zero _))

save_conditions_append :
    (cs ds : List Condition) (buffer : List ℕ)
    → save_conditions (cs ++ ds) buffer ≡ save_conditions ds (save_conditions cs buffer)
unfolding save_conditions
save_conditions_append [] ds buffer = refl
save_conditions_append (c ∷ cs) ds buffer = elim (Bool-cases (is_persistent c || c.constant)) [
  | inl yes_kept ↦
      rw yes_kept (save_conditions_append cs ds (write 1 Attr.end (serialize c buffer)))
  | inr not_kept ↦ rw not_kept (save_conditions_append cs ds buffer)
]

save_conditions-snoc :
    (before : List Condition) (c : Condition) (after : List Condition) (buffer : List ℕ)
    → (is_persistent c || c.constant) ≡ true
    → save_conditions (before ++ (c ∷ after)) buffer
      ≡ save_conditions before buffer
        ++ (write 1 Attr.end (serialize c []) ++ save_conditions after [])
unfolding save_conditions
save_conditions-snoc before c after buffer k =
    let written : save_conditions (c ∷ after) []
        ≡ write 1 Attr.end (serialize c []) ++ save_conditions after [] =
      rw k (save_conditions-append after (write 1 Attr.end (serialize c []))) in
    save_conditions_append before (c ∷ after) buffer
    ∙ save_conditions-append (c ∷ after) (save_conditions before buffer)
    ∙ ap (λ t. save_conditions before buffer ++ t) written

-- A light that is saved, and every condition saved after it, are not loaded, whatever these are: what
-- is loaded are the conditions before it, which are as in the round trip.
pub load_conditions-light :
    (now : ℕ) (before after : List Condition) (c : Condition) (l : Light)
    → AllRestorable (kept before)
    → IsTyped (record c { kind = light l })
    → LightFits l
    → (is_persistent (record c { kind = light l }) || c.constant) ≡ true
    → load_conditions now (save_conditions (before ++ (record c { kind = light l } ∷ after)) [])
      ≡ reverse (map (as_loaded now) (kept before))
unfolding load_conditions saved_light
load_conditions-light now before after c l h t f k =
    let d = record c { kind = light l } in
    let tail = save_conditions after [] in
    rw (save_conditions-snoc before d after [] k, save_conditions_lem before [] h)
      (load_loop-saved_all now (kept before) (saved_light c l ++ tail) [] h
        ∙ load_loop-light now c l tail (reverse_aux (map (as_loaded now) (kept before)) []) t f)
