-- ===== src/Conditions/Rates.antt =====
-- The experience rates of saved attributes are not loaded: they are written as special skills.
use projeto_bruxo.Base.{
  ℕ, zero, suc, ◌<◌, ◌≡◌, refl, ◌∙◌, Bool, true, ◌||◌, some, List, [], ◌∷◌, ◌++◌, map, arith,
  replicate, u32_mod,
}
use mathlib.Core.List.{append-nil}
use projeto_bruxo.Conditions.{Condition, Attributes, attributes}
use projeto_bruxo.Conditions.Classes.{of_attributes, make, blank_data, initial_ticks}
use projeto_bruxo.Conditions.Fields.{
  Field, field_of, attributes_fields, own_fields, is_persistent, save_conditions, bit,
}
use projeto_bruxo.Conditions.Readers.{
  attributes_reader, reader_of, read_skill, read_special_skill, read_stat, set_across, past_end,
}
use projeto_bruxo.Conditions.Load.{load_conditions}
use projeto_bruxo.Conditions.Header.{IsTyped, fresh, class_of, bit_lem, bit_fits}
use projeto_bruxo.Conditions.Encoding.{InRange, taken_by, taken_all}
use projeto_bruxo.Conditions.RoundTrip.{saved, serialize_lem}
use projeto_bruxo.Conditions.Storage.{load_loop-saved, load_loop-nil}
use projeto_bruxo.Conditions.Attr

-- The first `n` values of a function.
abbrev pub table : ℕ → (ℕ → ℕ) → List ℕ
table zero f = []
table (suc n) f = f 0 ∷ table n (λ i. f (suc i))

table-InRange :
    (attr n : ℕ) (f : ℕ → ℕ) (fs : List Field)
    → attr < 254
    → ((i : ℕ) → f i < u32_mod)
    → InRange fs
    → InRange (map (field_of attr 4) (table n f) ++ fs)
table-InRange attr zero f fs h k l = l
table-InRange attr (suc n) f fs h k l =
    (h, (k 0, table-InRange attr n (λ i. f (suc i)) fs h (λ i. k (suc i)) l))

module _ (c : Condition) (skills stats special_skills rates : ℕ → ℕ) (disable_defense : Bool) where
  -- Attributes with these values in the arrays that are saved, made from other attributes.
  unfoldable pub with_values : Attributes → Condition
  with_values a = record c {
    kind = attributes (record a {
      skills = table 7 skills;
      stats = table 4 stats;
      special_skills = table 6 special_skills;
      experience_rate = table 5 rates;
      disable_defense = disable_defense;
    });
  }

  -- The condition with these values, but no experience rates, and those that were saved as its stats.
  unfoldable pub without_rates : Condition
  without_rates = record (fresh (record c { kind = blank_data of_attributes 0 })) {
    kind = attributes (record {
      skills = table 7 skills;
      skills_percent = replicate 7 0;
      special_skills = table 6 special_skills;
      stats = table 4 (λ i. rates (suc i));
      stats_percent = replicate 4 0;
      experience_rate = replicate 5 0;
      current_skill = 7;
      current_special_skill = 10;
      current_stat = 4;
      current_experience_rate = 0;
      disable_defense = disable_defense;
      overrun = true;
    });
  }

  taken_all-attributes :
      (now : ℕ) (a : Attributes)
      → taken_all now (fresh (with_values a)) (own_fields (with_values a).kind) ≡ some without_rates
  unfolding with_values without_rates own_fields attributes_fields taken_all taken_by fresh make
      blank_data class_of reader_of attributes_reader read_skill read_special_skill read_stat
      set_across past_end initial_ticks
  taken_all-attributes now a = rw (bit_lem disable_defense) refl

  attributes_fields-InRange :
      (a : Attributes)
      → ((i : ℕ) → skills i < u32_mod)
      → ((i : ℕ) → stats i < u32_mod)
      → ((i : ℕ) → special_skills i < u32_mod)
      → ((i : ℕ) → rates i < u32_mod)
      → InRange (own_fields (with_values a).kind)
  unfolding with_values own_fields attributes_fields
  attributes_fields-InRange a h k l m =
      let rate_fields = map (field_of Attr.special_skills 4) (table 4 (λ i. rates (suc i))) in
      let special_fields = map (field_of Attr.special_skills 4) (table 6 special_skills) in
      let defense = field_of Attr.disable_defense 1 (bit disable_defense) in
      let stat_fields = map (field_of Attr.stats 4) (table 4 stats) in
      table-InRange Attr.skills 7 skills
        (stat_fields ++ (defense ∷ (special_fields ++ rate_fields))) (omega arith) h
        (table-InRange Attr.stats 4 stats (defense ∷ (special_fields ++ rate_fields)) (omega arith)
          k
          (
            omega arith,
            (
              bit_fits disable_defense,
              table-InRange Attr.special_skills 6 special_skills rate_fields (omega arith) l (
                  table-InRange Attr.special_skills 4 (λ i. rates (suc i)) [] (omega arith)
                    (λ i. m (suc i)) (omega arith)),
            ),
          ))

  -- A condition of attributes that is saved, whose numbers fit, is loaded without its experience rates:
  -- its skills and special skills are those that were saved, its rates are 0, and the four rates that
  -- were saved are written past the end of the special skills, over its four stats, which follow them in
  -- the object.
  pub load_conditions-attributes :
      (now : ℕ) (a : Attributes)
      → ((i : ℕ) → skills i < u32_mod)
      → ((i : ℕ) → stats i < u32_mod)
      → ((i : ℕ) → special_skills i < u32_mod)
      → ((i : ℕ) → rates i < u32_mod)
      → IsTyped (with_values a)
      → (is_persistent (with_values a) || (with_values a).constant) ≡ true
      → load_conditions now (save_conditions (with_values a ∷ []) []) ≡ without_rates ∷ []
  unfolding load_conditions save_conditions
  load_conditions-attributes now a h k l m t p =
      let r = attributes_fields-InRange a h k l m in
      rw (p, serialize_lem (with_values a) [] t r, ← append-nil (saved (with_values a)))
        (load_loop-saved now (with_values a) without_rates [] [] t r (taken_all-attributes now a)
          ∙ load_loop-nil now (without_rates ∷ []))
