-- ===== src/Conditions/Damages/Lasting.antt =====
-- A damage condition that is started lasts for its damages, and deals them in order.
use projeto_bruxo.Base.{ℕ, ◌+◌, ◌*◌, ◌%◌, List, [], ◌∷◌, map, length, u64_mod}
use projeto_bruxo.Conditions.{IntervalInfo, Damage, damage, Condition}
use projeto_bruxo.Conditions.Damages.{
  negated32, think_time, interval_of, start_of, generate_damage_list,
}

-- The damages that `init` makes of a list.
abbrev pub intervals_of : ℕ → List ℕ → List IntervalInfo
intervals_of time values = map (λ v. interval_of time (negated32 v)) values

-- A list that counts down from one or more is not empty.
data IsCons : List ℕ → Type 0 where
  cons : (x : ℕ) (xs : List ℕ) → IsCons (x ∷ xs)

-- A condition with this damage, `amount` in all, once it is initialised.
abbrev pub initialised : ℕ → ℕ → Condition → Damage → Condition
initialised now amount c d =
    let values = generate_damage_list amount (start_of amount d) in
    record c {
      ticks = length values * think_time d.tick_interval;
      end_time = (length values * think_time d.tick_interval + now) % u64_mod;
      kind = damage (record d {
        start_damage = start_of amount d;
        damage_list = intervals_of d.tick_interval values;
      });
    }

-- The damages of `d`, with none yet and no period.
abbrev pub no_damages : Damage → Damage
no_damages d = record d { period_damage = 0; damage_list = [] }
