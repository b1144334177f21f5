-- ===== src/Creature/Addition.antt =====
-- What an addition of a condition answers.
use projeto_bruxo.Base.{◌≡◌, ◌⊎◌, Bool, true, false, List}
use projeto_bruxo.Conditions.{Condition}
use projeto_bruxo.Creature.{Entry, Creature}
use projeto_bruxo.Creature.Keys.{same_key, has_any}
use projeto_bruxo.Conditions.Types

-- No, and the conditions are as they were; or yes, and there is one of the key.
pub Answers : Condition → List Entry → Bool × Creature → Type 0
Answers c es r =
    ((r.0 ≡ false) × (r.1.conditions ≡ es))
    ⊎ ((r.0 ≡ true) × (has_any (same_key c) r.1.conditions ≡ true))
