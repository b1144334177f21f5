-- ===== src/Conditions/Damages/Rounds.antt =====
-- `ConditionDamage::generateDamageList` ends, and counts down.
use projeto_bruxo.Base.{ℕ, zero, suc, ◌+◌, ◌-◌, ◌*◌, ◌/◌, List, [], ◌∷◌, ◌++◌, if_cases}
use projeto_bruxo.Conditions.Damages.{repeat_damage, damage_rounds, generate_damage_list}
use projeto_bruxo.Conditions.Damages.Floats.{nearer}

-- The lists that go down to 1 from a number, with every number once or more.
pub data CountsDown : ℕ → List ℕ → Type 0 where
  done : CountsDown 0 []
  next : (k : ℕ) (l : List ℕ) → CountsDown k l → CountsDown (suc k) (suc k ∷ l)
  again : (k : ℕ) (l : List ℕ) → CountsDown (suc k) l → CountsDown (suc k) (suc k ∷ l)

repeat_damage-CountsDown :
    (fuel k med sum : ℕ) (rest : List ℕ)
    → CountsDown k rest
    → CountsDown (suc k) ((repeat_damage (suc fuel) (suc k) med sum).1 ++ rest)
unfolding repeat_damage
repeat_damage-CountsDown zero k med sum rest c =
    if_cases (λ (r : ℕ × List ℕ). CountsDown (suc k) (r.1 ++ rest))
      (nearer (sum + suc k) (suc k) med) (λ h. next k rest c) (λ h. next k rest c)
repeat_damage-CountsDown (suc fuel) k med sum rest c =
    if_cases (λ (r : ℕ × List ℕ). CountsDown (suc k) (r.1 ++ rest))
      (nearer (sum + suc k) (suc k) med)
      (λ h. again k _ (repeat_damage-CountsDown fuel k med (sum + suc k) rest c))
      (λ h. next k rest c)

damage_rounds-CountsDown :
    (fuel amount start i sum : ℕ) → CountsDown i (damage_rounds (suc fuel) amount start i sum)
unfolding damage_rounds
damage_rounds-CountsDown fuel amount start zero sum = done
damage_rounds-CountsDown fuel amount start (suc k) sum =
    let med = (start + 1 - suc k) * amount / start in
    let round = repeat_damage (suc fuel) (suc k) med sum in
    repeat_damage-CountsDown fuel k med sum _ (damage_rounds-CountsDown fuel amount start k round.0)

-- The damages are a count down from the start to 1, each number once or more.
pub generate_damage_list-CountsDown :
    (amount start : ℕ) → CountsDown start (generate_damage_list amount start)
unfolding generate_damage_list
generate_damage_list-CountsDown amount start = damage_rounds-CountsDown amount amount start start 0
