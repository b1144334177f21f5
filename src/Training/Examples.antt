-- ===== src/Training/Examples.antt =====
-- Skills and magic levels: tests, and the theorems at these inputs.
use projeto_bruxo.Base.{ℕ, ◌+◌, ◌*◌, ◌/◌, ◌≡◌, false, true, [], arith, u16_mod, u32_mod, u64_mod}
use projeto_bruxo.Training.{Counter, Env, add_skill_advance, remove_skill_tries, remove_mana_spent}
use projeto_bruxo.Training.Rank.{IsCurve, InRank}
use projeto_bruxo.Training.Advance.{Reaches, add_skill_advance-Reaches}
use projeto_bruxo.Training.Drain.{remove_mana_spent-wraps}
use projeto_bruxo.Training.RoundTrip.{remove_skill_tries-add_skill_advance}

abbrev plain : Env
plain = record {
  on_gain_skill_tries = λ n. n;
  scaled_quotient = λ a b. a * 10000 / b;
  not_gain_mana = false;
}

-- A level takes ten tries more than the one below.
abbrev straight : ℕ → ℕ
straight l = 10 * l

abbrev fencer : Counter
fencer = record { level = 10; tries = 50; percent = 45; events = [] }

straight-IsCurve : IsCurve u16_mod straight 20
straight-IsCurve = record { grows = λ l h. omega arith; fits = omega arith; bounded = omega arith }

straight-IsCurve_magic : IsCurve u32_mod straight 20
straight-IsCurve_magic = record {
  grows = λ l h. omega arith;
  fits = omega arith;
  bounded = omega arith;
}

fencer-InRank : InRank straight fencer.level fencer.tries
fencer-InRank = record { short = omega arith }

add_skill_advance-Reaches_example :
    Reaches straight 800 (add_skill_advance plain straight 200 fencer)
add_skill_advance-Reaches_example =
    add_skill_advance-Reaches plain straight 20 200 fencer straight-IsCurve fencer-InRank
      (omega arith)

remove_mana_spent-wraps_example :
    let q = remove_mana_spent plain straight 601 true fencer in
    (q.level ≡ 0) × (q.tries + 601 ≡ 600 + u64_mod)
remove_mana_spent-wraps_example =
    remove_mana_spent-wraps plain straight 601 true fencer (λ l h. omega arith) fencer-InRank
      (omega arith) (omega arith)

remove_skill_tries-add_skill_advance_example :
    let q =
      remove_skill_tries plain straight 200 true (add_skill_advance plain straight 200 fencer) in
    (q.level ≡ 10) × (q.tries ≡ 50)
remove_skill_tries-add_skill_advance_example =
    remove_skill_tries-add_skill_advance plain straight 20 200 true fencer straight-IsCurve
      (λ l h. omega arith) fencer-InRank (omega arith) (omega arith)
