-- ===== src/Progress/Examples.antt =====
-- The progression of one character: tests against the source, and the theorems at that input.
use projeto_bruxo.Base.{◌*◌, ◌/◌, ◌≡◌, refl, floor_sub64, false, [], arith}
use projeto_bruxo.Base.Int.{pos}
use projeto_bruxo.Progress.Curve.{
  get_exp_for_level, hundreds, cost, exp_for_level_sum, get_exp_for_level_top,
}
use projeto_bruxo.Progress.Level.{InLevel}
use projeto_bruxo.Progress.Gain.{add_experience-InLevel}
use projeto_bruxo.Progress.Loss.{remove_experience-InLevel}
use projeto_bruxo.Progress.Stats.{HasRoom, Grown, add_experience-Grown}
use projeto_bruxo.Progress.Undo.{remove_experience-add_experience, IsCapped, experience-IsCapped}
use projeto_bruxo.Progress.{
  Vocation, Player, Env, add_experience, remove_experience, climb, round, descend, settle_gain,
  settle_loss,
}

abbrev plain : Env
plain = record {
  on_gain_experience = λ e. e;
  on_lose_experience = λ e. e;
  protection_level = 5;
  scaled_quotient = λ a b. a * 10000 / b;
}

abbrev apprentice : Vocation
apprentice = record { gain_hp = 5; gain_mana = 15; gain_cap = 1000; base_speed = 220 }

abbrev novice : Player
novice = record {
  level = 3;
  experience = 250;
  level_percent = 25;
  health = 90;
  health_max = 160;
  mana = 10;
  mana_max = 20;
  capacity = 40000;
  base_speed = 224;
  var_max_health = pos 0;
  var_max_mana = pos 0;
  max_speed_flag = false;
  in_party = false;
  events = [];
}

novice-InLevel : InLevel novice.level novice.experience
unfolding get_exp_for_level
novice-InLevel = record {
  positive = omega arith;
  below_top = omega arith;
  reached = omega arith;
  short = omega arith;
}

novice-HasRoom : HasRoom apprentice novice
novice-HasRoom = record { health_max = omega arith; mana_max = omega arith; capacity = omega arith }

-- 250 + 1000 points make level 5, one and a half hundred points below level 6.
novice_gains : (add_experience plain apprentice 1000 novice).level ≡ 5
unfolding add_experience climb round settle_gain get_exp_for_level
novice_gains = refl

novice_loses : (remove_experience plain apprentice 200 novice).level ≡ 1
unfolding remove_experience descend settle_loss get_exp_for_level floor_sub64
novice_loses = refl

exp_for_level_sum_example : get_exp_for_level 8 ≡ 4200
unfolding hundreds cost
exp_for_level_sum_example = exp_for_level_sum 7 (omega arith)

add_experience-InLevel_example :
    let q = add_experience plain apprentice 1000 novice in
    InLevel q.level q.experience × (q.experience ≡ 1250)
add_experience-InLevel_example =
    add_experience-InLevel plain apprentice 1000 novice novice-InLevel
      (rw get_exp_for_level_top (omega arith))

remove_experience-InLevel_example :
    let q = remove_experience plain apprentice 200 novice in
    InLevel q.level q.experience × (q.experience ≡ 50)
remove_experience-InLevel_example =
    remove_experience-InLevel plain apprentice 200 novice novice-InLevel (omega arith)

add_experience-Grown_example : Grown apprentice novice (add_experience plain apprentice 1000 novice)
add_experience-Grown_example =
    add_experience-Grown plain apprentice 1000 novice novice-InLevel
      (rw get_exp_for_level_top (omega arith)) novice-HasRoom

remove_experience-add_experience_example :
    let q = remove_experience plain apprentice 1000 (add_experience plain apprentice 1000 novice) in
    (q.level ≡ 3) × (q.experience ≡ 250)
remove_experience-add_experience_example =
    remove_experience-add_experience plain apprentice 1000 1000 novice novice-InLevel
      (rw get_exp_for_level_top (omega arith)) (omega arith) refl

experience-IsCapped_example :
    IsCapped (add_experience plain apprentice 1000 novice)
    × IsCapped (remove_experience plain apprentice 1000 novice)
experience-IsCapped_example = experience-IsCapped plain apprentice 1000 novice (omega arith)
