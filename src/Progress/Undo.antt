-- ===== src/Progress/Undo.antt =====
-- A loss of experience undoes a gain of it, and the percentage of the level bar stays one
-- (`addExperience`, `removeExperience`, `getBasisPointLevel`).
use projeto_bruxo.Base.{
  ℕ, ◌+◌, ◌≤◌, ◌<◌, ◌≡◌, ◌≢◌, ◌∙◌, Bool, true, false, arith, ◌==◌, if◌then◌else◌,
}
use projeto_bruxo.Progress.Curve.{get_exp_for_level, top_level, level_unique}
use projeto_bruxo.Progress.Level.{InLevel, top_in_range}
use projeto_bruxo.Progress.Gain.{add_experience-InLevel}
use projeto_bruxo.Progress.Loss.{remove_experience-InLevel}
use projeto_bruxo.Progress.{
  Vocation, Player, Env, Climb, emit, stats_sent, add_experience, remove_experience, settle_gain,
  settle_loss, percent_between,
}

same_level : (a b e e' : ℕ) → InLevel a e → InLevel b e' → e ≡ e' → a ≡ b
same_level a b e e' v w h =
    level_unique a b e v.positive w.positive v.below_top w.below_top v.reached v.short
      (omega (arith, w.reached)) (omega (arith, w.short))

-- Losing exactly what was just gained restores the level and the experience, if the level was
-- right before and the experience in between is below that of level 800000.
pub remove_experience-add_experience :
    (env : Env) (voc : Vocation) (gained lost : ℕ) (p : Player)
    → InLevel p.level p.experience
    → p.experience + env.on_gain_experience gained < get_exp_for_level top_level
    → lost ≢ 0
    → env.on_lose_experience lost ≡ env.on_gain_experience gained
    → let q = remove_experience env voc lost (add_experience env voc gained p) in
      (q.level ≡ p.level) × (q.experience ≡ p.experience)
remove_experience-add_experience env voc gained lost p v h nz e =
    let (w, x) = add_experience-InLevel env voc gained p v h in
    let (u, y) =
      remove_experience-InLevel env voc lost (add_experience env voc gained p) w
        (omega (arith, top_in_range)) in
    let asked : (lost == 0) ≡ false = ground arith in
    let back : (remove_experience env voc lost (add_experience env voc gained p)).experience
        ≡ p.experience =
      rw asked at y ∙ omega arith in
    (same_level _ _ _ _ u v back, back)

percent_between-le : (env : Env) (e curr next : ℕ) → percent_between env e curr next ≤ 100
unfolding percent_between
percent_between-le env e curr next = ground arith

pub record IsCapped (p : Player) : Type 0 where
  pub at_most : p.level_percent ≤ 100

stats_sent-IsCapped : (p : Player) → IsCapped (emit stats_sent (record p { level_percent = 0 }))
unfolding emit
stats_sent-IsCapped p = omega arith

settle_gain-IsCapped :
    (env : Env) (voc : Vocation) (prev : ℕ) (c : Climb) → IsCapped (settle_gain env voc prev c)
unfolding settle_gain
settle_gain-IsCapped env voc prev c = record { at_most = percent_between-le env _ _ _ }

settle_loss-IsCapped :
    (env : Env) (voc : Vocation) (old : ℕ) (p : Player) → IsCapped (settle_loss env voc old p)
unfolding settle_loss
settle_loss-IsCapped env voc old p = record { at_most = percent_between-le env _ _ _ }

if-IsCapped : (b : Bool) {p q : Player} → IsCapped p → IsCapped q → IsCapped (if b then p else q)
if-IsCapped true h k = h
if-IsCapped false h k = k

-- From a level bar of at most 100 percent, neither addExperience nor removeExperience leaves one
-- above, whatever the quotient of doubles yields.
pub experience-IsCapped :
    (env : Env) (voc : Vocation) (exp : ℕ) (p : Player)
    → IsCapped p
    → IsCapped (add_experience env voc exp p) × IsCapped (remove_experience env voc exp p)
unfolding add_experience remove_experience
experience-IsCapped env voc exp p h = (
  if-IsCapped _ (stats_sent-IsCapped p) (if-IsCapped _ h (settle_gain-IsCapped env voc _ _)),
  if-IsCapped _ h (if-IsCapped _ h (settle_loss-IsCapped env voc _ _)),
)
