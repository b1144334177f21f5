-- ===== src/Progress.antt =====
-- The progression of a character (player.h and player.cpp): levels from experience.
-- What `sendStats`, `g_game` and the scripts are told is kept as a list of events, in order.
mod Curve
pub mod Level
pub mod Gain
pub mod Loss
pub mod Stats
pub mod Undo
mod Examples
use Curve.{get_exp_for_level}
use projeto_bruxo.Base.{
  ℕ, zero, suc, ◌+◌, ◌-◌, ◌*◌, ◌/◌, ◌%◌, Bool, true, false, not, ◌&&◌, ◌||◌, List, [], ◌∷◌, ◌++◌,
  max, ltb, leb, ◌==◌, if◌then◌else◌, u16_mod, u32_mod, add64, sub64, floor_sub32, floor_sub64,
}
use projeto_bruxo.Base.Int.{ℤ, pos, pos_part, neg_part, ◌+ℤ◌}

-- What a vocation adds with each level, and its speed (`Vocation`).
pub record Vocation : Type 0 where
  pub gain_hp : ℕ
  pub gain_mana : ℕ
  pub gain_cap : ℕ
  pub base_speed : ℕ

pub data Event : Type 0 where
  stats_sent speed_changed health_added walkthrough_updated shared_experience_updated : Event
  -- `playerAdvance(this, SKILL_LEVEL, from, to)`
  advanced : ℕ → ℕ → Event

-- The fields of `Player` that experience touches. `health` and `health_max` are the bits of an `int32_t`,
-- so that one of 2^31 or more is negative; the others are unsigned. `var_max_health` and `var_max_mana` are the
-- entries of `varStats`.
pub record Player : Type 0 where
  pub level : ℕ
  pub experience : ℕ
  pub level_percent : ℕ
  pub health : ℕ
  pub health_max : ℕ
  pub mana : ℕ
  pub mana_max : ℕ
  pub capacity : ℕ
  pub base_speed : ℕ
  pub var_max_health : ℤ
  pub var_max_mana : ℤ
  pub max_speed_flag : Bool
  pub in_party : Bool
  pub events : List Event

abbrev pub player_max_speed : ℕ
player_max_speed = 1500

-- What the server asks of code outside it: the scripts' `onGainExperience` and
-- `onLoseExperience`, the `PROTECTION_LEVEL` of the configuration, and the truncated quotient
-- `(count * 10000.) / nextLevelCount` of doubles.
pub record Env : Type 0 where
  pub on_gain_experience : ℕ → ℕ
  pub on_lose_experience : ℕ → ℕ
  pub protection_level : ℕ
  pub scaled_quotient : ℕ → ℕ → ℕ

-- A word of 32 bits and a signed number, added as words of 32 bits.
add_signed : ℕ → ℤ → ℕ
add_signed x v = (x + pos_part v % u32_mod + (u32_mod - neg_part v % u32_mod)) % u32_mod

-- The larger of a number and a signed word.
at_least : ℕ → ℕ → ℕ
at_least low x = if ltb x 2147483648 then max low x else low

pub get_max_health : Player → ℕ
unfolding at_least add_signed
get_max_health p = at_least 1 (add_signed p.health_max p.var_max_health)

pub get_max_mana : Player → ℕ
unfolding at_least add_signed
get_max_mana p = at_least 0 (add_signed p.mana_max p.var_max_mana)

unfoldable pub get_basis_point_level : (ℕ → ℕ → ℕ) → ℕ → ℕ → ℕ
get_basis_point_level quotient count next =
    if next == 0
    then 0
    else let result = quotient count next % u16_mod in if ltb 10000 result then 0 else result

pub emit : Event → Player → Player
emit e p = record p { events = p.events ++ e ∷ [] }

pub emit_if : Bool → Event → Player → Player
unfolding emit
emit_if b e p = if b then emit e p else p

pub update_base_speed : Vocation → Player → Player
update_base_speed voc p = record p {
  base_speed =
      if not p.max_speed_flag
      then (voc.base_speed + 2 * ((p.level + u32_mod - 1) % u32_mod)) % u32_mod
      else player_max_speed;
}

-- The body of the loop of `addExperience`.
pub level_up : Vocation → Player → Player
level_up voc p = record p {
  level = (p.level + 1) % u32_mod;
  health_max = (p.health_max + voc.gain_hp) % u32_mod;
  health = (p.health + voc.gain_hp) % u32_mod;
  mana_max = (p.mana_max + voc.gain_mana) % u32_mod;
  mana = (p.mana + voc.gain_mana) % u32_mod;
  capacity = (p.capacity + voc.gain_cap) % u32_mod;
}

-- The player, `currLevelExp` and `nextLevelExp`.
pub record Climb : Type 0 where
  pub player : Player
  pub curr : ℕ
  pub next : ℕ

-- One round of that loop, up to its second test.
pub round : Vocation → Climb → Climb
unfolding level_up
round voc c =
    let p = level_up voc c.player in
    record { player = p; curr = c.next; next = get_exp_for_level ((p.level + 1) % u32_mod) }

-- The loop of `addExperience`, on fuel.
pub climb : ℕ → Vocation → Climb → Climb
climb zero voc c = c
climb (suc fuel) voc c = elim (leb c.next c.player.experience) [
  | true ↦ elim (leb (round voc c).next (round voc c).curr) [
    | true ↦ round voc c
    | false ↦ climb fuel voc (round voc c)
  ]
  | false ↦ c
]

-- What both functions do when the level has changed.
pub refresh : Vocation → Player → Player
unfolding emit update_base_speed get_max_health get_max_mana
refresh voc p = emit health_added (
    emit speed_changed
      (update_base_speed voc (record p { health = get_max_health p; mana = get_max_mana p })))

pub percent_between : Env → ℕ → ℕ → ℕ → ℕ
unfolding get_basis_point_level
percent_between env e curr next =
    if ltb curr next
    then get_basis_point_level env.scaled_quotient (sub64 e curr) (sub64 next curr) / 100 % 256
    else 0

-- The rest of `addExperience` after the loop, from the level before it.
pub settle_gain : Env → Vocation → ℕ → Climb → Player
unfolding emit emit_if refresh percent_between
settle_gain env voc prev c =
    let p = c.player in
    let q =
      if not (prev == p.level)
      then emit (advanced prev p.level) (
          emit_if p.in_party shared_experience_updated (
            emit_if (ltb prev env.protection_level && leb env.protection_level p.level)
              walkthrough_updated (refresh voc p)))
      else p in
    emit stats_sent (record q { level_percent = percent_between env q.experience c.curr c.next })

-- `addExperience`
pub add_experience : Env → Vocation → ℕ → Player → Player
add_experience env voc exp p =
    let curr = get_exp_for_level p.level in
    let next = get_exp_for_level ((p.level + 1) % u32_mod) in
    let gained = env.on_gain_experience exp in
    if leb next curr
    then emit stats_sent (record p { level_percent = 0 })
    else if gained == 0
    then p
    else let q = record p { experience = add64 p.experience gained } in
      settle_gain env voc p.level
        (climb (suc q.experience) voc (record { player = q; curr = curr; next = next }))

-- The body of the loop of `removeExperience`.
pub level_down : Vocation → Player → Player
level_down voc p = record p {
  level = (p.level + u32_mod - 1) % u32_mod;
  health_max = floor_sub32 p.health_max voc.gain_hp;
  mana_max = floor_sub32 p.mana_max voc.gain_mana;
  capacity = floor_sub32 p.capacity voc.gain_cap;
}

-- The loop of `removeExperience`; each round lowers the level, which is the fuel.
pub descend : ℕ → Vocation → Player → Player
unfolding level_down
descend zero voc p = p
descend (suc fuel) voc p = elim (ltb 1 p.level && ltb p.experience (get_exp_for_level p.level)) [
  | true ↦ descend fuel voc (level_down voc p)
  | false ↦ p
]

pub settle_loss : Env → Vocation → ℕ → Player → Player
unfolding emit emit_if refresh percent_between
settle_loss env voc old p =
    let q =
      if not (old == p.level)
      then emit_if p.in_party shared_experience_updated (
          emit_if (leb env.protection_level old && ltb p.level env.protection_level)
            walkthrough_updated (refresh voc p))
      else p in
    let curr = get_exp_for_level q.level in
    let next = get_exp_for_level ((q.level + 1) % u32_mod) in
    emit stats_sent (record q { level_percent = percent_between env q.experience curr next })

-- `removeExperience`
pub remove_experience : Env → Vocation → ℕ → Player → Player
remove_experience env voc exp p =
    let lost = env.on_lose_experience exp in
    if p.experience == 0 || exp == 0
    then p
    else if lost == 0
    then p
    else let q = record p { experience = floor_sub64 p.experience lost } in
      settle_loss env voc p.level (descend q.level voc q)
