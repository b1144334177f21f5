-- ===== src/Training.antt =====
-- Skills and the magic level (player.cpp): `addSkillAdvance`, `removeSkillTries`, `addManaSpent`
-- and `removeManaSpent`.
-- `req` is `Vocation::getReqSkillTries` for one skill, or `Vocation::getReqMana`: powers of
-- doubles, so a parameter. What clients and scripts are told is a list of events, in order.
pub mod Rank
pub mod Advance
pub mod Fall
pub mod Drain
pub mod RoundTrip
mod Examples
use projeto_bruxo.Base.{
  ℕ, zero, suc, ◌+◌, ◌-◌, ◌/◌, ◌%◌, Bool, true, false, not, ◌&&◌, ◌||◌, List, [], ◌∷◌, ◌++◌, ltb,
  leb, ◌==◌, if◌then◌else◌, u16_mod, u32_mod, u64_mod, add64, sub64,
}
use projeto_bruxo.Progress.{get_basis_point_level}

pub data Event : Type 0 where
  -- `playerAdvance(this, …, from, to)`
  advanced : ℕ → ℕ → Event
  -- "You were downgraded to … level"
  downgraded : ℕ → Event
  -- `sendSkills` or `sendStats`
  sent : Event

-- One skill, `skills[skill]`; or `magLevel`, `manaSpent` and `magLevelPercent`.
pub record Counter : Type 0 where
  pub level : ℕ
  pub tries : ℕ
  pub percent : ℕ
  pub events : List Event

-- What is asked of code outside: the scripts' `onGainSkillTries`, the quotient of doubles of
-- `getBasisPointLevel`, and the flag `PlayerFlag_NotGainMana`.
pub record Env : Type 0 where
  pub on_gain_skill_tries : ℕ → ℕ
  pub scaled_quotient : ℕ → ℕ → ℕ
  pub not_gain_mana : Bool

-- The width of the level (`uint16_t` for a skill, `uint32_t` for the magic level), and whether a
-- new level empties the bar at once.
pub record Kind : Type 0 where
  pub width : ℕ
  pub resets : Bool

abbrev pub skill : Kind
skill = record { width = u16_mod; resets = true }

abbrev pub magic : Kind
magic = record { width = u32_mod; resets = false }

abbrev pub minimum_skill_level : ℕ
minimum_skill_level = 10

-- The variables of the loop that advances. `is_topped` tells that it ended at the highest level.
pub record Run : Type 0 where
  pub counter : Counter
  pub count : ℕ
  pub curr : ℕ
  pub next : ℕ
  pub has_advanced : Bool
  pub is_topped : Bool

pub begin : Kind → (ℕ → ℕ) → ℕ → Counter → Run
begin k req count s = record {
  counter = s;
  count = count;
  curr = req s.level;
  next = req ((s.level + 1) % k.width);
  has_advanced = false;
  is_topped = false;
}

-- One round, up to its second test.
pub advance_once : Kind → (ℕ → ℕ) → Run → Run
advance_once k req a =
    let l = (a.counter.level + 1) % k.width in
    record {
      counter = record {
        level = l;
        tries = 0;
        percent = if k.resets then 0 else a.counter.percent;
        events = a.counter.events ++ advanced ((l + u32_mod - 1) % u32_mod) l ∷ [];
      };
      count = sub64 a.count (sub64 a.next a.counter.tries);
      curr = a.next;
      next = req ((l + 1) % k.width);
      has_advanced = true;
      is_topped = false;
    }

-- The loop, on fuel.
pub advance : ℕ → Kind → (ℕ → ℕ) → Run → Run
advance zero k req a = a
advance (suc fuel) k req a = elim (leb a.next (add64 a.counter.tries a.count)) [
  | false ↦ a
  | true ↦ elim (leb (advance_once k req a).next (advance_once k req a).curr) [
    | true ↦ record (advance_once k req a) { is_topped = true }
    | false ↦ advance fuel k req (advance_once k req a)
  ]
]

-- After the loop: the rest is added, and the bar set to what is reached of `next`.
pub settle : Env → ℕ → Run → Counter
settle env count a =
    let tries = add64 a.counter.tries count in
    let percent =
      if ltb a.curr a.next
      then get_basis_point_level env.scaled_quotient tries a.next / 100 % 256
      else 0 in
    record {
      level = a.counter.level;
      tries = tries;
      percent = percent;
      events =
          if a.has_advanced || not (a.counter.percent == percent)
          then a.counter.events ++ sent ∷ []
          else a.counter.events;
    }

-- `addSkillAdvance`
pub add_skill_advance : Env → (ℕ → ℕ) → ℕ → Counter → Counter
add_skill_advance env req count s =
    let gained = env.on_gain_skill_tries count in
    if leb (req ((s.level + 1) % u16_mod)) (req s.level)
    then s
    else if gained == 0
    then s
    else let a = advance (suc gained) skill req (begin skill req gained s) in
      settle env (if a.is_topped then 0 else a.count) a

-- `addManaSpent`
pub add_mana_spent : Env → (ℕ → ℕ) → ℕ → Counter → Counter
add_mana_spent env req amount s =
    let gained = env.on_gain_skill_tries amount in
    if env.not_gain_mana
    then s
    else if leb (req ((s.level + 1) % u32_mod)) (req s.level)
    then s
    else if gained == 0
    then s
    else let a = advance (suc gained) magic req (begin magic req gained s) in
      if a.is_topped then a.counter else settle env a.count a

-- The loop of `removeSkillTries`: the level, the tries and what is left to remove. Each round but
-- the last lowers the level, which is the fuel.
pub record Rest : Type 0 where
  pub level : ℕ
  pub tries : ℕ
  pub count : ℕ

pub skill_down : (ℕ → ℕ) → Rest → Rest
skill_down req r = record {
  level = r.level - 1;
  tries = req r.level;
  count = sub64 r.count r.tries;
}

pub fall_skill : ℕ → (ℕ → ℕ) → Rest → Rest
fall_skill zero req r = r
fall_skill (suc fuel) req r = elim (ltb r.tries r.count) [
  | false ↦ r
  | true ↦ elim (leb r.level minimum_skill_level) [
    | true ↦ record { level = minimum_skill_level; tries = 0; count = 0 }
    | false ↦ fall_skill fuel req (skill_down req r)
  ]
]

-- `std::max<int32_t>(0, a - b)` for 64-bit `a` and `b`.
pub floor_cast32 : ℕ → ℕ → ℕ
floor_cast32 a b = let d = sub64 a b % u32_mod in if ltb d 2147483648 then d else 0

-- The two notices at the end of both functions that remove.
pub notify_loss : Bool → Counter → Counter → Counter
notify_loss notify old s =
    let events =
      if not (old.level == s.level) then s.events ++ downgraded s.level ∷ [] else s.events in
    if notify && (not (old.level == s.level) || not (old.percent == s.percent))
    then record s { events = events ++ sent ∷ [] }
    else s

-- `removeSkillTries`
pub remove_skill_tries : Env → (ℕ → ℕ) → ℕ → Bool → Counter → Counter
remove_skill_tries env req count notify s =
    let r =
      fall_skill (suc s.level) req (record { level = s.level; tries = s.tries; count = count }) in
    let tries = floor_cast32 r.tries r.count in
    notify_loss notify s (record {
      level = r.level;
      tries = tries;
      percent = get_basis_point_level env.scaled_quotient tries (req r.level) / 100 % 256;
      events = s.events;
    })

-- The loop of `removeManaSpent`.
pub fall_mana : ℕ → (ℕ → ℕ) → Rest → Rest
fall_mana zero req r = r
fall_mana (suc fuel) req r = elim (ltb r.tries r.count && ltb 0 r.level) [
  | true ↦ fall_mana fuel req (skill_down req r)
  | false ↦ r
]

-- `removeManaSpent`
pub remove_mana_spent : Env → (ℕ → ℕ) → ℕ → Bool → Counter → Counter
remove_mana_spent env req amount notify s =
    let r = fall_mana s.level req (record { level = s.level; tries = s.tries; count = amount }) in
    let tries = sub64 r.tries r.count in
    let next = req ((r.level + 1) % u32_mod) in
    if amount == 0
    then s
    else notify_loss notify s (record {
      level = r.level;
      tries = tries;
      percent =
          if ltb (req r.level) next
          then get_basis_point_level env.scaled_quotient tries next / 100 % 256
          else 0;
      events = s.events;
    })
