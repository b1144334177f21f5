-- ===== src/Party/Shared.antt =====
-- Shared experience of a party (party.cpp): who counts, and when it is on.
use projeto_bruxo.Base.{
  ◌≡◌, refl, ◌∙◌, inl, inr, arith, Option-cases, ℕ, ◌+◌, ◌-◌, ◌*◌, ◌/◌, ◌%◌, Bool, true, false, not,
  ◌&&◌, Option, none, some, List, [], ◌∷◌, ◌==◌, ltb, if◌then◌else◌, u64_mod,
}

-- What one call sees of the world outside the party code: the answers of the scripts, the clock,
-- the configuration, and what `canUseSharedExperience` asks of a player.
pub record Env : Type 0 where
  pub on_invite : Bool
  pub on_join : Bool
  pub on_leave : Bool
  pub on_pass_leadership : Bool
  pub on_revoke_invitation : Bool
  pub on_disband : ℕ → Bool
  pub level_of : ℕ → ℕ
  -- `leader->getPosition().isInRange(player->getPosition(), 30, 30, 1)`
  pub in_range : ℕ → ℕ → Bool
  pub not_gain_in_fight : ℕ → Bool
  pub in_fight : ℕ → Bool
  pub in_protection_zone : ℕ → Bool
  pub is_online : ℕ → Bool
  pub now : ℕ
  pub pz_locked : ℕ

-- `ticks` is `ticksMap`.
pub record Party : Type 0 where
  pub leader : ℕ
  pub members : List ℕ
  pub invitees : List ℕ
  pub shared_active : Bool
  pub shared_enabled : Bool
  pub ticks : List (ℕ × ℕ)

unfoldable pub find_ticks : ℕ → List (ℕ × ℕ) → Option ℕ
find_ticks x [] = none
find_ticks x ((y, t) ∷ l) = if y == x then some t else find_ticks x l

pub erase_ticks : ℕ → List (ℕ × ℕ) → List (ℕ × ℕ)
erase_ticks x [] = []
erase_ticks x ((y, t) ∷ l) = let rest = erase_ticks x l in if y == x then rest else (y, t) ∷ rest

unfoldable pub highest_level : Env → ℕ → List ℕ → ℕ
highest_level env best [] = best
highest_level env best (m ∷ ms) =
    highest_level env (if ltb best (env.level_of m) then env.level_of m else best) ms

-- `ceil((highestLevel * 2) / 3)` over `float`, which is exact for the levels that occur (below 2^22).
abbrev pub min_level : ℕ → ℕ
min_level highest = (2 * highest + 2) / 3

-- The last check: has the player healed or attacked recently?
unfoldable pub is_active : Env → Party → ℕ → Bool
is_active env p x =
    if not (env.not_gain_in_fight x)
    then elim (find_ticks x p.ticks) [
      | none ↦ false
      | some t ↦ not (ltb env.pz_locked ((env.now + u64_mod - t) % u64_mod))
    ]
    else true

-- `Party::canUseSharedExperience`
unfoldable pub can_use_shared_experience : Env → Party → ℕ → Bool
can_use_shared_experience env p x = elim p.members [
  | [] ↦ false
  | m ∷ ms ↦
      if ltb (env.level_of x) (min_level (highest_level env (env.level_of p.leader) (m ∷ ms)))
      then false
      else if not (env.in_range p.leader x)
      then false
      else is_active env p x
]

unfoldable pub all_can_use : Env → Party → List ℕ → Bool
all_can_use env p [] = true
all_can_use env p (m ∷ ms) = can_use_shared_experience env p m && all_can_use env p ms

-- `Party::canEnableSharedExperience`
unfoldable pub can_enable_shared_experience : Env → Party → Bool
can_enable_shared_experience env p =
    can_use_shared_experience env p p.leader && all_can_use env p p.members

-- `Party::updateSharedExperience`
unfoldable pub update_shared_experience : Env → Party → Party
update_shared_experience env p =
    if p.shared_active then record p { shared_enabled = can_enable_shared_experience env p } else p

-- `Party::setSharedExperience`
pub set_shared_experience : Env → Party → ℕ → Bool → Party × Bool
set_shared_experience env p x active = set (p.leader == x) active p.shared_active
  where
    set : Bool → Bool → Bool → Party × Bool
    set false a b = (p, false)
    set true true true = (p, true)
    set true false false = (p, true)
    set true true false = (
      record p {
        shared_active = true;
        shared_enabled = can_enable_shared_experience env (record p { shared_active = true });
      },
      true,
    )
    set true false true = (record p { shared_active = false }, true)

-- `Party::updatePlayerTicks`
pub update_player_ticks : Env → Party → ℕ → ℕ → Party
update_player_ticks env p x points =
    if not (points == 0) && not (env.not_gain_in_fight x)
    then update_shared_experience env (record p { ticks = (x, env.now) ∷ erase_ticks x p.ticks })
    else p

-- `Party::clearPlayerPoints`
unfoldable pub clear_player_points : Env → ℕ → Party → Party
clear_player_points env x p = elim (find_ticks x p.ticks) [
  | none ↦ p
  | some t ↦ update_shared_experience env (record p { ticks = erase_ticks x p.ticks })
]

-- Two values of a party with the same leader, members and invited players.
pub record SameLists (p r : Party) : Type 0 where
  pub leader : r.leader ≡ p.leader
  pub members : r.members ≡ p.members
  pub invitees : r.invitees ≡ p.invitees

pub SameLists-trans : {p q r : Party} → SameLists p q → SameLists q r → SameLists p r
SameLists-trans a b = record {
  leader = b.leader ∙ a.leader;
  members = b.members ∙ a.members;
  invitees = b.invitees ∙ a.invitees;
}

pub update_shared_experience-SameLists :
    (env : Env) (p : Party) → SameLists p (update_shared_experience env p)
unfolding update_shared_experience
update_shared_experience-SameLists env p = ground arith

update_again :
    (env : Env) (x : ℕ) (p : Party)
    → SameLists p (update_shared_experience env (record p { ticks = erase_ticks x p.ticks }))
update_again env x p =
    let s = update_shared_experience-SameLists env (record p { ticks = erase_ticks x p.ticks }) in
    record { leader = s.leader; members = s.members; invitees = s.invitees }

pub clear_player_points-SameLists :
    (env : Env) (x : ℕ) (p : Party) → SameLists p (clear_player_points env x p)
unfolding clear_player_points
clear_player_points-SameLists env x p = elim (Option-cases (find_ticks x p.ticks)) [
  | inl e ↦ rw (e, clear_player_points) (record { leader = refl; members = refl; invitees = refl })
  | inr (t, e) ↦ rw (e, clear_player_points) (update_again env x p)
]

pub set_shared_experience-SameLists :
    (env : Env) (p : Party) (x : ℕ) (active : Bool)
    → SameLists p (set_shared_experience env p x active).0
unfolding set_shared_experience
set_shared_experience-SameLists env p x active = ground arith
