-- ===== src/Party/Levels.antt =====
-- Who may share experience: `canUseSharedExperience`, `canEnableSharedExperience` of party.cpp.
use projeto_bruxo.Base.{
  ℕ, ◌*◌, ◌≤◌, ◌≡◌, true, some, List, [], ◌∷◌, ◌==◌, arith, contains, Bool-cases, inl, inr,
}
use projeto_bruxo.Party.Shared.{
  Env, Party, highest_level, can_use_shared_experience, all_can_use, can_enable_shared_experience,
}
use projeto_bruxo.Party.Invariant.{belongs}

highest_level-ge : (env : Env) (best : ℕ) (ms : List ℕ) → best ≤ highest_level env best ms
unfolding highest_level
highest_level-ge env best [] = omega arith
highest_level-ge env best (m ∷ ms) =
    ground (arith, highest_level-ge env (env.level_of m) ms, highest_level-ge env best ms)

member-le-highest_level :
    (env : Env) (best x : ℕ) (ms : List ℕ)
    → contains x ms ≡ true
    → env.level_of x ≤ highest_level env best ms
unfolding highest_level
member-le-highest_level env best x [] h = ground arith
member-le-highest_level env best x (m ∷ ms) h = ground (
  arith,
  member-le-highest_level env best x ms,
  member-le-highest_level env (env.level_of m) x ms,
  highest_level-ge env best ms,
  highest_level-ge env (env.level_of m) ms,
)

belongs-le-highest_level :
    (env : Env) (p : Party) (y : ℕ)
    → belongs (some p) y ≡ true
    → env.level_of y ≤ highest_level env (env.level_of p.leader) p.members
belongs-le-highest_level env p y b = elim (Bool-cases (y == p.leader)) [
  | inl e ↦ ground (arith, highest_level-ge env (env.level_of p.leader) p.members)
  | inr n ↦ member-le-highest_level env (env.level_of p.leader) y p.members (ground arith)
]

can_use_level :
    (env : Env) (p : Party) (x y : ℕ)
    → can_use_shared_experience env p x ≡ true
    → belongs (some p) y ≡ true
    → 2 * env.level_of y ≤ 3 * env.level_of x
unfolding can_use_shared_experience
can_use_level env p x y h b = ground (arith, belongs-le-highest_level env p y b)

all_can_use-member :
    (env : Env) (p : Party) (x : ℕ) (ms : List ℕ)
    → all_can_use env p ms ≡ true
    → contains x ms ≡ true
    → can_use_shared_experience env p x ≡ true
unfolding all_can_use
all_can_use-member env p x [] h c = ground arith
all_can_use-member env p x (m ∷ ms) h c = ground (arith, all_can_use-member env p x ms)

-- Shared experience can be on only if no two of the party are further apart than two thirds: three
-- times the level of anyone in it reaches twice that of anyone else in it.
pub can_enable_levels :
    (env : Env) (p : Party) (x y : ℕ)
    → can_enable_shared_experience env p ≡ true
    → belongs (some p) x ≡ true
    → belongs (some p) y ≡ true
    → 2 * env.level_of y ≤ 3 * env.level_of x
unfolding can_enable_shared_experience
can_enable_levels env p x y h b c =
    can_use_level env p x y (ground (arith, all_can_use-member env p x p.members)) c
