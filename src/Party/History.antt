-- ===== src/Party/History.antt =====
-- What holds of the parties after any history of requests.
use projeto_bruxo.Base.{ℕ, ◌≡◌, refl, true, List, [], ◌∷◌}
use projeto_bruxo.Party.Shared.{Env}
use projeto_bruxo.Party.{World}
use projeto_bruxo.Party.Invariant.{IsConsistent}
use projeto_bruxo.Party.Calls.{Request, step, run, no_parties}
use projeto_bruxo.Party.Consistency.{step-IsConsistent}

-- No script refuses to let a party disband.
abbrev pub MayDisband : List (Env × Request) → Type 0
MayDisband [] = Unit {0}
MayDisband ((env, r) ∷ rest) = ((pid : ℕ) → env.on_disband pid ≡ true) × MayDisband rest

no_parties-IsConsistent : IsConsistent no_parties
no_parties-IsConsistent = record {
  stands = λ q. tt;
  belongs_eq = λ q x. refl;
  invited_eq = λ q x. refl;
  fresh = λ q h. refl;
}

run-IsConsistent :
    (history : List (Env × Request)) (w : World)
    → MayDisband history
    → IsConsistent w
    → IsConsistent (run history w)
unfolding run
run-IsConsistent [] w d v = v
run-IsConsistent ((env, r) ∷ rest) w d v =
    run-IsConsistent rest (step env r w) d.1 (step-IsConsistent env d.0 w v r)

-- From a server with no party, whatever is asked in whatever order, the pointers of players and
-- parties agree: a party stands at the end of each pointer and lists the player, nobody is
-- listed twice or both leads and follows, and no party is left empty. Scripts never refuse to disband.
pub run-no_parties-IsConsistent :
    (history : List (Env × Request)) → MayDisband history → IsConsistent (run history no_parties)
run-no_parties-IsConsistent history d =
    run-IsConsistent history no_parties d no_parties-IsConsistent
