-- ===== src/Bans/Examples.antt =====
-- An address that connects too often: tests, and the theorem at it.
use projeto_bruxo.Base.{◌≡◌, refl, true, false, [], ◌∷◌, arith}
use projeto_bruxo.Bans.{no_ban, attempt, attempt_of, accept_connection, accept_all, after_attempts}
use projeto_bruxo.Bans.Rate.{accept_all-refuses}

-- Five attempts a second apart pass, and so does the sixth, which starts the count again.
slow_pass : accept_all 7 (1000 ∷ 2000 ∷ 3000 ∷ 4000 ∷ 5000 ∷ 6000 ∷ 7000 ∷ []) no_ban ≡ true
unfolding accept_all accept_connection attempt_of attempt
slow_pass = refl

-- The sixth of six attempts at once does not.
burst_blocked :
    (accept_all 7 (10 ∷ 20 ∷ 30 ∷ 40 ∷ 50 ∷ []) no_ban ≡ true)
    × (accept_all 7 (10 ∷ 20 ∷ 30 ∷ 40 ∷ 50 ∷ 60 ∷ []) no_ban ≡ false)
unfolding accept_all accept_connection attempt_of attempt
burst_blocked = (refl, refl)

accept_all-refuses_example :
    accept_all 7
      (9000 ∷ 9100 ∷ 9200 ∷ 9300 ∷ 9400 ∷ 9500 ∷ 9600 ∷ [])
      (after_attempts ((1000, 7) ∷ (2000, 8) ∷ []) no_ban)
    ≡ false
accept_all-refuses_example =
    accept_all-refuses ((1000, 7) ∷ (2000, 8) ∷ []) 7 9000
      (9100 ∷ 9200 ∷ 9300 ∷ 9400 ∷ 9500 ∷ 9600 ∷ []) refl (omega arith)
