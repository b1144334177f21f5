-- ===== src/Bans/Rate.antt =====
-- How many attempts in a row are accepted.
use projeto_bruxo.Base.{
  ℕ, ◌+◌, ◌≤◌, ◌≡◌, refl, sym, ap, ◌∙◌, Bool, true, false, ◌&&◌, Option, none, some, List, [], ◌∷◌,
  leb, ◌==◌, if_cases, length, Bool-cases, inl, inr, arith,
}
use projeto_bruxo.Bans.{
  ConnectBlock, Ban, attempt, attempt_of, accept_connection, accept_all, after_attempts, no_ban,
}

abbrev count_of : Option ConnectBlock → ℕ
count_of none = 0
count_of (some b) = b.count

-- No count is past the limit.
pub record IsLimited (ban : Ban) : Type 0 where
  pub counts : (ip : ℕ) → count_of (ban.ip_connect_map ip) ≤ 5

attempt-limited : (now : ℕ) (b : ConnectBlock) → b.count ≤ 5 → (attempt now b).1.count ≤ 5
unfolding attempt
attempt-limited now b h = ground arith

attempt_of-limited :
    (now : ℕ) (o : Option ConnectBlock) → count_of o ≤ 5 → (attempt_of now o).1.count ≤ 5
unfolding attempt_of
attempt_of-limited now none h = omega arith
attempt_of-limited now (some b) h = attempt-limited now b h

-- What an attempt that is accepted leaves.
attempt_of-last :
    (now : ℕ) (o : Option ConnectBlock)
    → (attempt_of now o).0 ≡ true
    → (attempt_of now o).1.last_attempt ≡ now
unfolding attempt_of attempt
attempt_of-last now none h = refl
attempt_of-last now (some b) h = ground (h, arith)

-- An attempt soon after another counts, and is accepted up to the limit only.
attempt-counts :
    (now : ℕ) (b : ConnectBlock)
    → b.count ≤ 5
    → now ≤ b.last_attempt + 500
    → (attempt now b).0 ≡ true
    → (attempt now b).1.count ≡ b.count + 1
unfolding attempt
attempt-counts now b h soon e = ground (e, arith)

-- Each attempt is at most half a second after the one before.
abbrev pub quick : ℕ → List ℕ → Bool
quick last [] = true
quick last (now ∷ times) = leb now (last + 500) && quick now times

accept_connection-here :
    (now ip : ℕ) (ban : Ban)
    → (accept_connection now ip ban).1.ip_connect_map ip
      ≡ some (attempt_of now (ban.ip_connect_map ip)).1
unfolding accept_connection
accept_connection-here now ip ban = ground arith

answer_here :
    (now ip : ℕ) (ban : Ban)
    → (attempt_of now (ban.ip_connect_map ip)).0 ≡ (accept_connection now ip ban).0
unfolding accept_connection
answer_here now ip ban = refl

and_true : (a b : Bool) → (a && b) ≡ true → (a ≡ true) × (b ≡ true)
and_true true b h = (refl, h)
and_true false b h = absurd (ground (h, arith))

accept_all-quick :
    (ip : ℕ) (times : List ℕ) (ban : Ban) (b : ConnectBlock)
    → ban.ip_connect_map ip ≡ some b
    → b.count ≤ 5
    → quick b.last_attempt times ≡ true
    → accept_all ip times ban ≡ true
    → b.count + length times ≤ 5
unfolding accept_all attempt_of
accept_all-quick ip [] ban b e h q all = omega arith
accept_all-quick ip (now ∷ times) ban b e h q all =
    let answer = accept_connection now ip ban in
    let both = and_true answer.0 (accept_all ip times answer.1) all in
    let pace = and_true (leb now (b.last_attempt + 500)) (quick now times) q in
    let found : attempt_of now (ban.ip_connect_map ip) ≡ attempt_of now (some b) =
      ap (attempt_of now) e in
    let yes : (attempt now b).0 ≡ true =
      ap (λ p. p.0) (sym found) ∙ answer_here now ip ban ∙ both.0 in
    let next = accept_connection-here now ip ban ∙ ap (λ p. some p.1) found in
    let counted = attempt-counts now b h (ground (pace.0, arith)) yes in
    let last = attempt_of-last now (some b) yes in
    let limited = attempt-limited now b h in
    let rest =
      accept_all-quick ip times answer.1 (attempt now b).1 next limited
        (ap (λ t. quick t times) last ∙ pace.1) both.1 in
    omega (rest, counted, arith)

accept_connection-IsLimited :
    (now ip : ℕ) (ban : Ban) → IsLimited ban → IsLimited (accept_connection now ip ban).1
unfolding accept_connection
accept_connection-IsLimited now ip ban h = record {
  counts = λ k.
      if_cases (λ (o : Option ConnectBlock). count_of o ≤ 5) (ip == k)
        (λ _. attempt_of-limited now (ban.ip_connect_map ip) (h.counts ip)) (λ _. h.counts k);
}

after_attempts-IsLimited :
    (made : List (ℕ × ℕ)) (ban : Ban) → IsLimited ban → IsLimited (after_attempts made ban)
unfolding after_attempts
after_attempts-IsLimited [] ban h = h
after_attempts-IsLimited ((now, ip) ∷ rest) ban h =
    after_attempts-IsLimited rest (accept_connection now ip ban).1
      (accept_connection-IsLimited now ip ban h)

no_ban-IsLimited : IsLimited no_ban
no_ban-IsLimited = record { counts = λ ip. omega arith }

-- Whatever attempts were made before: if seven attempts of an address, or more, follow one another
-- by at most half a second, not all of them are accepted.
pub accept_all-refuses :
    (before : List (ℕ × ℕ)) (ip first : ℕ) (times : List ℕ)
    → quick first times ≡ true
    → 6 ≤ length times
    → accept_all ip (first ∷ times) (after_attempts before no_ban) ≡ false
unfolding accept_all
accept_all-refuses before ip first times q many =
    let ban = after_attempts before no_ban in
    let h = after_attempts-IsLimited before no_ban no_ban-IsLimited in
    elim (Bool-cases (accept_all ip (first ∷ times) ban)) [
      | inr e ↦ e
      | inl all ↦
          let answer = accept_connection first ip ban in
          let both = and_true answer.0 (accept_all ip times answer.1) all in
          let o = ban.ip_connect_map ip in
          let last = attempt_of-last first o (answer_here first ip ban ∙ both.0) in
          let limited = attempt_of-limited first o (h.counts ip) in
          let most =
            accept_all-quick ip times answer.1 (attempt_of first o).1
              (accept_connection-here first ip ban) limited (ap (λ t. quick t times) last ∙ q)
              both.1 in
          absurd (omega (most, many, arith))
    ]
