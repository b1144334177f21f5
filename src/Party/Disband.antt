-- ===== src/Party/Disband.antt =====
-- `Party::disband`: whoever was in the party or invited to it is released, and nobody else.
use projeto_bruxo.Base.{
  ℕ, ◌≤◌, ◌≡◌, refl, true, false, not, ◌&&◌, none, some, List, [], ◌∷◌, ◌==◌, arith, contains,
  update, contains-remove, Bool-cases, inl, inr,
}
use projeto_bruxo.Party.Shared.{Env, Party}
use projeto_bruxo.Party.{
  World, points, set_party, put_party, remove_party_invitation, disband, forget_invitees,
  release_members,
}
use projeto_bruxo.Party.Invariant.{belongs, invited, Stands, IsConsistent}

forget_party_of :
    (pid : ℕ) (xs : List ℕ) (w : World) → (forget_invitees pid xs w).party_of ≡ w.party_of
unfolding forget_invitees
forget_party_of pid [] w = refl
forget_party_of pid (x ∷ xs) w = forget_party_of pid xs (remove_party_invitation x pid w)

forget_invites :
    (pid : ℕ) (xs : List ℕ) (w : World) (q y : ℕ)
    → contains q ((forget_invitees pid xs w).invites y)
      ≡ (contains q (w.invites y) && not (q == pid && contains y xs))
unfolding forget_invitees
forget_invites pid [] w q y = ground arith
forget_invites pid (x ∷ xs) w q y = ground (
  arith,
  forget_invites pid xs (remove_party_invitation x pid w) q y,
  contains-remove q pid (w.invites x),
)

release_party_of :
    (xs : List ℕ) (w : World) (q y : ℕ)
    → points ((release_members xs w).party_of y) q
      ≡ (points (w.party_of y) q && not (contains y xs))
unfolding release_members
release_party_of [] w q y = ground arith
release_party_of (x ∷ xs) w q y = ground (arith, release_party_of xs (set_party x none w) q y)

release_invites : (xs : List ℕ) (w : World) → (release_members xs w).invites ≡ w.invites
unfolding release_members
release_invites [] w = refl
release_invites (x ∷ xs) w = release_invites xs (set_party x none w)

loops_keep :
    (pid : ℕ) (xs ys : List ℕ) (w : World)
    → ((release_members ys (forget_invitees pid xs w)).parties ≡ w.parties)
      × ((release_members ys (forget_invitees pid xs w)).next_party ≡ w.next_party)
unfolding forget_invitees release_members
loops_keep pid [] [] w = (refl, refl)
loops_keep pid [] (y ∷ ys) w = loops_keep pid [] ys (set_party y none w)
loops_keep pid (x ∷ xs) ys w = loops_keep pid xs ys (remove_party_invitation x pid w)

-- `p` lists all that point to the party `pid`, and nothing that points elsewhere.
pub record Covers (pid : ℕ) (p : Party) (w : World) : Type 0 where
  pub stands : (q : ℕ) → (pid == q) ≡ false → Stands (w.parties q)
  pub belongs_eq :
      (q x : ℕ) → (pid == q) ≡ false → points (w.party_of x) q ≡ belongs (w.parties q) x
  pub invited_eq :
      (q x : ℕ) → (pid == q) ≡ false → contains q (w.invites x) ≡ invited (w.parties q) x
  pub fresh : (q : ℕ) → w.next_party ≤ q → (pid == q) ≡ false → w.parties q ≡ none
  pub listed : (x : ℕ) → points (w.party_of x) pid ≡ true → belongs (some p) x ≡ true
  pub aside :
      (q x : ℕ) → (pid == q) ≡ false → belongs (some p) x ≡ true → points (w.party_of x) q ≡ false
  pub invited_listed : (x : ℕ) → contains pid (w.invites x) ≡ true → invited (some p) x ≡ true

pub disband_party_of :
    (env : Env) (pid : ℕ) (p : Party) (w : World) (q y : ℕ)
    → env.on_disband pid ≡ true
    → points ((disband env pid p w).party_of y) q
      ≡ (points (w.party_of y) q && not (belongs (some p) y))
unfolding disband put_party
disband_party_of env pid p w q y h =
    rw
      (
        h,
        release_party_of p.members (forget_invitees pid p.invitees (set_party p.leader none w)) q y,
        forget_party_of pid p.invitees (set_party p.leader none w),
      )
      (unfold set_party in ground arith)

pub disband_invites :
    (env : Env) (pid : ℕ) (p : Party) (w : World) (q y : ℕ)
    → env.on_disband pid ≡ true
    → contains q ((disband env pid p w).invites y)
      ≡ (contains q (w.invites y) && not (q == pid && contains y p.invitees))
unfolding disband put_party
disband_invites env pid p w q y h =
    rw
      (
        h,
        release_invites p.members (forget_invitees pid p.invitees (set_party p.leader none w)),
        forget_invites pid p.invitees (set_party p.leader none w) q y,
      )
      (unfold set_party in refl)

pub disband_parties :
    (env : Env) (pid : ℕ) (p : Party) (w : World)
    → env.on_disband pid ≡ true
    → ((disband env pid p w).parties ≡ update w.parties pid none)
      × ((disband env pid p w).next_party ≡ w.next_party)
unfolding disband put_party set_party
disband_parties env pid p w h =
    let (a, b) = loops_keep pid p.invitees p.members (set_party p.leader none w) in
    rw (h, a, b) (refl, refl)

-- The heap is consistent once a party that covers its pointers is disbanded.
pub disband-IsConsistent :
    (env : Env) (pid : ℕ) (p : Party) (w : World)
    → env.on_disband pid ≡ true
    → Covers pid p w
    → IsConsistent (disband env pid p w)
disband-IsConsistent env pid p w h v =
    let (same, next) = disband_parties env pid p w h in
    record {
      stands = λ q.
          rw same (elim (Bool-cases (pid == q)) [ inl e ↦ rw e tt | inr e ↦ rw e (v.stands q e) ]);
      belongs_eq = λ q y.
          rw (disband_party_of env pid p w q y h, same)
            (ground (arith, v.belongs_eq q y, v.listed y, v.aside q y));
      invited_eq = λ q y.
          rw (disband_invites env pid p w q y h, same)
            (ground (arith, v.invited_eq q y, v.invited_listed y));
      fresh = λ q l. rw same (ground (arith, v.fresh q, next));
    }
