-- ===== src/Party/Joining.antt =====
-- `Party::joinParty` and `Party::passPartyLeadership` keep the heap consistent.
use projeto_bruxo.Base.{
  ℕ, ◌≤◌, ◌≡◌, refl, false, none, some, List, [], ◌∷◌, ◌++◌, ◌==◌, arith, contains, erase,
  contains-remove, contains-erase, nodup-erase, contains-append, nodup-snoc, Bool-cases, inl, inr,
}
use projeto_bruxo.Party.Shared.{
  Env, Party, update_shared_experience-SameLists, update_shared_experience,
}
use projeto_bruxo.Party.{
  World, points, empty, is_nil, set_party, put_party, remove_party_invitation, join_party,
}
use projeto_bruxo.Party.Invariant.{
  belongs, invited, IsProper, Stands, IsConsistent, Stands-SameLists, belongs-SameLists,
  invited-SameLists,
}

-- A party with other lists is put in the place of `p`: enough that its lists fit the pointers.
pub replace-IsConsistent :
    (pid : ℕ) (r : Party) (w : World)
    → ((q : ℕ) → (pid == q) ≡ false → Stands (w.parties q))
    → Stands (some r)
    → ((q x : ℕ) → (pid == q) ≡ false → points (w.party_of x) q ≡ belongs (w.parties q) x)
    → ((x : ℕ) → points (w.party_of x) pid ≡ belongs (some r) x)
    → ((q x : ℕ) → (pid == q) ≡ false → contains q (w.invites x) ≡ invited (w.parties q) x)
    → ((x : ℕ) → contains pid (w.invites x) ≡ invited (some r) x)
    → ((q : ℕ) → w.next_party ≤ q → ((pid == q) ≡ false) × (w.parties q ≡ none))
    → IsConsistent (put_party pid (some r) w)
unfolding put_party
replace-IsConsistent pid r w s sr b br i ir f = record {
  stands = λ q. elim (Bool-cases (pid == q)) [ inl e ↦ rw e sr | inr e ↦ rw e (s q e) ];
  belongs_eq = λ q y. ground (arith, b q y, br y);
  invited_eq = λ q y. ground (arith, i q y, ir y);
  fresh = λ q l. ground (arith, f q l);
}

pub not_fresh :
    (pid : ℕ) (p : Party) (w : World)
    → IsConsistent w
    → w.parties pid ≡ some p
    → (q : ℕ) → w.next_party ≤ q
    → ((pid == q) ≡ false) × (w.parties q ≡ none)
not_fresh pid p w v e q l = (ground (arith, v.fresh q l), v.fresh q l)

abbrev joined : Party → ℕ → Party
joined p x = record p { invitees = erase x p.invitees; members = p.members ++ x ∷ [] }

is_nil-snoc : (x : ℕ) (xs : List ℕ) → is_nil (xs ++ x ∷ []) ≡ false
is_nil-snoc x [] = refl
is_nil-snoc x (y ∷ ys) = refl

joined-Stands :
    (x : ℕ) (p : Party) → IsProper p → belongs (some p) x ≡ false → Stands (some (joined p x))
unfolding empty
joined-Stands x p g h = (
  record {
    leader_apart = ground (arith, g.leader_apart, contains-append p.leader p.members (x ∷ []));
    members_nodup = ground (arith, nodup-snoc x p.members);
    invitees_nodup = nodup-erase x p.invitees g.invitees_nodup;
  },
  ground (arith, is_nil-snoc x p.members),
)

-- Everything about a party and its invited players but `x`, after `x` has joined it.
enter-IsConsistent :
    (env : Env) (pid : ℕ) (p : Party) (x : ℕ) (w : World)
    → IsConsistent w
    → w.parties pid ≡ some p
    → Stands (some p)
    → w.party_of x ≡ none
    → IsConsistent (
        put_party pid
          (some (update_shared_experience env (joined p x)))
          (remove_party_invitation x pid (set_party x (some pid) w)))
unfolding remove_party_invitation set_party
enter-IsConsistent env pid p x w v e s o =
    let lists = update_shared_experience-SameLists env (joined p x) in
    let outside : belongs (some p) x ≡ false = ground (arith, v.belongs_eq pid x) in
    replace-IsConsistent pid _ (remove_party_invitation x pid (set_party x (some pid) w))
      (λ q n. v.stands q) (Stands-SameLists lists (joined-Stands x p s.0 outside))
      (λ q y n. ground (arith, v.belongs_eq q y, v.belongs_eq q x))
      (λ y.
        rw (belongs-SameLists y lists)
          (ground (arith, v.belongs_eq pid y, contains-append y p.members (x ∷ []))))
      (λ q y n. ground (arith, v.invited_eq q y, contains-remove q pid (w.invites x)))
      (λ y. rw (invited-SameLists y lists) (
        ground (
          arith,
          v.invited_eq pid y,
          contains-remove pid pid (w.invites x),
          contains-erase y x p.invitees s.0.invitees_nodup,
        )))
      (not_fresh pid p w v e)

-- A player outside every party who joins one leaves the heap consistent.
pub join_party-IsConsistent :
    (env : Env) (pid : ℕ) (p : Party) (x : ℕ) (w : World)
    → IsConsistent w
    → w.parties pid ≡ some p
    → Stands (some p)
    → w.party_of x ≡ none
    → IsConsistent (join_party env pid p x w).0
unfolding join_party
join_party-IsConsistent env pid p x w v e s o = elim (Bool-cases env.on_join) [
  | inr refused ↦ rw refused v
  | inl allowed ↦ elim (Bool-cases (contains x p.invitees)) [
    | inr stranger ↦ rw (allowed, stranger) v
    | inl guest ↦ simp (allowed, guest) (enter-IsConsistent env pid p x w v e s o)
  ]
]
