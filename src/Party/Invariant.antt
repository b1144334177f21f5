-- ===== src/Party/Invariant.antt =====
-- The pointers between players and parties stay consistent.
use projeto_bruxo.Base.{
  ℕ, ◌≤◌, ◌≡◌, refl, Bool, true, false, ◌||◌, Option, none, some, List, [], ◌∷◌, ◌++◌, ◌==◌, arith,
  contains, nodup, update_all, contains-append, nodup-snoc, Bool-cases, inl, inr,
}
use projeto_bruxo.Party.Shared.{Party, SameLists}
use projeto_bruxo.Party.{
  World, points, empty, is_nil, put_party, add_party_invitation, invite_player,
}

abbrev pub belongs : Option Party → ℕ → Bool
belongs none x = false
belongs (some p) x = x == p.leader || contains x p.members

abbrev pub invited : Option Party → ℕ → Bool
invited none x = false
invited (some p) x = contains x p.invitees

-- The lists of one party: the leader is no member, nobody is listed twice.
pub record IsProper (p : Party) : Type 0 where
  pub leader_apart : contains p.leader p.members ≡ false
  pub members_nodup : nodup p.members ≡ true
  pub invitees_nodup : nodup p.invitees ≡ true

-- A party that stands has a member or an invited player besides its leader.
abbrev pub Stands : Option Party → Type 0
Stands none = Unit {0}
Stands (some p) = IsProper p × (empty p ≡ false)

-- Every pointer of a player leads to a party that lists the player, and back; so for invitations.
pub record IsConsistent (w : World) : Type 0 where
  pub stands : (pid : ℕ) → Stands (w.parties pid)
  pub belongs_eq : (pid x : ℕ) → points (w.party_of x) pid ≡ belongs (w.parties pid) x
  pub invited_eq : (pid x : ℕ) → contains pid (w.invites x) ≡ invited (w.parties pid) x
  pub fresh : (pid : ℕ) → w.next_party ≤ pid → w.parties pid ≡ none

invited-append :
    (x y : ℕ) (p : Party)
    → invited (some (record p { invitees = p.invitees ++ x ∷ [] })) y
      ≡ (invited (some p) y || y == x)
invited-append x y p = ground (arith, contains-append y p.invitees (x ∷ []))

is_nil-snoc : (x : ℕ) (xs : List ℕ) → is_nil (xs ++ x ∷ []) ≡ false
is_nil-snoc x [] = refl
is_nil-snoc x (y ∷ ys) = refl

append-Stands :
    (x : ℕ) (p : Party)
    → IsProper p
    → contains x p.invitees ≡ false
    → Stands (some (record p { invitees = p.invitees ++ x ∷ [] }))
unfolding empty
append-Stands x p g h = (
  record {
    leader_apart = g.leader_apart;
    members_nodup = g.members_nodup;
    invitees_nodup = nodup-snoc x p.invitees g.invitees_nodup h;
  },
  ground (arith, is_nil-snoc x p.invitees),
)

pub invite_player-IsConsistent :
    (pid : ℕ) (p : Party) (x : ℕ) (w : World)
    → IsConsistent w
    → w.parties pid ≡ some p
    → IsProper p
    → IsConsistent (invite_player pid p x w).0
unfolding invite_player add_party_invitation put_party
invite_player-IsConsistent pid p x w v e g = elim (Bool-cases (contains x p.invitees)) [
  | inl old ↦ rw old v
  | inr new ↦ rw new (record {
    stands = update_all Stands w.parties pid _ (append-Stands x p g new) v.stands;
    belongs_eq = λ q y. ground (arith, v.belongs_eq q y);
    invited_eq = λ q y. ground (arith, v.invited_eq q y, v.invited_eq pid y, invited-append x y p);
    fresh = λ q h. ground (arith, v.fresh q);
  })
]

-- The predicates see only the lists of a party.
pub Stands-SameLists : {p r : Party} → SameLists p r → Stands (some p) → Stands (some r)
unfolding empty
Stands-SameLists s (g, e) = (
  record {
    leader_apart = rw (s.leader, s.members) g.leader_apart;
    members_nodup = rw s.members g.members_nodup;
    invitees_nodup = rw s.invitees g.invitees_nodup;
  },
  rw (s.members, s.invitees) e,
)

pub belongs-SameLists :
    {p r : Party} (x : ℕ) → SameLists p r → belongs (some r) x ≡ belongs (some p) x
belongs-SameLists x s = rw (s.leader, s.members)

pub invited-SameLists :
    {p r : Party} (x : ℕ) → SameLists p r → invited (some r) x ≡ invited (some p) x
invited-SameLists x s = rw s.invitees
