-- ===== src/Party/Fits.antt =====
-- A party whose lists fit the pointers of the heap, before it is written back to the heap.
use projeto_bruxo.Base.{
  ℕ, ◌≤◌, ◌≡◌, Bool, true, false, none, some, ◌∷◌, ◌==◌, arith, contains, erase, contains-erase,
  nodup-erase,
}
use projeto_bruxo.Party.Shared.{
  Env, Party, SameLists, update_shared_experience-SameLists, update_shared_experience,
}
use projeto_bruxo.Party.{World, points, empty, set_party, put_party, pass_party_leadership}
use projeto_bruxo.Party.Invariant.{
  belongs, invited, IsProper, Stands, IsConsistent, belongs-SameLists, invited-SameLists,
}
use projeto_bruxo.Party.Disband.{Covers}
use projeto_bruxo.Party.Joining.{replace-IsConsistent, not_fresh}

pub record Fits (pid : ℕ) (p : Party) (w : World) : Type 0 where
  pub proper : IsProper p
  pub stands : (q : ℕ) → (pid == q) ≡ false → Stands (w.parties q)
  pub belongs_eq :
      (q x : ℕ) → (pid == q) ≡ false → points (w.party_of x) q ≡ belongs (w.parties q) x
  pub belongs_here : (x : ℕ) → points (w.party_of x) pid ≡ belongs (some p) x
  pub invited_eq :
      (q x : ℕ) → (pid == q) ≡ false → contains q (w.invites x) ≡ invited (w.parties q) x
  pub invited_here : (x : ℕ) → contains pid (w.invites x) ≡ invited (some p) x
  pub fresh : (q : ℕ) → w.next_party ≤ q → ((pid == q) ≡ false) × (w.parties q ≡ none)

pub IsConsistent-Fits :
    (pid : ℕ) (p : Party) (w : World)
    → IsConsistent w
    → w.parties pid ≡ some p
    → IsProper p
    → Fits pid p w
IsConsistent-Fits pid p w v e g = record {
  proper = g;
  stands = λ q n. v.stands q;
  belongs_eq = λ q x n. v.belongs_eq q x;
  belongs_here = λ x. ground (arith, v.belongs_eq pid x);
  invited_eq = λ q x n. v.invited_eq q x;
  invited_here = λ x. ground (arith, v.invited_eq pid x);
  fresh = not_fresh pid p w v e;
}

pub Fits-IsConsistent :
    (pid : ℕ) (p : Party) (w : World)
    → Fits pid p w
    → empty p ≡ false
    → IsConsistent (put_party pid (some p) w)
Fits-IsConsistent pid p w f e =
    replace-IsConsistent pid p w f.stands (f.proper, e) f.belongs_eq f.belongs_here f.invited_eq
      f.invited_here f.fresh

pub Fits-SameLists :
    (pid : ℕ) {p r : Party} {w : World} → SameLists p r → Fits pid p w → Fits pid r w
Fits-SameLists pid s f = record {
  proper = record {
    leader_apart = rw (s.leader, s.members) f.proper.leader_apart;
    members_nodup = rw s.members f.proper.members_nodup;
    invitees_nodup = rw s.invitees f.proper.invitees_nodup;
  };
  stands = f.stands;
  belongs_eq = f.belongs_eq;
  belongs_here = λ x. rw (belongs-SameLists x s) (f.belongs_here x);
  invited_eq = f.invited_eq;
  invited_here = λ x. rw (invited-SameLists x s) (f.invited_here x);
  fresh = f.fresh;
}

abbrev pub passed : Party → ℕ → Party
passed p x = record p { leader = x; members = p.leader ∷ erase x p.members }

-- The new leader stood among the members, and the old one stands there now.
pub passed-Fits :
    (pid : ℕ) (p : Party) (x : ℕ) (w : World)
    → Fits pid p w
    → (p.leader == x) ≡ false
    → points (w.party_of x) pid ≡ true
    → Fits pid (passed p x) w
passed-Fits pid p x w f n h = record {
  proper = record {
    leader_apart = ground (arith, contains-erase x x p.members f.proper.members_nodup);
    members_nodup = ground (
      arith,
      contains-erase p.leader x p.members f.proper.members_nodup,
      nodup-erase x p.members f.proper.members_nodup,
      f.proper.leader_apart,
    );
    invitees_nodup = f.proper.invitees_nodup;
  };
  stands = f.stands;
  belongs_eq = f.belongs_eq;
  belongs_here = λ y. ground (
    arith,
    f.belongs_here y,
    f.belongs_here x,
    contains-erase y x p.members f.proper.members_nodup,
  );
  invited_eq = f.invited_eq;
  invited_here = f.invited_here;
  fresh = f.fresh;
}

-- What `passPartyLeadership` has checked and done when it does not refuse.
pub pass_party_leadership-some :
    (env : Env) (pid : ℕ) (p : Party) (x : ℕ) (force : Bool) (w : World) (r : Party)
    → pass_party_leadership env pid p x force w ≡ some r
    → ((p.leader == x) ≡ false)
      × (points (w.party_of x) pid ≡ true)
      × (r ≡ update_shared_experience env (passed p x))
unfolding pass_party_leadership
pass_party_leadership-some env pid p x force w r h = ground arith

pub pass_party_leadership-Fits :
    (env : Env) (pid : ℕ) (p : Party) (x : ℕ) (force : Bool) (w : World) (r : Party)
    → Fits pid p w
    → pass_party_leadership env pid p x force w ≡ some r
    → Fits pid r w × SameLists (passed p x) r × ((p.leader == x) ≡ false)
pass_party_leadership-Fits env pid p x force w r f h =
    let (n, b, e) = pass_party_leadership-some env pid p x force w r h in
    let lists = update_shared_experience-SameLists env (passed p x) in
    rw e (Fits-SameLists pid lists (passed-Fits pid p x w f n b), lists, n)

abbrev pub departed : Party → ℕ → Party
departed p x = record p { members = erase x p.members }

-- The party that `x` is leaving still covers its pointers.
pub departed-Covers :
    (pid : ℕ) (p r : Party) (x : ℕ) (w : World)
    → Fits pid p w
    → belongs (some p) x ≡ true
    → SameLists (departed p x) r
    → Covers pid r (put_party pid (some r) (set_party x none w))
unfolding put_party set_party
departed-Covers pid p r x w f b s = record {
  stands = λ q n. rw n (f.stands q n);
  belongs_eq = λ q y n. ground (arith, f.belongs_eq q y n, f.belongs_eq q x n, f.belongs_here x);
  invited_eq = λ q y n. ground (arith, f.invited_eq q y n);
  fresh = λ q l n. ground (arith, f.fresh q l);
  listed = λ y.
      rw (belongs-SameLists y s)
        (ground (arith, f.belongs_here y, contains-erase y x p.members f.proper.members_nodup));
  aside = λ q y n.
      rw (belongs-SameLists y s)
        (ground (arith, f.belongs_here y, contains-erase y x p.members f.proper.members_nodup));
  invited_listed = λ y. rw (invited-SameLists y s) (ground (arith, f.invited_here y));
}

-- A member who leaves.
pub departed-Fits :
    (pid : ℕ) (p : Party) (x : ℕ) (w : World)
    → Fits pid p w
    → (p.leader == x) ≡ false
    → belongs (some p) x ≡ true
    → Fits pid (departed p x) (set_party x none w)
unfolding set_party
departed-Fits pid p x w f n b = record {
  proper = record {
    leader_apart =
        ground (
          arith,
          f.proper.leader_apart,
          contains-erase p.leader x p.members f.proper.members_nodup,
        );
    members_nodup = nodup-erase x p.members f.proper.members_nodup;
    invitees_nodup = f.proper.invitees_nodup;
  };
  stands = f.stands;
  belongs_eq = λ q y m. ground (arith, f.belongs_eq q y m, f.belongs_eq q x m, f.belongs_here x);
  belongs_here =
      λ y. ground (arith, f.belongs_here y, contains-erase y x p.members f.proper.members_nodup);
  invited_eq = f.invited_eq;
  invited_here = f.invited_here;
  fresh = f.fresh;
}
