-- ===== src/Names/Completion.antt =====
-- What `findOne` finds.
use projeto_bruxo.Base.{
  ℕ, ◌≡◌, ◌≢◌, refl, sym, ap, ◌∙◌, Bool, true, false, none, some, List, [], ◌∷◌, ◌++◌, ◌==◌,
  if◌then◌else◌, Option-cases, inl, inr, arith,
}
use projeto_bruxo.Names.{
  Node, node, Children, childless, child, get_child, Found, found, not_online, too_ambiguous,
  prepend, complete, find_one,
}
use projeto_bruxo.Names.Members.{has, has_in, has-cons}

prepend-found :
    (c : ℕ) (o : Found) (r : List ℕ)
    → prepend c o ≡ found r
    → (s : List ℕ) × (o ≡ found s) × (r ≡ c ∷ s)
unfolding prepend
prepend-found c (found s) r h = (s, refl, cc)
prepend-found c not_online r h = cc
prepend-found c too_ambiguous r h = cc

only_child :
    (b : Bool) (c e : ℕ) (n : Node) (t : List ℕ)
    → has (e ∷ t) (node b (child c n childless)) ≡ true
    → (c ≡ e) × (has t n ≡ true)
unfolding get_child has_in
only_child b c e n t h = key (c == e) refl (sym (has-cons b e (child c n childless) t) ∙ h)
  where
    key :
        (q : Bool)
        → (c == e) ≡ q
        → has_in (if q then some n else none) t ≡ true
        → (c ≡ e) × (has t n ≡ true)
    key true x k = (ground arith, k)
    key false x k = cc

complete_unique : (n : Node) (r s : List ℕ) → complete n ≡ found r → has s n ≡ true → s ≡ r
unfolding complete has get_child
complete_unique (node b childless) r [] h k = cc
complete_unique (node b childless) r (e ∷ t) h k = cc
complete_unique (node true (child c n childless)) r s h k = cc
complete_unique (node false (child c n childless)) r [] h k = cc
complete_unique (node false (child c n childless)) r (e ∷ t) h k =
    let (u, f, g) = prepend-found c (complete n) r h in
    let (x, y) = only_child false c e n t k in cc (complete_unique n u t f y, g, x)
complete_unique (node true (child c n (child d m cs))) r s h k = cc
complete_unique (node false (child c n (child d m cs))) r s h k = cc

find_one-cons :
    (b : Bool) (c : ℕ) (q : List ℕ) (cs : Children) (n : Node)
    → get_child c cs ≡ some n
    → find_one (c ∷ q) (node b cs) ≡ prepend c (find_one q n)
unfolding find_one
find_one-cons b c q cs n e = rw (e, find_one) refl

find_one-absent :
    (b : Bool) (c : ℕ) (q : List ℕ) (cs : Children)
    → get_child c cs ≡ none
    → find_one (c ∷ q) (node b cs) ≡ not_online
unfolding find_one
find_one-absent b c q cs e = rw (e, find_one) refl

find_one-nil : (n : Node) → find_one [] n ≡ complete n
unfolding find_one
find_one-nil n = refl

not_online≢found : {r : List ℕ} → not_online ≢ found r
not_online≢found = λ h. cc

-- A name found is the only name of the tree that starts with the query.
pub find_one_unique :
    (q s r : List ℕ) (n : Node) → find_one q n ≡ found r → has (q ++ s) n ≡ true → q ++ s ≡ r
unfolding has_in
find_one_unique [] s r n h k = complete_unique n r s (sym (find_one-nil n) ∙ h) k
find_one_unique (c ∷ q) s r (node b cs) h k = elim (Option-cases (get_child c cs)) [
  | inl e ↦ absurd (not_online≢found (sym (find_one-absent b c q cs e) ∙ h))
  | inr (n, e) ↦
      let (u, f, g) = prepend-found c (find_one q n) r (sym (find_one-cons b c q cs n e) ∙ h) in
      let below : has (q ++ s) n ≡ true =
        sym (has-cons b c cs (q ++ s) ∙ ap (λ o. has_in o (q ++ s)) e) ∙ k in
      cc (find_one_unique q s u n f below, g)
]
