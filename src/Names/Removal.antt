-- ===== src/Names/Removal.antt =====
-- What `remove` does to the set of names.
use projeto_bruxo.Base.{
  ℕ, ◌≡◌, ◌≢◌, refl, sym, ◌∙◌, Bool, true, false, not, ◌&&◌, none, some, List, [], ◌∷◌, ◌==◌,
  if◌then◌else◌, Bool-cases, Option-cases, inl, inr, arith,
}
use projeto_bruxo.Names.{
  Node, node, Children, childless, child, get_child, put_child, erase_child, mark, is_bare,
  remove_at, remove,
}
use projeto_bruxo.Names.Members.{
  has, same, has_in, has-cons, has-fresh, has-mark, has-erase_child, has-put_child, has-nil,
}

remove_at-nil : (n : Node) → remove_at [] n ≡ some (mark false n)
unfolding remove_at
remove_at-nil n = refl

remove_at-cons :
    (b : Bool) (c : ℕ) (s : List ℕ) (cs : Children) (n m : Node)
    → get_child c cs ≡ some n
    → remove_at s n ≡ some m
    → remove_at (c ∷ s) (node b cs)
      ≡ some (node b (if is_bare m then erase_child c cs else put_child c m cs))
unfolding remove_at
remove_at-cons b c s cs n m e f = rw (e, remove_at, f) refl

remove_at-none :
    (b : Bool) (c : ℕ) (s : List ℕ) (cs : Children) (n : Node)
    → get_child c cs ≡ some n
    → remove_at s n ≡ none
    → remove_at (c ∷ s) (node b cs) ≡ none
unfolding remove_at
remove_at-none b c s cs n e f = rw (e, remove_at, f) refl

remove_at-absent :
    (b : Bool) (c : ℕ) (s : List ℕ) (cs : Children)
    → get_child c cs ≡ none
    → remove_at (c ∷ s) (node b cs) ≡ none
unfolding remove_at
remove_at-absent b c s cs e = rw (e, remove_at) refl

has-is_bare : (m : Node) (t : List ℕ) → is_bare m ≡ true → has t m ≡ false
unfolding is_bare
has-is_bare (node true cs) t h = cc
has-is_bare (node false childless) t h = has-fresh t
has-is_bare (node false (child c n cs)) t h = cc

none≢some : {m : Node} → none ≢ some m
none≢some = λ h. cc

some_inj : {n m : Node} → some n ≡ some m → n ≡ m
some_inj h = cc

-- What a node has below the character of one of its children.
has-child :
    (b : Bool) (c e : ℕ) (cs : Children) (n : Node) (t : List ℕ)
    → get_child c cs ≡ some n
    → (c == e) ≡ true
    → has (e ∷ t) (node b cs) ≡ has t n
unfolding has_in
has-child b c e cs n t g q =
    let same_key : e ≡ c = ground arith in rw (has-cons b e cs t, same_key, g) refl

-- One step back from a child that has lost a name.
has-replaced :
    (b : Bool) (c : ℕ) (s : List ℕ) (cs : Children) (n m : Node) (y : List ℕ)
    → get_child c cs ≡ some n
    → ((t : List ℕ) → has t m ≡ (has t n && not (same s t)))
    → has y (node b (if is_bare m then erase_child c cs else put_child c m cs))
      ≡ (has y (node b cs) && not (same (c ∷ s) y))
unfolding same
has-replaced b c s cs n m [] g h =
    ground
      (arith, has-nil b (if is_bare m then erase_child c cs else put_child c m cs), has-nil b cs)
has-replaced b c s cs n m (e ∷ t) g h = elim (Bool-cases (is_bare m)) [
  | inl y ↦
      rw y (
        ground
          (arith, has-erase_child b c e cs t, has-child b c e cs n t g, h t, has-is_bare m t y))
  | inr x ↦ rw x (ground (arith, has-put_child b c e m cs t, has-child b c e cs n t g, h t))
]

has-remove_at :
    (s y : List ℕ) (n m : Node) → remove_at s n ≡ some m → has y m ≡ (has y n && not (same s y))
has-remove_at [] y n m h =
    rw (← some_inj (sym (remove_at-nil n) ∙ h)) (ground (arith, has-mark false n y))
has-remove_at (c ∷ s) y (node b cs) m h = elim (Option-cases (get_child c cs)) [
  | inl e ↦ absurd (none≢some (sym (remove_at-absent b c s cs e) ∙ h))
  | inr (n, e) ↦ elim (Option-cases (remove_at s n)) [
    | inl f ↦ absurd (none≢some (sym (remove_at-none b c s cs n e f) ∙ h))
    | inr (k, f) ↦
        rw (some_inj (sym h ∙ remove_at-cons b c s cs n k e f))
          (has-replaced b c s cs n k y e (λ t. has-remove_at s t n k f))
  ]
]

has-absent : (s : List ℕ) (n : Node) → remove_at s n ≡ none → has s n ≡ false
unfolding has_in
has-absent [] n h = absurd (none≢some (sym h ∙ remove_at-nil n))
has-absent (c ∷ s) (node b cs) h = elim (Option-cases (get_child c cs)) [
  | inl e ↦ rw (has-cons b c cs s, e, has_in) refl
  | inr (n, e) ↦ elim (Option-cases (remove_at s n)) [
    | inl f ↦ has-child b c c cs n s e (ground arith) ∙ has-absent s n f
    | inr (k, f) ↦ absurd (none≢some (sym h ∙ remove_at-cons b c s cs n k e f))
  ]
]

same-≡ : (s y : List ℕ) → same s y ≡ true → s ≡ y
unfolding same
same-≡ [] [] h = refl
same-≡ [] (d ∷ t) h = cc
same-≡ (c ∷ s) [] h = cc
same-≡ (c ∷ s) (d ∷ t) h =
    let e : c ≡ d = ground arith in let f : same s t ≡ true = ground arith in cc (e, same-≡ s t f)

unlisted : (s y : List ℕ) (n : Node) → has s n ≡ false → has y n ≡ (has y n && not (same s y))
unlisted s y n h = elim (Bool-cases (same s y)) [
  | inl e ↦ let q : s ≡ y = same-≡ s y e in rw (e, ← q, h) refl
  | inr d ↦ rw d (ground arith)
]

-- After the removal of a name, the tree has the names that it had but that one.
pub has-remove : (s y : List ℕ) (n : Node) → has y (remove s n) ≡ (has y n && not (same s y))
unfolding remove
has-remove s y n = elim (Option-cases (remove_at s n)) [
  | inr (m, e) ↦ rw (e, remove) (has-remove_at s y n m e)
  | inl e ↦ rw (e, remove) (unlisted s y n (has-absent s n e))
]
