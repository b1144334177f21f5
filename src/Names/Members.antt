-- ===== src/Names/Members.antt =====
-- The tree is a set of names: what `insert` does to it.
use projeto_bruxo.Base.{
  ℕ, ◌≡◌, refl, Bool, true, false, ◌&&◌, ◌||◌, Option, none, some, List, [], ◌∷◌, ◌==◌,
  if◌then◌else◌, Option-cases, inl, inr, arith,
}
use projeto_bruxo.Names.{
  Node, node, Children, childless, child, get_child, put_child, erase_child, fresh, child_or_new,
  mark, insert,
}

-- Is a name in the tree?
unfoldable pub has : List ℕ → Node → Bool
has [] (node b cs) = b
has (c ∷ s) (node b cs) = elim (get_child c cs) [ none ↦ false | some n ↦ has s n ]

unfoldable pub same : List ℕ → List ℕ → Bool
same [] [] = true
same [] (d ∷ t) = false
same (c ∷ s) [] = false
same (c ∷ s) (d ∷ t) = c == d && same s t

get_child-put_child :
    (c e : ℕ) (m : Node) (cs : Children)
    → get_child e (put_child c m cs) ≡ (if c == e then some m else get_child e cs)
unfolding get_child put_child
get_child-put_child c e m childless = refl
get_child-put_child c e m (child d n cs) = ground (arith, get_child-put_child c e m cs)

get_child-erase_child :
    (c e : ℕ) (cs : Children)
    → get_child e (erase_child c cs) ≡ (if c == e then none else get_child e cs)
unfolding get_child erase_child
get_child-erase_child c e childless = ground arith
get_child-erase_child c e (child d n cs) = ground (arith, get_child-erase_child c e cs)

pub has-fresh : (t : List ℕ) → has t fresh ≡ false
unfolding has get_child
has-fresh [] = refl
has-fresh (c ∷ t) = refl

unfoldable pub has_in : Option Node → List ℕ → Bool
has_in none t = false
has_in (some n) t = has t n

pub has-cons :
    (b : Bool) (c : ℕ) (cs : Children) (t : List ℕ)
    → has (c ∷ t) (node b cs) ≡ has_in (get_child c cs) t
unfolding has has_in
has-cons b c cs t = below (get_child c cs)
  where
    below : (o : Option Node) → (elim o [ none ↦ false | some n ↦ has t n ]) ≡ has_in o t
    below none = refl
    below (some n) = refl

-- What the child for a character has is what the node has below that character.
has-child_or_new :
    (b : Bool) (c : ℕ) (cs : Children) (t : List ℕ)
    → has t (child_or_new c cs) ≡ has (c ∷ t) (node b cs)
unfolding child_or_new has_in
has-child_or_new b c cs t = elim (Option-cases (get_child c cs)) [
  | inl e ↦ rw (has-cons b c cs t, e, child_or_new, has_in) (has-fresh t)
  | inr (n, e) ↦ rw (has-cons b c cs t, e, child_or_new, has_in) refl
]

pub has-put_child :
    (b : Bool) (c e : ℕ) (m : Node) (cs : Children) (t : List ℕ)
    → has (e ∷ t) (node b (put_child c m cs))
      ≡ (if c == e then has t m else has (e ∷ t) (node b cs))
unfolding has_in
has-put_child b c e m cs t =
    rw (has-cons b e (put_child c m cs) t, has-cons b e cs t, get_child-put_child c e m cs)
      (choice (c == e) (get_child e cs))
  where
    choice :
        (q : Bool) (o : Option Node)
        → has_in (if q then some m else o) t ≡ (if q then has t m else has_in o t)
    choice true o = refl
    choice false o = refl

pub has-erase_child :
    (b : Bool) (c e : ℕ) (cs : Children) (t : List ℕ)
    → has (e ∷ t) (node b (erase_child c cs)) ≡ (if c == e then false else has (e ∷ t) (node b cs))
unfolding has_in
has-erase_child b c e cs t =
    rw (has-cons b e (erase_child c cs) t, has-cons b e cs t, get_child-erase_child c e cs)
      (choice (c == e) (get_child e cs))
  where
    choice :
        (q : Bool) (o : Option Node)
        → has_in (if q then none else o) t ≡ (if q then false else has_in o t)
    choice true o = refl
    choice false o = refl

pub has-mark :
    (b : Bool) (n : Node) (t : List ℕ) → has t (mark b n) ≡ (if same [] t then b else has t n)
unfolding has mark same
has-mark b (node a cs) [] = refl
has-mark b (node a cs) (e ∷ t) = refl

pub has-nil : (b : Bool) (cs : Children) → has [] (node b cs) ≡ b
unfolding has
has-nil b cs = refl

has-insert_nil : (c : ℕ) (s : List ℕ) (n : Node) → has [] (insert (c ∷ s) n) ≡ has [] n
unfolding insert has
has-insert_nil c [] (node b cs) = refl
has-insert_nil c (d ∷ s) (node b cs) = refl

-- After the insertion of a name, the tree has the names that it had, and that one.
pub has-insert :
    (c : ℕ) (s y : List ℕ) (n : Node) → has y (insert (c ∷ s) n) ≡ (has y n || same (c ∷ s) y)
unfolding insert same
has-insert c s [] n = ground (arith, has-insert_nil c s n)
has-insert c [] (e ∷ t) (node b cs) = ground (
  arith,
  has-put_child b c e (mark true (child_or_new c cs)) cs t,
  has-mark true (child_or_new c cs) t,
  has-child_or_new b c cs t,
)
has-insert c (d ∷ s) (e ∷ t) (node b cs) = ground (
  arith,
  has-put_child b c e (insert (d ∷ s) (child_or_new c cs)) cs t,
  has-insert d s t (child_or_new c cs),
  has-child_or_new b c cs t,
)
