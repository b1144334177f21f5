-- ===== src/Creature/Behind.antt =====
-- A condition of a creature behind others, and what is left of lists of conditions.
use projeto_bruxo.Base.{
  ℕ, ◌≡◌, refl, ap, Bool, true, false, ◌||◌, none, some, List, [], ◌∷◌, ◌++◌, ◌==◌, Bool-cases, inl,
  inr, arith, contains, contains-append,
}
use projeto_bruxo.Conditions.{Condition}
use projeto_bruxo.Creature.{Entry, handles, find_handle, erase_handle}
use projeto_bruxo.Creature.Executing.{store, prune, end_at}

handles-append : (xs ys : List Entry) → handles (xs ++ ys) ≡ handles xs ++ handles ys
handles-append [] ys = refl
handles-append (x ∷ xs) ys = ap (λ l. x.handle ∷ l) (handles-append xs ys)

pub contains_both :
    (x : ℕ) (xs ys : List Entry)
    → contains x (handles xs) ≡ false
    → contains x (handles ys) ≡ false
    → contains x (handles (xs ++ ys)) ≡ false
contains_both x xs ys h k =
    rw (handles-append xs ys, contains-append x (handles xs) (handles ys), h, k) refl

pub find_handle-absent :
    (x : ℕ) (es : List Entry) → contains x (handles es) ≡ false → find_handle x es ≡ none
unfolding find_handle
find_handle-absent x [] h = refl
find_handle-absent x (e ∷ es) h =
    let other : (e.handle == x) ≡ false = ground arith in
    rw (other, find_handle-absent x es (ground arith)) refl

pub find_handle-behind :
    (done : List Entry) (e : Entry) (es : List Entry)
    → contains e.handle (handles done) ≡ false
    → find_handle e.handle (done ++ (e ∷ es)) ≡ some e.condition
unfolding find_handle
find_handle-behind [] e es h =
    let same : (e.handle == e.handle) ≡ true = ground arith in rw same refl
find_handle-behind (d ∷ done) e es h =
    let other : (d.handle == e.handle) ≡ false = ground arith in
    rw (other, find_handle-behind done e es (ground arith)) refl

pub store-behind :
    (c : Condition) (done : List Entry) (e : Entry) (es : List Entry)
    → contains e.handle (handles done) ≡ false
    → store e.handle c (done ++ (e ∷ es)) ≡ done ++ (record e { condition = c } ∷ es)
unfolding store
store-behind c [] e es h = let same : (e.handle == e.handle) ≡ true = ground arith in rw same refl
store-behind c (d ∷ done) e es h =
    let other : (d.handle == e.handle) ≡ false = ground arith in
    rw (other, store-behind c done e es (ground arith)) refl

erase_handle-behind :
    (done : List Entry) (e : Entry) (es : List Entry)
    → contains e.handle (handles done) ≡ false
    → erase_handle e.handle (done ++ (e ∷ es)) ≡ done ++ es
unfolding erase_handle
erase_handle-behind [] e es h =
    let same : (e.handle == e.handle) ≡ true = ground arith in rw same refl
erase_handle-behind (d ∷ done) e es h =
    let other : (d.handle == e.handle) ≡ false = ground arith in
    rw (other, erase_handle-behind done e es (ground arith)) refl

pub end_at-absent :
    (x : ℕ) (es : List Entry) → contains x (handles es) ≡ false → (end_at x es).0 ≡ es
unfolding end_at
end_at-absent x es h = rw (find_handle-absent x es h, end_at) refl

pub end_at-behind :
    (done : List Entry) (e : Entry) (es : List Entry)
    → contains e.handle (handles done) ≡ false
    → (end_at e.handle (done ++ (e ∷ es))).0 ≡ done ++ es
unfolding end_at
end_at-behind done e es h =
    rw (find_handle-behind done e es h, end_at) (erase_handle-behind done e es h)

pub prune-append :
    (r : Entry → Bool) (xs ys : List Entry) → prune r (xs ++ ys) ≡ prune r xs ++ prune r ys
unfolding prune
prune-append r [] ys = refl
prune-append r (x ∷ xs) ys = elim (Bool-cases (r x)) [
  | inl gone ↦ rw (gone, prune-append r xs ys) refl
  | inr left ↦ rw (left, prune-append r xs ys) refl
]

pub prune-prune :
    (r gone : Entry → Bool) (es : List Entry)
    → prune r (prune gone es) ≡ prune (λ x. gone x || r x) es
unfolding prune
prune-prune r gone [] = refl
prune-prune r gone (e ∷ es) = elim (Bool-cases (gone e)) [
  | inl before ↦ rw (before, prune-prune r gone es) refl
  | inr left ↦ rw (left, prune-prune r gone es) refl
]

pub prune-none : (es : List Entry) → prune (λ x. false) es ≡ es
unfolding prune
prune-none [] = refl
prune-none (e ∷ es) = ap (λ l. e ∷ l) (prune-none es)

pub prune-contains :
    (r : Entry → Bool) (x : ℕ) (es : List Entry)
    → contains x (handles es) ≡ false
    → contains x (handles (prune r es)) ≡ false
unfolding prune
prune-contains r x [] h = refl
prune-contains r x (e ∷ es) h = ground (arith, prune-contains r x es)
