-- ===== src/Creature/Keys.antt =====
-- Lists of conditions with one condition at most of a type, an id and a sub-id.
use projeto_bruxo.Base.{
  ℕ, ◌≡◌, refl, Bool, true, false, not, ◌&&◌, ◌||◌, none, List, [], ◌∷◌, ◌++◌, if_cases, arith,
  Bool-cases, inl, inr,
}
use projeto_bruxo.Conditions.{Condition}
use projeto_bruxo.Creature.{erase_handle, Behaviour, Entry, find_condition, has_key, change_first}
use projeto_bruxo.Creature.Removing.{remove_matching}

abbrev pub same_key : Condition → Condition → Bool
same_key c d = has_key c.condition_type c.id c.sub_id d

abbrev pub has_any : (Condition → Bool) → List Entry → Bool
has_any test [] = false
has_any test (e ∷ es) = test e.condition || has_any test es

-- No condition has the key of a later one.
abbrev pub unique : List Entry → Bool
unique [] = true
unique (e ∷ es) = not (has_any (same_key e.condition) es) && unique es

-- The virtual functions keep the type, the id and the sub-id.
abbrev pub KeepsKey : Condition → Condition → Type 0
KeepsKey c d = (d.condition_type ≡ c.condition_type) × ((d.id ≡ c.id) × (d.sub_id ≡ c.sub_id))

pub record IsKeyed (b : Behaviour) : Type 0 where
  pub start_keeps : (now : ℕ) (c : Condition) → KeepsKey c (b.starts now c).1
  pub execute_keeps :
      (now interval : ℕ) (c : Condition) → KeepsKey c (b.executes now interval c).after
  pub add_keeps : (now : ℕ) (c added : Condition) → KeepsKey c (b.adds now c added)

-- A test that looks at the key alone.
abbrev pub IsKeyTest : (Condition → Bool) → Type 0
IsKeyTest test = (c d : Condition) → KeepsKey c d → test d ≡ test c

pub same_key-IsKeyTest : (c : Condition) → IsKeyTest (same_key c)
same_key-IsKeyTest c d e (h, (k, l)) = rw (h, k, l) refl

pub same_key_left : (c d x : Condition) → KeepsKey c d → same_key d x ≡ same_key c x
same_key_left c d x (h, (k, l)) = rw (h, k, l) refl

same_key_sym : (c d : Condition) → same_key c d ≡ same_key d c
same_key_sym c d = ground arith

pub has_any_cong :
    (p q : Condition → Bool) (es : List Entry)
    → ((x : Condition) → p x ≡ q x)
    → has_any p es ≡ has_any q es
has_any_cong p q [] h = refl
has_any_cong p q (e ∷ es) h = rw (h e.condition, has_any_cong p q es h) refl

pub has_any-append :
    (test : Condition → Bool) (xs ys : List Entry)
    → has_any test (xs ++ ys) ≡ (has_any test xs || has_any test ys)
has_any-append test [] ys = refl
has_any-append test (x ∷ xs) ys = ground (arith, has_any-append test xs ys)

-- Nothing is found exactly where there is nothing.
pub find_condition-none :
    (test : Condition → Bool) (es : List Entry)
    → find_condition test es ≡ none
    → has_any test es ≡ false
unfolding find_condition
find_condition-none test [] h = refl
find_condition-none test (e ∷ es) h = ground (arith, find_condition-none test es)

pub change_first-has_any :
    (test : Condition → Bool) (f : Condition → Condition) (p : Condition → Bool) (es : List Entry)
    → ((c : Condition) → KeepsKey c (f c))
    → IsKeyTest p
    → has_any p (change_first test f es) ≡ has_any p es
unfolding change_first
change_first-has_any test f p [] h k = refl
change_first-has_any test f p (e ∷ es) h k =
    if_cases (λ (r : List Entry). has_any p r ≡ has_any p (e ∷ es)) (test e.condition)
      (λ t. rw (k e.condition (f e.condition) (h e.condition)) refl)
      (λ t. rw (change_first-has_any test f p es h k) refl)

pub change_first-unique :
    (test : Condition → Bool) (f : Condition → Condition) (es : List Entry)
    → ((c : Condition) → KeepsKey c (f c))
    → unique es ≡ true
    → unique (change_first test f es) ≡ true
unfolding change_first
change_first-unique test f [] h u = refl
change_first-unique test f (e ∷ es) h u =
    let c = e.condition in
    if_cases (λ (r : List Entry). unique r ≡ true) (test c)
      (λ t.
        rw (has_any_cong (same_key (f c)) (same_key c) es (λ x. same_key_left c (f c) x (h c))) u)
      (λ t.
        rw (change_first-has_any test f (same_key c) es h (same_key-IsKeyTest c))
          (ground (arith, change_first-unique test f es h)))

remove_matching-has_any :
    (held : Bool) (test p : Condition → Bool) (es : List Entry)
    → has_any p es ≡ false
    → has_any p (remove_matching held test es).0 ≡ false
unfolding remove_matching
remove_matching-has_any held test p [] h = refl
remove_matching-has_any held test p (e ∷ es) h =
    ground (arith, remove_matching-has_any held test p es)

-- The conditions that pass another test than those removed are left.
pub remove_matching-has_other :
    (held : Bool) (test p : Condition → Bool) (es : List Entry)
    → ((c : Condition) → test c ≡ true → p c ≡ false)
    → has_any p (remove_matching held test es).0 ≡ has_any p es
unfolding remove_matching
remove_matching-has_other held test p [] h = refl
remove_matching-has_other held test p (e ∷ es) h = elim (Bool-cases (test e.condition)) [
  | inl passes ↦
      let other : p e.condition ≡ false = h e.condition passes in
      elim (Bool-cases held) [
        | inl waits ↦ rw (passes, waits) refl
        | inr gone ↦ ground (arith, remove_matching-has_other held test p es h)
      ]
  | inr fails ↦ rw (fails, remove_matching-has_other held test p es h) refl
]

pub remove_matching-unique :
    (held : Bool) (test : Condition → Bool) (es : List Entry)
    → unique es ≡ true
    → unique (remove_matching held test es).0 ≡ true
unfolding remove_matching
remove_matching-unique held test [] h = refl
remove_matching-unique held test (e ∷ es) h = ground (
  arith,
  remove_matching-unique held test es,
  remove_matching-has_any held test (same_key e.condition) es,
)

erase_handle-has_any :
    (handle : ℕ) (p : Condition → Bool) (es : List Entry)
    → has_any p es ≡ false
    → has_any p (erase_handle handle es) ≡ false
unfolding erase_handle
erase_handle-has_any handle p [] h = refl
erase_handle-has_any handle p (e ∷ es) h = ground (arith, erase_handle-has_any handle p es)

pub erase_handle-unique :
    (handle : ℕ) (es : List Entry) → unique es ≡ true → unique (erase_handle handle es) ≡ true
unfolding erase_handle
erase_handle-unique handle [] h = refl
erase_handle-unique handle (e ∷ es) h =
    ground
      (arith, erase_handle-unique handle es, erase_handle-has_any handle (same_key e.condition) es)

pub unique-snoc :
    (es : List Entry) (e : Entry)
    → unique es ≡ true
    → has_any (same_key e.condition) es ≡ false
    → unique (es ++ (e ∷ [])) ≡ true
unique-snoc [] e h k = refl
unique-snoc (x ∷ es) e h k = ground (
  arith,
  unique-snoc es e,
  has_any-append (same_key x.condition) es (e ∷ []),
  same_key_sym x.condition e.condition,
)
