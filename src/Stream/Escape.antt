-- ===== src/Stream/Escape.antt =====
-- The properties of a node of an OTB file, as `Loader::getProps` reads them.
use projeto_bruxo.Base.{
  ℕ, ◌≡◌, refl, ap, ◌∙◌, Bool, false, ◌||◌, some, List, [], ◌∷◌, ◌==◌, if◌then◌else◌, Bool-cases,
  inl, inr, arith,
}
use projeto_bruxo.Stream.{escape_byte, start_byte, end_byte, unescape, get_props}

-- How an OTB file writes properties: an escape byte before each byte that has a meaning of its own.
pub escape : List ℕ → List ℕ
escape [] = []
escape (b ∷ s) =
    let rest = escape s in
    if b == escape_byte || b == start_byte || b == end_byte
    then escape_byte ∷ b ∷ rest
    else b ∷ rest

abbrev is_special : ℕ → Bool
is_special b = b == escape_byte || b == start_byte || b == end_byte

unescape-escaped :
    (b : ℕ) (t : List ℕ) → unescape false (escape_byte ∷ b ∷ t) ≡ b ∷ unescape false t
unfolding unescape
unescape-escaped b t = elim (Bool-cases (b == escape_byte)) [
  | inl e ↦ rw e refl
  | inr n ↦ rw n refl
]

unescape-plain :
    (b : ℕ) (t : List ℕ) → is_special b ≡ false → unescape false (b ∷ t) ≡ b ∷ unescape false t
unfolding unescape
unescape-plain b t h = let n : (b == escape_byte) ≡ false = ground arith in rw n refl

unescape-nil : unescape false [] ≡ []
unfolding unescape
unescape-nil = refl

unescape-escape : (s : List ℕ) → unescape false (escape s) ≡ s
unfolding escape
unescape-escape [] = unescape-nil
unescape-escape (b ∷ s) = elim (Bool-cases (is_special b)) [
  | inl e ↦ rw (e, unescape-escaped b (escape s)) (ap (λ l. b ∷ l) (unescape-escape s))
  | inr n ↦ rw (n, unescape-plain b (escape s) n) (ap (λ l. b ∷ l) (unescape-escape s))
]

get_props-some : (c : ℕ) (t s : List ℕ) → s ≡ c ∷ t → get_props s ≡ some (unescape false s)
unfolding get_props
get_props-some c t s e = rw e refl

escape-some :
    (b : ℕ) (s : List ℕ) → get_props (escape (b ∷ s)) ≡ some (unescape false (escape (b ∷ s)))
unfolding escape
escape-some b s = elim (Bool-cases (is_special b)) [
  | inl e ↦ rw e (get_props-some escape_byte (b ∷ escape s) _ refl)
  | inr n ↦ rw n (get_props-some b (escape s) _ refl)
]

-- `getProps` gives back the properties that were escaped, if there are any.
pub get_props-escape : (b : ℕ) (s : List ℕ) → get_props (escape (b ∷ s)) ≡ some (b ∷ s)
get_props-escape b s = escape-some b s ∙ ap some (unescape-escape (b ∷ s))
