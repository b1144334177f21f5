-- ===== src/Conditions/Encoding.antt =====
-- The bytes of saved fields, and what the loop over attributes does with them.
use projeto_bruxo.Base.{
  ℕ, suc, ◌%◌, ◌>>=◌, ◌≤◌, ◌<◌, ◌≡◌, refl, sym, ap, ◌∙◌, false, Option, none, some, List, [], ◌∷◌,
  ◌++◌, ◌==◌, if◌then◌else◌, length, length-append, arith, Bool-cases, Option-cases, inl, inr,
}
use mathlib.Core.List.{append_assoc, append-nil}
use projeto_bruxo.Stream.{bytes_of, read, write}
use projeto_bruxo.Stream.RoundTrip.{values, read_byte_lem, read-write}
use projeto_bruxo.Conditions.{Condition}
use projeto_bruxo.Conditions.Fields.{Field, put_field, put_all}
use projeto_bruxo.Conditions.Readers.{Reader, reader_of}
use projeto_bruxo.Conditions.Load.{
  onward, pass, pass_at, pass_of, set_field, unserialize_prop, unserialize_loop, unserialize,
}
use projeto_bruxo.Conditions.Fuel.{unserialize_loop_fuel}
use projeto_bruxo.Conditions.Attr

-- The bytes of a field: its attribute byte and its value.
abbrev pub encoded : Field → List ℕ
encoded f = f.attr ∷ bytes_of f.width f.value

abbrev pub encoded_all : List Field → List ℕ
encoded_all [] = []
encoded_all (f ∷ fs) = encoded f ++ encoded_all fs

-- Attribute bytes that are bytes, not the end, and values that fit their width.
abbrev pub InRange : List Field → Type 0
InRange [] = 0 ≤ 0
InRange (f ∷ fs) = (f.attr < 254) × ((f.value < values f.width) × InRange fs)

pub put_field_lem :
    (f : Field) (buffer : List ℕ) → f.attr < 254 → put_field f buffer ≡ buffer ++ encoded f
unfolding put_field write bytes_of
put_field_lem f buffer h =
    let e : f.attr % 256 ≡ f.attr = omega arith in
    rw e (append_assoc buffer (f.attr ∷ []) (bytes_of f.width f.value))

pub put_all_lem :
    (fs : List Field) (buffer : List ℕ) → InRange fs → put_all fs buffer ≡ buffer ++ encoded_all fs
unfolding put_all
put_all_lem [] buffer h = sym (append-nil buffer)
put_all_lem (f ∷ fs) buffer (h, (k, l)) =
    put_all_lem fs (put_field f buffer) l
    ∙ ap (λ b. b ++ encoded_all fs) (put_field_lem f buffer h)
    ∙ append_assoc buffer (encoded f) (encoded_all fs)

-- The condition after a field is read by a reader, none where it refuses it or reads another width.
unfoldable pub taken_by : Reader → Field → Option Condition
taken_by none f = none
taken_by (some (width, store)) f = if width == f.width then some (store f.value) else none

unfoldable pub taken_all : ℕ → Condition → List Field → Option Condition
taken_all now c [] = some c
taken_all now c (f ∷ fs) = taken_by (reader_of now c c.kind f.attr) f >>= (λ d. taken_all now d fs)

unserialize_prop-field :
    (r : Reader) (f : Field) (d : Condition) (s : List ℕ)
    → f.value < values f.width
    → taken_by r f ≡ some d
    → unserialize_prop r (bytes_of f.width f.value ++ s) ≡ (some d, s)
unfolding unserialize_prop taken_by set_field write
unserialize_prop-field none f d s k e = ground arith
unserialize_prop-field (some (width, store)) f d s k e = elim (Bool-cases (width == f.width)) [
  | inl same ↦
      let w : width ≡ f.width = ground arith in
      let taken : some (store f.value) ≡ some d = rw same at e in
      let back : read f.width (bytes_of f.width f.value ++ s) ≡ (some f.value, s) =
        read-write f.width f.value s k in
      rw (w, back) (ap (λ o. (o, s)) taken)
  | inr other ↦ ground arith
]

pass-field :
    (now : ℕ) (c d : Condition) (f : Field) (s : List ℕ)
    → f.attr < 254
    → f.value < values f.width
    → taken_by (reader_of now c c.kind f.attr) f ≡ some d
    → pass now c (encoded f ++ s) ≡ onward d s
unfolding pass pass_at pass_of
pass-field now c d f s h k e =
    let goes_on : (f.attr == Attr.end) ≡ false = ground arith in
    rw
      (
        read_byte_lem f.attr (bytes_of f.width f.value ++ s),
        goes_on,
        unserialize_prop-field (reader_of now c c.kind f.attr) f d s k e,
      )
      refl

pub unserialize-pass :
    (now : ℕ) (c d : Condition) (s r : List ℕ)
    → pass now c s ≡ onward d r
    → length r < length s
    → unserialize now c s ≡ unserialize now d r
unfolding unserialize unserialize_loop
unserialize-pass now c d s r e h =
    rw (e, unserialize_loop)
      (unserialize_loop_fuel (length s) (suc (length r)) now d r h (omega arith))

-- Fields that their readers take are read, and the loop goes on after them.
pub unserialize-fields :
    (now : ℕ) (c d : Condition) (fs : List Field) (s : List ℕ)
    → InRange fs
    → taken_all now c fs ≡ some d
    → unserialize now c (encoded_all fs ++ s) ≡ unserialize now d s
unfolding taken_all
unserialize-fields now c d [] s h e = ap (λ o. unserialize now o s) (ground arith)
unserialize-fields now c d (f ∷ fs) s (h, (k, l)) e =
    elim (Option-cases (taken_by (reader_of now c c.kind f.attr) f)) [
      | inl nothing ↦ let f : none ≡ some d = rw nothing at e in ground arith
      | inr (m, taken) ↦
          let rest : taken_all now m fs ≡ some d = rw taken at e in
          let bytes = encoded_all fs ++ s in
          rw (append_assoc (encoded f) (encoded_all fs) s) (
            unserialize-pass now c m (encoded f ++ bytes) bytes
              (pass-field now c m f bytes h k taken)
              (omega (arith, length-append (encoded f) bytes))
            ∙ unserialize-fields now m d fs s l rest)
    ]

-- The end of the attributes ends the loop.
pub unserialize-end :
    (now : ℕ) (c : Condition) (s : List ℕ) → unserialize now c (Attr.end ∷ s) ≡ (some c, s)
unfolding unserialize unserialize_loop pass pass_at
unserialize-end now c s = rw (read_byte_lem Attr.end s, unserialize_loop) refl
