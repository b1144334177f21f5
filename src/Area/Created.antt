-- ===== src/Area/Created.antt =====
-- The areas that `createArea` makes.
use projeto_bruxo.Base.{
  ℕ, suc, ◌+◌, ◌-◌, ◌*◌, ◌/◌, ◌<◌, ◌≡◌, refl, ap, ◌∙◌, Bool, ◌||◌, List, [], ◌∷◌, ◌==◌,
  if◌then◌else◌, length, get_or, Bool-cases, inl, inr, arith, if_cases, ltb,
}
use projeto_bruxo.Area.{MatrixArea, cell, place, fill, create_area, blank}

-- The values that mark a cell.
abbrev pub marks : ℕ → Bool
marks v = v == 1 || v == 3

place-size :
    (v x y : ℕ) (a : MatrixArea) → ((place v x y a).cols ≡ a.cols) × ((place v x y a).rows ≡ a.rows)
unfolding place
place-size v x y a =
    let P : MatrixArea → Type 0 = λ m. (m.cols ≡ a.cols) × (m.rows ≡ a.rows) in
    let one = if_cases P (v == 1 || v == 3) (λ e. (refl, refl)) (λ e. (refl, refl)) in
    if_cases P (v == 2 || v == 3) (λ e. one) (λ e. one)

place-arr :
    (v x y : ℕ) (a : MatrixArea) (k : ℕ)
    → (place v x y a).arr k ≡ (if y * a.cols + x == k then marks v || a.arr k else a.arr k)
unfolding place
place-arr v x y a k = ground arith

fill-size :
    (vs : List ℕ) (x y : ℕ) (a : MatrixArea)
    → ((fill vs x y a).cols ≡ a.cols) × ((fill vs x y a).rows ≡ a.rows)
unfolding fill
fill-size [] x y a = (refl, refl)
fill-size (v ∷ vs) x y a =
    let ends = a.cols == suc x in
    let step = place-size v x y a in
    let rest =
      fill-size vs (if ends then 0 else suc x) (if ends then suc y else y) (place v x y a) in
    (rest.0 ∙ step.0, rest.1 ∙ step.1)

-- The address that follows.
next_address :
    (n x y : ℕ)
    → x < n
    → ((if n == suc x then 0 else suc x) < n)
      × ((if n == suc x then suc y else y) * n + (if n == suc x then 0 else suc x)
          ≡ suc (y * n + x))
next_address n x y h = elim (Bool-cases (n == suc x)) [
  | inl e ↦
      let same : n ≡ suc x = ground arith in
      let more : suc y * n ≡ n + y * n = grind arith in
      rw e (omega arith, omega (more, same, arith))
  | inr e ↦ rw e (ground arith, omega arith)
]

-- What an address holds when the values from `m` on are placed.
abbrev filled : List ℕ → (m : ℕ) → (ℕ → Bool) → ℕ → Bool
filled vs m arr k = if ltb k m then arr k else marks (get_or vs (k - m) 0) || arr k

filled-step :
    (v : ℕ) (vs : List ℕ) (m : ℕ) (old new : ℕ → Bool) (k : ℕ)
    → new k ≡ (if m == k then marks v || old k else old k)
    → filled vs (suc m) new k ≡ filled (v ∷ vs) m old k
filled-step v vs m old new k h = elim (Bool-cases (m == k)) [
  | inl e ↦
      let same : m ≡ k = ground arith in
      let none : k - m ≡ 0 = omega arith in rw none (ground arith)
  | inr e ↦ elim (Bool-cases (ltb k m)) [
    | inl f ↦ ground arith
    | inr f ↦ let first : k - m ≡ suc (k - suc m) = ground arith in rw first (ground arith)
  ]
]

fill-arr :
    (vs : List ℕ) (x y : ℕ) (a : MatrixArea) (k : ℕ)
    → x < a.cols
    → (fill vs x y a).arr k ≡ filled vs (y * a.cols + x) a.arr k
unfolding fill
fill-arr [] x y a k h = ground arith
fill-arr (v ∷ vs) x y a k h =
    let next = next_address a.cols x y h in
    let b = place v x y a in
    let size = place-size v x y a in
    let x' : ℕ = if a.cols == suc x then 0 else suc x in
    let y' : ℕ = if a.cols == suc x then suc y else y in
    let below : x' < a.cols = next.0 in
    let rest = fill-arr vs x' y' b k (omega (below, size.0, arith)) in
    let here = place-arr v x y a k in
    rest
    ∙ ap (λ n. filled vs (y' * n + x') b.arr k) size.0
    ∙ ap (λ m. filled vs m b.arr k) next.1
    ∙ filled-step v vs (y * a.cols + x) a.arr b.arr k here

filled-blank : (vs : List ℕ) (k : ℕ) → filled vs 0 blank k ≡ marks (get_or vs k 0)
filled-blank vs k = let first : k - 0 ≡ k = omega arith in rw first (ground arith)

-- For values that fill whole rows, at least one, and a cell (r, c) of them: the area has the number
-- of rows that was asked for and as many columns as fit, and the cell is marked just when the value
-- at index r * columns + c is 1 or 3.
pub create_area-cell :
    (vec : List ℕ) (rows r c : ℕ)
    → 0 < rows
    → rows * (length vec / rows) ≡ length vec
    → r < rows
    → c < length vec / rows
    → ((create_area vec rows).rows ≡ rows)
      × ((create_area vec rows).cols ≡ length vec / rows)
      × (cell (create_area vec rows) r c ≡ marks (get_or vec (r * (length vec / rows) + c) 0))
unfolding create_area cell
create_area-cell vec rows r c h whole inside k =
    let n : ℕ = length vec / rows in
    let full : (if rows == 0 then 0 else n) ≡ n = ground arith in
    let start : MatrixArea = record {
      arr = blank;
      center_x = 0;
      center_y = 0;
      rows = rows;
      cols = if rows == 0 then 0 else n;
    } in
    let size = fill-size vec 0 0 start in
    let wide : (create_area vec rows).cols ≡ n = size.0 ∙ full in
    let origin : 0 * (if rows == 0 then 0 else n) + 0 ≡ 0 = omega arith in
    (
      size.1,
      wide,
      ap (λ m. (create_area vec rows).arr (r * m + c)) wide
          ∙ fill-arr vec 0 0 start (r * n + c) (omega (full, k, arith))
          ∙ ap (λ m. filled vec m blank (r * n + c)) origin
          ∙ filled-blank vec (r * n + c),
    )
