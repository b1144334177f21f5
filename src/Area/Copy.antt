-- ===== src/Area/Copy.antt =====
-- What the loops over slices write.
use projeto_bruxo.Base.{
  ℕ, zero, suc, ◌+◌, ◌-◌, ◌*◌, ◌<◌, ◌≡◌, ◌≢◌, refl, ap, ◌∙◌, Bool, ◌==◌, Bool-cases, inl, inr, leb,
  mul_le_mono, arith,
}
use projeto_bruxo.Area.{assign_slice, loop, blank, reverse_copy}

-- Addresses of a table with `n` columns determine the column, and the row.
pub index_column : (n a b i j : ℕ) → i < n → j < n → a * n + i ≡ b * n + j → i ≡ j
index_column n a b i j p q e = elim (Bool-cases (leb (suc a) b)) [
  | inl h ↦ let m = mul_le_mono (suc a) b n (ground arith) in absurd (grind arith)
  | inr h ↦ elim (Bool-cases (leb (suc b) a)) [
    | inl k ↦ let m = mul_le_mono (suc b) a n (ground arith) in absurd (grind arith)
    | inr k ↦ let same : a ≡ b = ground arith in grind arith
  ]
]

pub index_row : (n a b i j : ℕ) → i < n → j < n → a * n + i ≡ b * n + j → a ≡ b
index_row n a b i j p q e = elim (Bool-cases (leb (suc a) b)) [
  | inl h ↦ let m = mul_le_mono (suc a) b n (ground arith) in absurd (grind arith)
  | inr h ↦ elim (Bool-cases (leb (suc b) a)) [
    | inl k ↦ let m = mul_le_mono (suc b) a n (ground arith) in absurd (grind arith)
    | inr k ↦ ground arith
  ]
]

-- A slice whose addresses are apart: the `j`-th cell gets its value.
pub assign_slice-here :
    (n ds dt : ℕ) (arr : ℕ → Bool) (ss st : ℕ) (new : ℕ → Bool) (j : ℕ)
    → 0 < dt
    → j < n
    → assign_slice n ds dt arr ss st new (ds + j * dt) ≡ arr (ss + j * st)
unfolding assign_slice
assign_slice-here zero ds dt arr ss st new j p h = absurd (omega arith)
assign_slice-here (suc n) ds dt arr ss st new j p h = elim (Bool-cases (j == n)) [
  | inl e ↦ let same : j ≡ n = ground arith in rw same (ground arith)
  | inr m ↦
      let below : j < n = ground arith in
      let far = mul_le_mono (suc j) n dt (omega arith) in
      let apart : ds + j * dt < ds + n * dt = grind arith in
      let rest = assign_slice-here n ds dt arr ss st new j p below in ground arith
]

-- Cells at no address of the slice stay.
pub assign_slice-else :
    (n ds dt : ℕ) (arr : ℕ → Bool) (ss st : ℕ) (new : ℕ → Bool) (k : ℕ)
    → ((j : ℕ) → j < n → ds + j * dt ≢ k)
    → assign_slice n ds dt arr ss st new k ≡ new k
unfolding assign_slice
assign_slice-else zero ds dt arr ss st new k h = refl
assign_slice-else (suc n) ds dt arr ss st new k h =
    let last : ds + n * dt ≢ k = h n (omega arith) in
    let rest = assign_slice-else n ds dt arr ss st new k (λ j p. h j (omega arith)) in ground arith

-- A loop of slices that do not overlap writes each of them.
pub loop-here :
    (n m dt st : ℕ) (arr : ℕ → Bool) (ds ss : ℕ → ℕ) (new : ℕ → Bool) (i j : ℕ)
    → 0 < dt
    → ((i k j l : ℕ) → i < n → k < n → j < m → l < m → ds i + j * dt ≡ ds k + l * dt → i ≡ k)
    → i < n
    → j < m
    → loop n (λ i. assign_slice m (ds i) dt arr (ss i) st) new (ds i + j * dt) ≡ arr (ss i + j * st)
unfolding loop
loop-here zero m dt st arr ds ss new i j p apart h k = absurd (omega arith)
loop-here (suc n) m dt st arr ds ss new i j p apart h k = elim (Bool-cases (i == n)) [
  | inl e ↦
      let same : i ≡ n = ground arith in
      rw same (assign_slice-here m (ds n) dt arr (ss n) st _ j p k)
  | inr e ↦
      assign_slice-else m (ds n) dt arr (ss n) st _ (ds i + j * dt)
        (λ l q s. let same = apart n i l j (omega arith) h q k s in absurd (ground arith))
      ∙ loop-here n m dt st arr ds ss new i j p
          (λ a b c d v w. apart a b c d (omega arith) (omega arith)) (ground arith) k
]

-- The rows of a table, one after another.
pub loop_rows :
    (n m st : ℕ) (arr : ℕ → Bool) (ss : ℕ → ℕ) (i j : ℕ)
    → i < n
    → j < m
    → loop n (λ i. assign_slice m (i * m) 1 arr (ss i) st) blank (i * m + j) ≡ arr (ss i + j * st)
loop_rows n m st arr ss i j h k =
    let same : i * m + j ≡ i * m + j * 1 = omega arith in
    ap (λ k. loop n (λ i. assign_slice m (i * m) 1 arr (ss i) st) blank k) same
    ∙ loop-here n m 1 st arr (λ i. i * m) ss blank i j (omega arith)
        (λ a b c d p q v w e. index_row m a b c d v w (omega arith)) h k

-- The columns of a table, one after another.
pub loop_columns :
    (n m st : ℕ) (arr : ℕ → Bool) (ss : ℕ → ℕ) (i j : ℕ)
    → i < n
    → j < m
    → loop n (λ i. assign_slice m i n arr (ss i) st) blank (j * n + i) ≡ arr (ss i + j * st)
loop_columns n m st arr ss i j h k =
    let same : j * n + i ≡ i + j * n = omega arith in
    ap (λ k. loop n (λ i. assign_slice m i n arr (ss i) st) blank k) same
    ∙ loop-here n m n st arr (λ i. i) ss blank i j (omega arith)
        (λ a b c d p q v w e. index_column n c d a b p q (omega arith)) h k

pub reverse_copy-here :
    (n size : ℕ) (arr : ℕ → Bool) (k : ℕ) → k < n → reverse_copy n size arr k ≡ arr (size - k - 1)
unfolding reverse_copy
reverse_copy-here zero size arr k h = absurd (omega arith)
reverse_copy-here (suc n) size arr k h = elim (Bool-cases (k == n)) [
  | inl e ↦ let same : k ≡ n = ground arith in rw same (ground arith)
  | inr e ↦ let rest = reverse_copy-here n size arr k (ground arith) in ground arith
]
