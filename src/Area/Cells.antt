-- ===== src/Area/Cells.antt =====
-- Where each cell of a turned area comes from.
use projeto_bruxo.Base.{ℕ, suc, ◌+◌, ◌-◌, ◌*◌, ◌<◌, ◌≡◌, ap, ◌∙◌, arith, u32_mod, mul_le_mono}
use projeto_bruxo.Area.{MatrixArea, cell, opposite, flip, mirror, rotate90, rotate180, rotate270}
use projeto_bruxo.Area.Copy.{loop_rows, loop_columns, reverse_copy-here}

pub flip-cell :
    (a : MatrixArea) (r c : ℕ)
    → r < a.rows
    → c < a.cols
    → cell (flip a) r c ≡ cell a (a.rows - r - 1) c
unfolding cell flip
flip-cell a r c h k =
    loop_rows a.rows a.cols 1 a.arr (λ i. (a.rows - i - 1) * a.cols) r c h k
    ∙ ap a.arr (omega arith)

pub mirror-cell :
    (a : MatrixArea) (r c : ℕ)
    → r < a.rows
    → c < a.cols
    → cell (mirror a) r c ≡ cell a r (a.cols - c - 1)
unfolding cell mirror
mirror-cell a r c h k =
    loop_columns a.cols a.rows a.cols a.arr (λ i. a.cols - i - 1) c r k h ∙ ap a.arr (omega arith)

-- For a cell (r, c) of an area turned by 90 degrees: it is the cell of row rows - c - 1 and column
-- r of the area, the left column from the bottom up is the top row.
pub rotate90-cell :
    (a : MatrixArea) (r c : ℕ)
    → r < a.cols
    → c < a.rows
    → cell (rotate90 a) r c ≡ cell a (a.rows - c - 1) r
unfolding cell rotate90
rotate90-cell a r c h k =
    loop_columns a.rows a.cols 1 a.arr (λ i. (a.rows - i - 1) * a.cols) c r k h
    ∙ ap a.arr (omega arith)

pub rotate270-cell :
    (a : MatrixArea) (r c : ℕ)
    → r < a.cols
    → c < a.rows
    → cell (rotate270 a) r c ≡ cell a c (a.cols - r - 1)
unfolding cell rotate270
rotate270-cell a r c h k =
    loop_rows a.cols a.rows a.cols a.arr (λ i. a.cols - i - 1) r c h k ∙ ap a.arr (omega arith)

-- The index of a cell of an area, seen from the end.
index_back : (n m r c : ℕ) → r < n → c < m → n * m - (r * m + c) - 1 ≡ (n - r - 1) * m + (m - c - 1)
index_back n m r c h k =
    let l : ℕ = n - r - 1 in
    let whole : n ≡ l + suc r = omega arith in
    let parts : n * m ≡ l * m + (m + r * m) = ap (λ x. x * m) whole ∙ grind arith in omega arith

index_below : (n m r c : ℕ) → r < n → c < m → r * m + c < n * m
index_below n m r c h k =
    let far = mul_le_mono (suc r) n m (omega arith) in
    let part : suc r * m ≡ m + r * m = grind arith in omega arith

pub rotate180-cell :
    (a : MatrixArea) (r c : ℕ)
    → r < a.rows
    → c < a.cols
    → cell (rotate180 a) r c ≡ cell a (a.rows - r - 1) (a.cols - c - 1)
unfolding cell rotate180
rotate180-cell a r c h k =
    reverse_copy-here (a.rows * a.cols) (a.rows * a.cols) a.arr (r * a.cols + c)
      (index_below a.rows a.cols r c h k)
    ∙ ap a.arr (index_back a.rows a.cols r c h k)

pub opposite_lem : (n c : ℕ) → c < n → n < u32_mod → opposite n c ≡ n - c - 1
unfolding opposite
opposite_lem n c h k = omega arith
