-- ===== src/Area.antt =====
-- Areas of effect (matrixarea.h, matrixarea.cpp).
-- The cells of an array are a function of the index, false where nothing was written; areas have
-- fewer than 2^32 cells, so that no index wraps.
pub mod Copy
pub mod Cells
pub mod Turns
pub mod Created
mod Examples
use projeto_bruxo.Base.{
  ℕ, zero, suc, ◌+◌, ◌-◌, ◌*◌, ◌/◌, ◌%◌, Bool, true, false, ◌||◌, List, [], ◌∷◌, ◌==◌,
  if◌then◌else◌, u32_mod, update, length,
}

-- `center` is (x, y).
pub record MatrixArea : Type 0 where
  pub arr : ℕ → Bool
  pub center_x : ℕ
  pub center_y : ℕ
  pub rows : ℕ
  pub cols : ℕ

-- `operator()(row, col)`
unfoldable pub cell : MatrixArea → ℕ → ℕ → Bool
cell a row col = a.arr (row * a.cols + col)

-- `newArr[std::slice(ds, n, dt)] = arr[std::slice(ss, n, st)]`
unfoldable pub assign_slice :
    ℕ → (ds dt : ℕ) → (arr : ℕ → Bool) → (ss st : ℕ) → (ℕ → Bool) → ℕ → Bool
assign_slice zero ds dt arr ss st new = new
assign_slice (suc n) ds dt arr ss st new =
    update (assign_slice n ds dt arr ss st new) (ds + n * dt) (arr (ss + n * st))

-- `for (uint32_t i = 0; i < n; ++i)`
unfoldable pub loop : ℕ → (ℕ → (ℕ → Bool) → ℕ → Bool) → (ℕ → Bool) → ℕ → Bool
loop zero body new = new
loop (suc n) body new = body n (loop n body new)

abbrev pub blank : ℕ → Bool
blank i = false

-- `n - c - 1` for `uint32_t`
unfoldable pub opposite : ℕ → ℕ → ℕ
opposite n c = (n + u32_mod + u32_mod - c - 1) % u32_mod

-- `MatrixArea::flip`
unfoldable pub flip : MatrixArea → MatrixArea
flip a = record a {
  arr =
      loop a.rows (λ i. assign_slice a.cols (i * a.cols) 1 a.arr ((a.rows - i - 1) * a.cols) 1)
        blank;
  center_y = opposite a.rows a.center_y;
}

-- `MatrixArea::mirror`
unfoldable pub mirror : MatrixArea → MatrixArea
mirror a = record a {
  arr = loop a.cols (λ i. assign_slice a.rows i a.cols a.arr (a.cols - i - 1) a.cols) blank;
  center_x = opposite a.cols a.center_x;
}

-- `MatrixArea::rotate90`
unfoldable pub rotate90 : MatrixArea → MatrixArea
rotate90 a = record {
  arr = loop a.rows (λ i. assign_slice a.cols i a.rows a.arr ((a.rows - i - 1) * a.cols) 1) blank;
  center_x = opposite a.rows a.center_y;
  center_y = a.center_x;
  rows = a.cols;
  cols = a.rows;
}

-- `std::reverse_copy` of the first `n` of `size` cells.
unfoldable pub reverse_copy : ℕ → ℕ → (ℕ → Bool) → ℕ → Bool
reverse_copy zero size arr = blank
reverse_copy (suc n) size arr = update (reverse_copy n size arr) n (arr (size - n - 1))

-- `MatrixArea::rotate180`
unfoldable pub rotate180 : MatrixArea → MatrixArea
rotate180 a = record a {
  arr = reverse_copy (a.rows * a.cols) (a.rows * a.cols) a.arr;
  center_x = opposite a.cols a.center_x;
  center_y = opposite a.rows a.center_y;
}

-- `MatrixArea::rotate270`
unfoldable pub rotate270 : MatrixArea → MatrixArea
rotate270 a = record {
  arr = loop a.cols (λ i. assign_slice a.rows (i * a.rows) 1 a.arr (a.cols - i - 1) a.cols) blank;
  center_x = a.center_y;
  center_y = opposite a.cols a.center_x;
  rows = a.cols;
  cols = a.rows;
}

-- What `createArea` does with the value of column `x` of row `y`.
unfoldable pub place : ℕ → (x y : ℕ) → MatrixArea → MatrixArea
place v x y a =
    let b = if v == 1 || v == 3 then record a { arr = update a.arr (y * a.cols + x) true } else a in
    if v == 2 || v == 3 then record b { center_x = x; center_y = y } else b

-- The loop of `createArea`, at column `x` of row `y`.
unfoldable pub fill : List ℕ → (x y : ℕ) → MatrixArea → MatrixArea
fill [] x y a = a
fill (v ∷ vs) x y a =
    let ends = a.cols == suc x in
    fill vs (if ends then 0 else suc x) (if ends then suc y else y) (place v x y a)

-- `createArea`
unfoldable pub create_area : List ℕ → ℕ → MatrixArea
create_area vec rows =
    let cols = if rows == 0 then 0 else length vec / rows in
    fill vec 0 0 (record { arr = blank; center_x = 0; center_y = 0; rows = rows; cols = cols })
