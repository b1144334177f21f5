-- ===== src/Area/Turns.antt =====
-- The turns of areas among each other.
use projeto_bruxo.Base.{ℕ, ◌-◌, ◌<◌, ◌≡◌, refl, sym, ap, ◌∙◌, arith, u32_mod}
use projeto_bruxo.Area.{MatrixArea, cell, opposite, flip, mirror, rotate90, rotate180, rotate270}
use projeto_bruxo.Area.Cells.{
  flip-cell, mirror-cell, rotate90-cell, rotate180-cell, rotate270-cell, opposite_lem,
}

-- The center is a cell, and the sizes are words.
pub record IsCentered (a : MatrixArea) : Type 0 where
  pub center_x_below : a.center_x < a.cols
  pub center_y_below : a.center_y < a.rows
  pub rows_word : a.rows < u32_mod
  pub cols_word : a.cols < u32_mod

-- The areas have the same size, the same center, and the same cells.
pub record Same (a b : MatrixArea) : Type 0 where
  pub same_rows : a.rows ≡ b.rows
  pub same_cols : a.cols ≡ b.cols
  pub same_center_x : a.center_x ≡ b.center_x
  pub same_center_y : a.center_y ≡ b.center_y
  pub same_cells : (r c : ℕ) → r < b.rows → c < b.cols → cell a r c ≡ cell b r c

opposite-opposite : (n c : ℕ) → c < n → n < u32_mod → opposite n (opposite n c) ≡ c
opposite-opposite n c h k =
    ap (opposite n) (opposite_lem n c h k)
    ∙ opposite_lem n (n - c - 1) (omega arith) k
    ∙ omega arith

-- The opposite of the opposite of an index.
back : (n r : ℕ) → r < n → n - (n - r - 1) - 1 ≡ r
back n r h = omega arith

flip-flip : (a : MatrixArea) → IsCentered a → Same (flip (flip a)) a × Same (mirror (mirror a)) a
unfolding flip mirror
flip-flip a h = (
  record {
    same_rows = refl;
    same_cols = refl;
    same_center_x = refl;
    same_center_y = opposite-opposite a.rows a.center_y h.center_y_below h.rows_word;
    same_cells = λ r c p q.
        flip-cell (flip a) r c p q
        ∙ flip-cell a (a.rows - r - 1) c (omega arith) q
        ∙ ap (λ k. cell a k c) (back a.rows r p);
  },
  record {
    same_rows = refl;
    same_cols = refl;
    same_center_x = opposite-opposite a.cols a.center_x h.center_x_below h.cols_word;
    same_center_y = refl;
    same_cells = λ r c p q.
        mirror-cell (mirror a) r c p q
        ∙ mirror-cell a r (a.cols - c - 1) p (omega arith)
        ∙ ap (cell a r) (back a.cols c q);
  },
)

-- For an area whose center is one of its cells and whose sizes are 32-bit words: turned by 90 and
-- by 270 degrees, in either order, it has the size, the center and the cells that it had.
pub rotate270-rotate90 :
    (a : MatrixArea)
    → IsCentered a
    → Same (rotate270 (rotate90 a)) a × Same (rotate90 (rotate270 a)) a
unfolding rotate90 rotate270
rotate270-rotate90 a h = (
  record {
    same_rows = refl;
    same_cols = refl;
    same_center_x = refl;
    same_center_y = opposite-opposite a.rows a.center_y h.center_y_below h.rows_word;
    same_cells = λ r c p q.
        rotate270-cell (rotate90 a) r c p q
        ∙ rotate90-cell a c (a.rows - r - 1) q (omega arith)
        ∙ ap (λ k. cell a k c) (back a.rows r p);
  },
  record {
    same_rows = refl;
    same_cols = refl;
    same_center_x = opposite-opposite a.cols a.center_x h.center_x_below h.cols_word;
    same_center_y = refl;
    same_cells = λ r c p q.
        rotate90-cell (rotate270 a) r c p q
        ∙ rotate270-cell a (a.cols - c - 1) r (omega arith) p
        ∙ ap (cell a r) (back a.cols c q);
  },
)

rotate180-turns :
    (a : MatrixArea)
    → Same (rotate180 a) (flip (mirror a)) × Same (rotate180 a) (rotate90 (rotate90 a))
unfolding rotate90 rotate180 flip mirror
rotate180-turns a = (
  record {
    same_rows = refl;
    same_cols = refl;
    same_center_x = refl;
    same_center_y = refl;
    same_cells = λ r c p q.
        rotate180-cell a r c p q
        ∙ sym (flip-cell (mirror a) r c p q ∙ mirror-cell a (a.rows - r - 1) c (omega arith) q);
  },
  record {
    same_rows = refl;
    same_cols = refl;
    same_center_x = refl;
    same_center_y = refl;
    same_cells = λ r c p q.
        rotate180-cell a r c p q
        ∙ sym (
            rotate90-cell (rotate90 a) r c p q
            ∙ rotate90-cell a (a.cols - c - 1) r (omega arith) p);
  },
)

-- For an area whose center is one of its cells and whose sizes are 32-bit words: flipped twice, and
-- mirrored twice, it has the size, the center and the cells that it had; turned by 180 degrees it
-- has those that it has when mirrored and flipped, and when turned by 90 degrees twice.
pub turns-Same :
    (a : MatrixArea)
    → IsCentered a
    → Same (flip (flip a)) a
      × Same (mirror (mirror a)) a
      × Same (rotate180 a) (flip (mirror a))
      × Same (rotate180 a) (rotate90 (rotate90 a))
turns-Same a h =
    ((flip-flip a h).0, (flip-flip a h).1, (rotate180-turns a).0, (rotate180-turns a).1)
