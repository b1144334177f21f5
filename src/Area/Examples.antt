-- ===== src/Area/Examples.antt =====
-- A cone of two rows and three columns: tests, and the theorems at it.
use projeto_bruxo.Base.{
  ℕ, ◌+◌, ◌*◌, ◌/◌, ◌≡◌, refl, true, false, List, [], ◌∷◌, get_or, length, arith,
}
use projeto_bruxo.Area.{
  MatrixArea, cell, place, fill, create_area, opposite, assign_slice, loop, rotate90, rotate270,
}
use projeto_bruxo.Area.Turns.{IsCentered, Same, rotate270-rotate90}
use projeto_bruxo.Area.Cells.{rotate90-cell}
use projeto_bruxo.Area.Created.{marks, create_area-cell}

-- 1 1 1
-- 0 3 0
abbrev cone_values : List ℕ
cone_values = 1 ∷ 1 ∷ 1 ∷ 0 ∷ 3 ∷ 0 ∷ []

abbrev cone : MatrixArea
cone = create_area cone_values 2

cone_center : (cone.center_x ≡ 1) × (cone.center_y ≡ 1) × (cone.rows ≡ 2) × (cone.cols ≡ 3)
unfolding create_area fill place
cone_center = (refl, refl, refl, refl)

-- Turned by 90 degrees the top row is the right column.
cone_turned :
    (cell (rotate90 cone) 0 1 ≡ true)
    × (cell (rotate90 cone) 2 1 ≡ true)
    × (cell (rotate90 cone) 0 0 ≡ false)
    × (cell (rotate90 cone) 1 0 ≡ true)
    × ((rotate90 cone).center_x ≡ 0)
unfolding create_area fill place rotate90 cell loop assign_slice opposite
cone_turned = (refl, refl, refl, refl, refl)

cone-IsCentered : IsCentered cone
unfolding create_area fill place
cone-IsCentered = record {
  center_x_below = omega arith;
  center_y_below = omega arith;
  rows_word = omega arith;
  cols_word = omega arith;
}

rotate270-rotate90_example :
    Same (rotate270 (rotate90 cone)) cone × Same (rotate90 (rotate270 cone)) cone
rotate270-rotate90_example = rotate270-rotate90 cone cone-IsCentered

rotate90-cell_example : cell (rotate90 cone) 2 1 ≡ cell cone 0 2
unfolding create_area fill place
rotate90-cell_example = rotate90-cell cone 2 1 (omega arith) (omega arith)

create_area-cell_example :
    (cone.rows ≡ 2)
    × (cone.cols ≡ length cone_values / 2)
    × (cell cone 1 1 ≡ marks (get_or cone_values (1 * (length cone_values / 2) + 1) 0))
create_area-cell_example =
    create_area-cell cone_values 2 1 1 (omega arith) refl (omega arith) (omega arith)
