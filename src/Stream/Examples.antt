-- ===== src/Stream/Examples.antt =====
-- Property streams: tests, and the theorems at these inputs.
use projeto_bruxo.Base.{◌≡◌, refl, some, none, [], ◌∷◌}
use projeto_bruxo.Stream.{value_of, read, read_string, get_props, unescape}
use projeto_bruxo.Stream.Escape.{escape, get_props-escape}

-- A text that is cut short: its length is gone from the stream.
cut_short : read_string (3 ∷ 0 ∷ 7 ∷ []) ≡ (none, 7 ∷ [])
unfolding read_string read value_of
cut_short = refl

escaped : get_props (1 ∷ 253 ∷ 254 ∷ 253 ∷ 253 ∷ []) ≡ some (1 ∷ 254 ∷ 253 ∷ [])
unfolding get_props unescape
escaped = refl

get_props-escape_example : get_props (escape (254 ∷ 253 ∷ [])) ≡ some (254 ∷ 253 ∷ [])
get_props-escape_example = get_props-escape 254 (253 ∷ [])
