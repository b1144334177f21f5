-- ===== src/Names/Examples.antt =====
-- Completion of names: tests, and the theorems at these inputs.
use projeto_bruxo.Base.{◌≡◌, refl, true, not, ◌&&◌, ◌||◌, List, ℕ, [], ◌∷◌}
use projeto_bruxo.Names.{
  Node, get_child, put_child, fresh, child_or_new, mark, insert, remove, found, too_ambiguous,
  prepend, complete, find_one,
}
use projeto_bruxo.Names.Members.{has, same, has-insert}
use projeto_bruxo.Names.Removal.{has-remove}

-- "ana", "anna" and "bob".
abbrev online : Node
unfolding insert put_child child_or_new get_child mark
online =
    insert (97 ∷ 110 ∷ 97 ∷ [])
      (insert (97 ∷ 110 ∷ 110 ∷ 97 ∷ []) (insert (98 ∷ 111 ∷ 98 ∷ []) fresh))

finds_bob : find_one (98 ∷ []) online ≡ found (98 ∷ 111 ∷ 98 ∷ [])
unfolding online insert put_child child_or_new get_child mark find_one complete prepend
finds_bob = refl

ambiguous : find_one (97 ∷ []) online ≡ too_ambiguous
unfolding online insert put_child child_or_new get_child mark find_one complete prepend
ambiguous = refl

has_bob : has (98 ∷ 111 ∷ 98 ∷ []) online ≡ true
unfolding online has insert put_child child_or_new get_child mark
has_bob = refl

has-insert_example :
    has (98 ∷ 111 ∷ 98 ∷ []) (insert (99 ∷ []) online)
    ≡ (has (98 ∷ 111 ∷ 98 ∷ []) online || same (99 ∷ []) (98 ∷ 111 ∷ 98 ∷ []))
has-insert_example = has-insert 99 [] (98 ∷ 111 ∷ 98 ∷ []) online

has-remove_example :
    has (98 ∷ 111 ∷ 98 ∷ []) (remove (98 ∷ 111 ∷ 98 ∷ []) online)
    ≡ (has (98 ∷ 111 ∷ 98 ∷ []) online && not (same (98 ∷ 111 ∷ 98 ∷ []) (98 ∷ 111 ∷ 98 ∷ [])))
has-remove_example = has-remove (98 ∷ 111 ∷ 98 ∷ []) (98 ∷ 111 ∷ 98 ∷ []) online

abbrev bob : List ℕ
bob = 98 ∷ 111 ∷ 98 ∷ []
