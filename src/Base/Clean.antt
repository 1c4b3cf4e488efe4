-- ===== src/Base/Clean.antt =====
-- `filepath.Clean` on Unix.
use Prim.Native.Nat.{ℕ}
use mathlib.Core.Bool.{Bool, ◌||◌}
use mathlib.Core.List.{List, [], ◌∷◌, ◌++◌}
use filesearch.Base.Tests.{◌==◌, if◌then◌else◌}
use filesearch.Base.Texts.{Text, codes, text_eq, has_prefix, is_empty}

abbrev onto_first : ℕ → List Text → List Text
onto_first c [] = (c ∷ []) ∷ []
onto_first c (element ∷ elements) = (c ∷ element) ∷ elements

-- The elements between slashes.
abbrev pub split_path : Text → List Text
split_path [] = [] ∷ []
split_path (c ∷ path) =
    let elements = split_path path in if c == b'/' then [] ∷ elements else onto_first c elements

-- An element `..` takes the last one away; the list has the last one first.
abbrev parent : Bool → List Text → List Text
parent is_rooted [] = if is_rooted then [] else codes ".." ∷ []
parent is_rooted (last ∷ kept) =
    if text_eq last (codes "..") then codes ".." ∷ (last ∷ kept) else kept

abbrev resolve : Bool → List Text → List Text → List Text
resolve is_rooted kept [] = kept
resolve is_rooted kept (element ∷ elements) =
    resolve is_rooted
      (if is_empty element || text_eq element (codes ".")
        then kept
        else if text_eq element (codes "..")
        then parent is_rooted kept
        else element ∷ kept)
      elements

abbrev join_onto : List Text → Text → Text
join_onto [] path = path
join_onto (last ∷ kept) path = join_onto kept (if is_empty path then last else last ++ b'/' ∷ path)

-- filepath.IsAbs(path)
abbrev pub is_abs : Text → Bool
is_abs path = has_prefix path (codes "/")

-- filepath.Clean(path)
abbrev pub clean_path : Text → Text
clean_path path =
    let joined = join_onto (resolve (is_abs path) [] (split_path path)) [] in
    if is_abs path then b'/' ∷ joined else if is_empty joined then codes "." else joined
