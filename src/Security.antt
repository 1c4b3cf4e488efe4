-- ===== src/Security.antt =====
-- internal/security/path.go: `ValidatePath`, with `filepath.Rel` on Unix. `filepath.EvalSymlinks` is
-- an argument. `handleOpen` of internal/server/server.go asks it for each root.
pub mod Below
mod Tests
use filesearch.Base.{
  ℕ, suc, Bool, true, false, not, ◌&&◌, ◌||◌, ◌==◌, Option, none, some, List, [], ◌∷◌, ◌++◌, Text,
  codes, text_eq, has_prefix, is_empty, drop, any, clean_path, split_path, is_abs, if◌then◌else◌,
}

-- The elements of a cleaned path.
abbrev elements_after : Text → List Text
elements_after rest = if is_empty rest then [] else split_path rest

abbrev pub elements : Text → List Text
elements path = elements_after (if is_abs path then drop 1 path else path)

-- The elements of the base: the current directory has none.
abbrev pub base_elements : Text → List Text
base_elements path = if text_eq path (codes ".") then [] else elements path

abbrev pub join_path : List Text → Text
join_path [] = []
join_path (element ∷ []) = element
join_path (element ∷ next ∷ rest) = element ++ b'/' ∷ join_path (next ∷ rest)

abbrev ups : List Text → List Text → List Text
ups [] target = target
ups (b ∷ base) target = codes ".." ∷ ups base target

-- From where the two paths differ: up through the rest of the base, then down. There is no way up
-- from an unknown parent.
abbrev pub up : Text → List Text → List Text → Option (List Text)
up b base target = if text_eq b (codes "..") then none else some (codes ".." ∷ ups base target)

abbrev pub rel_elements : List Text → List Text → Option (List Text)
rel_elements [] target = some target
rel_elements (b ∷ base) [] = up b base []
rel_elements (b ∷ base) (t ∷ target) =
    let below = rel_elements base target in if text_eq b t then below else up b base (t ∷ target)

abbrev joined : Option (List Text) → Option Text
joined none = none
joined (some r) = some (join_path r)

-- filepath.Rel(basepath, targpath) of cleaned paths; `none` is an error.
unfoldable pub rel : Text → Text → Option Text
rel base target =
    if text_eq target base
    then some (codes ".")
    else if is_abs base && not (is_abs target) || not (is_abs base) && is_abs target
    then none
    else joined (rel_elements (base_elements base) (elements target))

-- ValidatePath(root, target): whether there is no error.
abbrev pub resolved_target : (Text → Option Text) → Text → Text
resolved_target eval_symlinks target = elim (eval_symlinks target) [
  | some p ↦ p
  | none ↦ clean_path target
]

abbrev pub is_inside : Option Text → Bool
is_inside none = false
is_inside (some r) = not (has_prefix r (codes ".."))

unfoldable pub validate_path : (Text → Option Text) → Text → Text → Bool
unfolding rel
validate_path eval_symlinks root target =
    is_inside (rel (clean_path root) (clean_path (resolved_target eval_symlinks target)))

-- The check of `handleOpen`: no roots, or one that holds the path.
unfoldable pub open_allowed : (Text → Option Text) → List Text → Text → Bool
unfolding validate_path
open_allowed eval_symlinks [] path = true
open_allowed eval_symlinks (root ∷ roots) path =
    any (λ r. not (is_empty r) && validate_path eval_symlinks r path) (root ∷ roots)
