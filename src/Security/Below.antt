-- ===== src/Security/Below.antt =====
-- What `ValidatePath` of internal/security/path.go accepts.
use filesearch.Base.{
  ◌≡◌, refl, ◌⊎◌, inl, inr, true, false, not, ◌&&◌, ◌||◌, Bool-cases, Option, List, [], ◌∷◌, ◌++◌,
  Text, codes, text_eq, text_eq_iff, has_prefix, clean_path, is_abs, arith,
}
use filesearch.Security.{
  elements, base_elements, join_path, ups, up, rel_elements, rel, joined, resolved_target,
  is_inside, validate_path,
}

up-join : (xs : List Text) → has_prefix (join_path (codes ".." ∷ xs)) (codes "..") ≡ true
up-join [] = refl
up-join (x ∷ xs) = refl

up_outside : (b : Text) (base target : List Text) → is_inside (joined (up b base target)) ≡ false
up_outside b base target = elim (Bool-cases (text_eq b (codes ".."))) [
  | inl parent ↦ rw parent refl
  | inr named ↦ rw named (rw (up-join (ups base target)) refl)
]

-- Inside, the elements of the target go on from those of the base.
inside_below :
    (base target : List Text)
    → is_inside (joined (rel_elements base target)) ≡ true
    → (rest : List Text) × (target ≡ base ++ rest)
inside_below [] target h = (target, refl)
inside_below (b ∷ base) [] h = absurd (cc (h, up_outside b base []))
inside_below (b ∷ base) (t ∷ target) h = elim (Bool-cases (text_eq b t)) [
  | inl same ↦
      let (rest, split) = inside_below base target (rw same at h) in
      (rest, cc ((text_eq_iff b t).0 same, split))
  | inr other ↦ absurd (cc ((rw other at h), up_outside b base (t ∷ target)))
]

-- An accepted path is the root, or its elements are those of the root and then some, after
-- symbolic links are resolved where they can be and both paths are cleaned.
pub validate_path-below :
    (eval_symlinks : Text → Option Text) (root target : Text)
    → validate_path eval_symlinks root target ≡ true
    → (clean_path (resolved_target eval_symlinks target) ≡ clean_path root)
      ⊎ ((rest : List Text) × (elements (clean_path (resolved_target eval_symlinks target))
            ≡ base_elements (clean_path root) ++ rest)
          × (is_abs (clean_path (resolved_target eval_symlinks target)) ≡ is_abs (clean_path root)))
unfolding validate_path rel
validate_path-below eval_symlinks root target h =
    below (clean_path root) (clean_path (resolved_target eval_symlinks target)) h
  where
    below :
        (b t : Text)
        → is_inside (rel b t) ≡ true
        → (t ≡ b)
          ⊎ ((rest : List Text) × (elements t ≡ base_elements b ++ rest) × (is_abs t ≡ is_abs b))
    below b t h = elim (Bool-cases (text_eq t b)) [
      | inl same ↦ inl ((text_eq_iff t b).0 same)
      | inr other ↦ elim (Bool-cases (is_abs b && not (is_abs t) || not (is_abs b) && is_abs t)) [
        | inl mixed ↦ absurd (cc (rw (other, mixed) at h))
        | inr alike ↦
            let (rest, split) =
              inside_below (base_elements b) (elements t) (rw (other, alike) at h) in
            inr (rest, split, ground (arith, alike))
      ]
    ]
