-- ===== src/Server/Settings/Roots.antt =====
-- The roots that `handleSettings` of internal/server/server.go accepts.
use mathlib.Core.List.{append_assoc}
use filesearch.Base.{
  ◌≡◌, ◌⊎◌, inl, inr, refl, sym, ap, ◌∙◌, subst, Bool, true, false, Bool-cases, ◌||◌, Option, none,
  some, List, [], ◌∷◌, ◌++◌, ◌≢◌, Text, codes, to_lower, text_eq, text_eq_iff, has_prefix,
  has_prefix-append, member, is_empty, any, All, All-append, arith, clean_path,
}
use filesearch.Config.{FileSystem, Codec, Manager}
use filesearch.Server.Settings.{
  Settings, Disk, Refusal, Checked, refused, accepted, check_dir, check_resolved, checked_dir,
  resolved_path, add_root, apply_settings, handle_settings, is_sensitive_path, sensitive_prefixes,
}

-- The directories of the system that SECURITY.md and the comments of isSensitivePath name and that are
-- refused on Unix.
abbrev system_dirs : List Text
system_dirs =
    codes "/etc" ∷ codes "/sys" ∷ codes "/proc" ∷ codes "/dev" ∷ codes "/run" ∷ codes "/boot" ∷ []

-- Neither the directory nor below it, in whichever case.
abbrev pub IsOutside : Text → Text → Type 0
IsOutside p dir = (below : Text) → to_lower p ≢ dir × (to_lower p ≢ dir ++ b'/' ∷ below)

abbrev pub IsAllowed : Disk → Text → Type 0
IsAllowed disk p =
    (is_sensitive_path p ≡ false) × All (IsOutside p) system_dirs × (disk.stat_is_dir p ≡ some true)

outside :
    (p dir : Text)
    → (text_eq (to_lower p) dir || has_prefix (to_lower p) (dir ++ b'/' ∷ [])) ≡ false
    → IsOutside p dir
outside p dir out below = (
  λ same. ground (arith, same, out, text_eq_iff (to_lower p) dir),
  λ same.
      let starts =
        ap (λ t. has_prefix t (dir ++ b'/' ∷ [])) (same ∙ sym (append_assoc dir (b'/' ∷ []) below))
        ∙ has_prefix-append (dir ++ b'/' ∷ []) below in
      ground (arith, starts, out),
)

-- Where no entry of a table fits, one that is named does not.
any-member :
    (f : Text → Bool) (table : List Text) (name : Text)
    → any f table ≡ false
    → member name table ≡ true
    → f name ≡ false
any-member f [] name none_fits there = ground arith
any-member f (x ∷ table) name none_fits there =
    let rest = any-member f table name in
    let same = text_eq_iff name x in
    elim (Bool-cases (text_eq name x)) [
      | inl e ↦ let eq = same.0 e in subst (λ n. f n ≡ false) (sym eq) (ground arith)
      | inr ne ↦ rest (ground arith) (ground (arith, ne, there))
    ]

or_left : (a b : Bool) → (a || b) ≡ false → a ≡ false
or_left false b h = refl
or_left true b h = h

pub is_sensitive_path-IsOutside :
    (p : Text) → is_sensitive_path p ≡ false → All (IsOutside p) system_dirs
unfolding is_sensitive_path
is_sensitive_path-IsOutside p h = (
  out (codes "/etc") refl,
  (
    out (codes "/sys") refl,
    (
      out (codes "/proc") refl,
      (out (codes "/dev") refl, (out (codes "/run") refl, (out (codes "/boot") refl, tt))),
    ),
  ),
)
  where
    out : (dir : Text) → member dir sensitive_prefixes ≡ true → IsOutside p dir
    out dir known = outside p dir (
        any-member (λ d. text_eq (to_lower p) d || has_prefix (to_lower p) (d ++ b'/' ∷ []))
          sensitive_prefixes dir (or_left _ _ h) known)

check_resolved-IsAllowed :
    (disk : Disk) (p path : Text)
    → check_resolved (disk.stat_is_dir p) p ≡ accepted path
    → IsAllowed disk path
check_resolved-IsAllowed disk p path h =
    let safe : is_sensitive_path path ≡ false = ground arith in
    let there : disk.stat_is_dir path ≡ some true = ground arith in
    (safe, is_sensitive_path-IsOutside path safe, there)

check_dir-IsAllowed :
    (disk : Disk) (dir path : Text) → check_dir disk dir ≡ accepted path → IsAllowed disk path
unfolding check_dir
check_dir-IsAllowed disk dir path h =
    check_resolved-IsAllowed disk (resolved_path disk (clean_path dir)) path (ground arith)

add_root-All :
    (P : Text → Type 0) (dir : Text) (roots : List Text)
    → (is_empty dir ≡ true) ⊎ P dir
    → All P roots
    → All P (add_root dir roots)
add_root-All P dir roots p a = elim (Bool-cases (is_empty dir || member dir roots)) [
  | inl there ↦ rw there a
  | inr new ↦ rw new (
      All-append P roots (dir ∷ []) a
        (elim p [ inl none_given ↦ absurd (ground arith) | inr q ↦ (q, tt) ]))
]

module _ (fs : FileSystem) (json : Codec) (disk : Disk) (takes : Bool) (s : Settings)
    (d : Option (fs.State × Manager)) where
  -- Where every root is a directory that is there, passes isSensitivePath, and is neither, in
  -- whichever case of letters, one of /etc, /sys, /proc, /dev, /run and /boot nor below one, it
  -- is so after any request to change the settings.
  pub handle_settings-IsAllowed :
      (body : Option (Text × Text))
      → All (IsAllowed disk) s.indexed_roots
      → All (IsAllowed disk) (handle_settings fs json disk body takes s d).0.indexed_roots
  unfolding handle_settings apply_settings
  handle_settings-IsAllowed none a = a
  handle_settings-IsAllowed (some (dir, mode)) a = go (checked_dir disk dir) refl
    where
      known :
          (path : Text)
          → checked_dir disk dir ≡ accepted path
          → (is_empty path ≡ true) ⊎ IsAllowed disk path
      known path at = elim (Bool-cases (is_empty dir)) [
        | inl blank ↦ inl (ground (arith, at, blank))
        | inr given ↦ inr (check_dir-IsAllowed disk dir path (ground (arith, at, given)))
      ]

      go :
          (c : Checked)
          → checked_dir disk dir ≡ c
          → All
              (IsAllowed disk)
              (handle_settings fs json disk (some (dir, mode)) takes s d).0.indexed_roots
      go (refused r) at = rw (at, handle_settings) a
      go (accepted path) at =
          rw (at, handle_settings)
            (add_root-All (IsAllowed disk) path s.indexed_roots (known path at) a)

  -- A refused request changes neither the settings nor the file, and sends no directory.
  pub handle_settings_refused :
      (body : Option (Text × Text)) (r : Refusal)
      → (handle_settings fs json disk body takes s d).3 ≡ some r
      → handle_settings fs json disk body takes s d ≡ (s, d, none, some r)
  unfolding handle_settings
  handle_settings_refused none r h = cc
  handle_settings_refused (some (dir, mode)) r h = go (checked_dir disk dir) refl
    where
      go :
          (c : Checked)
          → checked_dir disk dir ≡ c
          → handle_settings fs json disk (some (dir, mode)) takes s d ≡ (s, d, none, some r)
      go (refused r') at = ground (arith, h, at)
      go (accepted path) at = absurd (ground (arith, h, at))
