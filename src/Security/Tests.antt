-- ===== src/Security/Tests.antt =====
-- The theorem on `ValidatePath` of internal/security/path.go at a concrete path.
use filesearch.Base.{
  ◌≡◌, ◌⊎◌, refl, true, Option, none, List, ◌++◌, Text, codes, clean_path, is_abs,
}
use filesearch.Security.{elements, base_elements, resolved_target, validate_path}
use filesearch.Security.Below.{validate_path-below}

abbrev no_links : Text → Option Text
no_links path = none

inside_at : validate_path no_links (codes "/d/") (codes "/d/x/../a.txt") ≡ true
unfolding validate_path
inside_at = refl

validate_path-below_example :
    (clean_path (resolved_target no_links (codes "/d/x/../a.txt")) ≡ clean_path (codes "/d/"))
    ⊎ ((rest : List Text) × (elements
            (clean_path (resolved_target no_links (codes "/d/x/../a.txt")))
          ≡ base_elements (clean_path (codes "/d/")) ++ rest)
        × (is_abs (clean_path (resolved_target no_links (codes "/d/x/../a.txt")))
            ≡ is_abs (clean_path (codes "/d/"))))
validate_path-below_example =
    validate_path-below no_links (codes "/d/") (codes "/d/x/../a.txt") inside_at
