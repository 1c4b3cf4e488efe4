-- ===== src/Indexer/Walk/Public.antt =====
-- The secrets that the walk of internal/indexer/indexer.go keeps out of the index.
use filesearch.Base.{◌≡◌, ◌≢◌, true, List, [], ◌∷◌, Text, codes, All, member, to_lower, base, ext}
use filesearch.Indexer.Policy.{supported_extensions}

-- The extensions and the names of secrets that README.md and SECURITY.md list.
abbrev documented_extensions : List Text
documented_extensions =
    codes ".pem" ∷ codes ".key" ∷ codes ".p12" ∷ codes ".pfx" ∷ codes ".jks" ∷ []

abbrev documented_names : List Text
documented_names =
    codes ".env"
    ∷ codes ".env.local"
    ∷ codes ".env.prod"
    ∷ codes ".envrc"
    ∷ codes ".netrc"
    ∷ codes "credentials"
    ∷ codes "id_rsa"
    ∷ codes "id_ed25519"
    ∷ []

abbrev pub IsNone : Text → List Text → Type 0
IsNone name names = All (λ secret. name ≢ secret) names

abbrev pub IsPublic : Text → Type 0
IsPublic path =
    IsNone (to_lower (ext path)) documented_extensions
    × IsNone (to_lower (base path)) documented_names
    × (member (to_lower (ext path)) supported_extensions ≡ true)
