-- ===== src/Server/Status/Tail.antt =====
-- The end of the log that `logTail` of internal/server/server.go keeps.
use filesearch.Base.{ℕ, suc, ◌≡◌, false, ◌==◌, List, [], ◌∷◌, Text, All, if◌then◌else◌}

-- Lines have no newline in them.
abbrev IsLine : Text → Type 0
IsLine = All (λ c. (c == 10) ≡ false)

abbrev pub newlines : Text → ℕ
newlines [] = 0
newlines (c ∷ b) = let rest = newlines b in if c == 10 then suc rest else rest
