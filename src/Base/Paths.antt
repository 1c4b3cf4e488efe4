-- ===== src/Base/Paths.antt =====
-- Slash-separated paths, as the package `path/filepath` reads them on Unix, and `strings.TrimSpace`
-- over the blanks of ASCII.
use Prim.Native.Nat.{ℕ, suc}
use mathlib.Core.Bool.{Bool, ◌&&◌, ◌||◌}
use mathlib.Core.List.{[], ◌∷◌}
use mathlib.Core.Option.{none, some}
use filesearch.Base.Tests.{leb, ◌==◌, if◌then◌else◌}
use filesearch.Base.Lists.{drop}
use filesearch.Base.Texts.{Text, codes, is_empty, last_index_byte}

abbrev pub is_space : ℕ → Bool
is_space c = c == 32 || (leb 9 c && leb c 13)

abbrev pub trim_left : Text → Text
trim_left [] = []
trim_left (c ∷ s) = if is_space c then trim_left s else c ∷ s

abbrev pub trim_right : Text → Text
trim_right [] = []
trim_right (c ∷ s) = let rest = trim_right s in if is_empty rest && is_space c then [] else c ∷ rest

-- strings.TrimSpace(s)
abbrev pub trim_space : Text → Text
trim_space s = trim_left (trim_right s)

abbrev trim_slashes : Text → Text
trim_slashes [] = []
trim_slashes (c ∷ s) =
    let rest = trim_slashes s in if is_empty rest && (c == b'/') then [] else c ∷ rest

-- What follows the last slash.
abbrev pub last_element : Text → Text
last_element path = elim (last_index_byte b'/' path) [ none ↦ path | some i ↦ drop (suc i) path ]

-- filepath.Base(path)
abbrev pub base : Text → Text
base path =
    if is_empty path
    then codes "."
    else (let element = last_element (trim_slashes path) in
        if is_empty element then codes "/" else element)

-- filepath.Ext(path): the last element from its last dot on.
abbrev pub ext : Text → Text
ext path =
    let element = last_element path in
    elim (last_index_byte b'.' element) [ none ↦ [] | some i ↦ drop i element ]
