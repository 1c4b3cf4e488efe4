-- ===== src/Hardware.antt =====
-- internal/hardware: the mode that hardware.go picks for a machine, and how hardware_linux.go reads its
-- memory and its processor. The texts of /proc and the results of other programs are parameters.
pub mod Modes
pub mod Memory
mod Tests
use filesearch.Base.{
  ℕ, zero, suc, ◌+◌, ◌*◌, ◌-◌, ◌%◌, ◌^◌, Bool, true, false, not, ◌||◌, ◌&&◌, leb, Option, none,
  some, List, [], ◌∷◌, ◌++◌, Text, codes, is_empty, text_eq, has_prefix, contains, to_lower,
  trim_space, is_digit, if◌then◌else◌,
}
use filesearch.Db.Query.{fields}

pub data Mode : Type 0 where
  essential : Mode
  advanced : Mode
  professional : Mode

-- String(), in the bytes of UTF-8
abbrev pub mode_text : Mode → Text
mode_text essential = codes "Essentiel"
mode_text advanced = codes "Avanc" ++ 195 ∷ 169 ∷ []
mode_text professional = codes "Pro"

pub record Profile : Type 0 where
  pub cpu_cores : ℕ
  pub ram_bytes : ℕ
  pub has_avx2 : Bool
  pub has_nvidia : Bool
  pub has_amd : Bool

abbrev pub gigabyte : ℕ
gigabyte = 1024 * 1024 * 1024

-- classify(p)
unfoldable pub classify : Profile → Mode
classify p =
    if (p.has_nvidia || p.has_amd) && leb (8 * gigabyte) p.ram_bytes
    then professional
    else if p.has_avx2 && (leb (6 * gigabyte) p.ram_bytes && leb 4 p.cpu_cores)
    then advanced
    else essential

-- The digits of a field as a uint64, from a value before; other characters are passed over.
abbrev pub digits_value : ℕ → Text → ℕ
digits_value kb [] = kb
digits_value kb (c ∷ field) =
    digits_value (if is_digit c then (kb * 10 + (c - b'0')) % 2 ^ 64 else kb) field

-- strings.Fields(line)[1]: `none` is a panic.
abbrev pub second_field : List Text → Option Text
second_field (a ∷ b ∷ rest) = some b
second_field _ = none

abbrev memory_of : Option Text → Option ℕ
memory_of none = none
memory_of (some field) = some (digits_value 0 field * 1024 % 2 ^ 64)

-- detectRAM on the lines of /proc/meminfo; no lines stand also for a file that cannot be opened.
unfoldable pub detect_ram : List Text → Option ℕ
unfolding fields
detect_ram [] = some 0
detect_ram (line ∷ lines) =
    let rest = detect_ram lines in
    if has_prefix line (codes "MemTotal:") then memory_of (second_field (fields [] line)) else rest

abbrev pub has_flag : List Text → Bool
has_flag [] = false
has_flag (flag ∷ flags) = text_eq flag (codes "avx2") || has_flag flags

-- detectAVX2 on the lines of /proc/cpuinfo
unfoldable pub detect_avx2 : List Text → Bool
unfolding fields
detect_avx2 [] = false
detect_avx2 (line ∷ lines) =
    let rest = detect_avx2 lines in
    if has_prefix line (codes "flags") then has_flag (fields [] line) else rest

-- detectNVIDIA, on the output of nvidia-smi
abbrev pub detect_nvidia : Option Text → Bool
detect_nvidia none = false
detect_nvidia (some out) = not (is_empty (trim_space out))

-- detectAMD: whether rocm-smi ran, and the drivers of the cards, where they can be read.
abbrev pub any_amdgpu : List (Option Text) → Bool
any_amdgpu [] = false
any_amdgpu (none ∷ targets) = any_amdgpu targets
any_amdgpu (some target ∷ targets) = contains target (codes "amdgpu") || any_amdgpu targets

abbrev pub detect_amd : Bool → List (Option Text) → Bool
detect_amd ran targets = if ran then true else any_amdgpu targets

-- What `Detect` asks of the machine.
pub record Machine : Type 0 where
  pub num_cpu : ℕ
  pub meminfo : List Text
  pub cpuinfo : List Text
  pub nvidia_smi : Option Text
  pub rocm_smi : Bool
  pub drm_drivers : List (Option Text)

abbrev profile_of : Machine → ℕ → Profile
profile_of m ram = record {
  cpu_cores = m.num_cpu;
  ram_bytes = ram;
  has_avx2 = detect_avx2 m.cpuinfo;
  has_nvidia = detect_nvidia m.nvidia_smi;
  has_amd = detect_amd m.rocm_smi m.drm_drivers;
}

-- Detect() on Linux: the profile and its mode, or a panic.
unfoldable pub detect : Machine → Option (Profile × Mode)
unfolding classify detect_ram detect_avx2
detect m = elim (detect_ram m.meminfo) [
  | none ↦ none
  | some ram ↦ some (profile_of m ram, classify (profile_of m ram))
]
