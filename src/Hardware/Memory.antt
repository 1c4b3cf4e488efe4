-- ===== src/Hardware/Memory.antt =====
-- How hardware_linux.go of internal/hardware reads the memory from a line of /proc/meminfo.
use filesearch.Base.{
  ℕ, zero, suc, ◌+◌, ◌*◌, ◌-◌, ◌%◌, ◌^◌, ◌≡◌, refl, ap, ◌∙◌, true, false, some, List, [], ◌∷◌, ◌++◌,
  Text, codes, has_prefix, is_space, is_digit, decimal, AreDigits, decimal-AreDigits,
  decimal-filled, value, value-decimal, All, All-map, is_empty, arith,
}
use filesearch.Db.Query.{fields, onto}
use filesearch.Db.Query.Words.{AreVisible}
use filesearch.Db.Query.Sanitized.{fields-append}
use filesearch.Hardware.{digits_value, second_field, memory_of, detect_ram}

abbrev word : ℕ
word = 2 ^ 64

mod_step : (kb d : ℕ) → (kb % word * 10 + d) % word ≡ (kb * 10 + d) % word
mod_step kb d = omega arith

-- The digits give their value, as a uint64.
digits_value-value :
    (ds : Text) (kb : ℕ) → AreDigits ds → digits_value (kb % word) ds ≡ value kb ds % word
digits_value-value [] kb a = refl
digits_value-value (c ∷ ds) kb (digit, a) = rw digit (
    ap (λ n. digits_value n ds) (mod_step kb (c - b'0'))
    ∙ digits_value-value ds (kb * 10 + (c - b'0')) a)

digits_value-decimal : (n : ℕ) → digits_value 0 (decimal n) ≡ n % word
digits_value-decimal n =
    digits_value-value (decimal n) 0 (decimal-AreDigits n) ∙ ap (λ v. v % word) (value-decimal n)

abbrev spaces : ℕ → Text
spaces zero = []
spaces (suc k) = b' ' ∷ spaces k

-- A line as the kernel writes it: at least one space, the kilobytes and the unit.
abbrev pub mem_total_line : ℕ → ℕ → Text
mem_total_line k n = codes "MemTotal:" ++ b' ' ∷ (spaces k ++ (decimal n ++ codes " kB"))

fields-spaces : (k : ℕ) (t : Text) → fields [] (spaces k ++ t) ≡ fields [] t
unfolding fields
fields-spaces zero t = refl
fields-spaces (suc k) t = fields-spaces k t

digits-AreVisible : (ds : Text) → AreDigits ds → AreVisible ds
digits-AreVisible ds a = All-map (λ c. is_digit c ≡ true) (λ c. is_space c ≡ false) ds visible a
  where
    visible : (c : ℕ) → is_digit c ≡ true → is_space c ≡ false
    visible c d = ground arith

onto_field : (w : Text) (rest : List Text) → is_empty w ≡ false → onto w rest ≡ w ∷ rest
onto_field w rest e = rw e refl

fields-mem_total_line :
    (k n : ℕ) → fields [] (mem_total_line k n) ≡ codes "MemTotal:" ∷ decimal n ∷ codes "kB" ∷ []
unfolding fields
fields-mem_total_line k n =
    let label = codes "MemTotal:" in
    ap (λ t. label ∷ t)
      (fields-spaces k (decimal n ++ codes " kB")
        ∙ fields-append (decimal n) [] (codes " kB")
            (digits-AreVisible (decimal n) (decimal-AreDigits n))
        ∙ onto_field (decimal n) (codes "kB" ∷ []) (decimal-filled n))

-- From lines of which none begins as that of the memory, and then that line for a number of
-- kilobytes, whatever follows, detectRAM returns the number of bytes, as a uint64.
pub detect_ram-mem_total_line :
    (k n : ℕ) (lines rest : List Text)
    → All (λ line. has_prefix line (codes "MemTotal:") ≡ false) lines
    → detect_ram (lines ++ mem_total_line k n ∷ rest) ≡ some (n * 1024 % 2 ^ 64)
unfolding detect_ram
detect_ram-mem_total_line k n [] rest others =
    ap (λ f. memory_of (second_field f)) (fields-mem_total_line k n)
    ∙ ap some (ap (λ v. v * 1024 % word) (digits_value-decimal n) ∙ scaled n)
  where
    scaled : (n : ℕ) → n % word * 1024 % word ≡ n * 1024 % word
    scaled n = omega arith
detect_ram-mem_total_line k n (line ∷ lines) rest (other, others) =
    rw (detect_ram, other) (detect_ram-mem_total_line k n lines rest others)
