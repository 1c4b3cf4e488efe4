-- ===== src/Hardware/Modes.antt =====
-- The order of the modes of internal/hardware/hardware.go.
use filesearch.Base.{
  ℕ, ◌*◌, ◌≤◌, ◌≡◌, refl, inl, inr, Bool, true, false, ◌||◌, ◌&&◌, Bool-cases, leb, leb→le, le→leb,
  arith, if◌then◌else◌,
}
use filesearch.Hardware.{Mode, essential, advanced, professional, Profile, gigabyte, classify}

-- The constants of the type Mode.
abbrev pub rank : Mode → ℕ
rank essential = 0
rank advanced = 1
rank professional = 2

-- What one machine has, the other has.
abbrev pub Implied : Bool → Bool → Type 0
Implied a b = a ≡ true → b ≡ true

pub record IsWeaker (p q : Profile) : Type 0 where
  pub cores : p.cpu_cores ≤ q.cpu_cores
  pub ram : p.ram_bytes ≤ q.ram_bytes
  pub avx2 : Implied p.has_avx2 q.has_avx2
  pub nvidia : Implied p.has_nvidia q.has_nvidia
  pub amd : Implied p.has_amd q.has_amd

abbrev is_pro : Profile → Bool
is_pro p = (p.has_nvidia || p.has_amd) && leb (8 * gigabyte) p.ram_bytes

abbrev is_advanced : Profile → Bool
is_advanced p = p.has_avx2 && (leb (6 * gigabyte) p.ram_bytes && leb 4 p.cpu_cores)

leb_mono : (k a b : ℕ) → a ≤ b → Implied (leb k a) (leb k b)
leb_mono k a b h t = let u = leb→le k a t in le→leb k b (omega arith)

and_mono : (a b c d : Bool) → Implied a c → Implied b d → Implied (a && b) (c && d)
and_mono true b c d h k t = rw (h refl) (k t)
and_mono false b c d h k t = ground arith

or_mono : (a b c d : Bool) → Implied a c → Implied b d → Implied (a || b) (c || d)
or_mono true b c d h k t = rw (h refl) refl
or_mono false b true d h k t = refl
or_mono false b false d h k t = k t

ranked :
    (p : Profile) → rank (classify p) ≡ (if is_pro p then 2 else if is_advanced p then 1 else 0)
unfolding classify
ranked p = elim (Bool-cases (is_pro p)) [
  | inl pro ↦ rw (classify, pro) refl
  | inr not_pro ↦ elim (Bool-cases (is_advanced p)) [
    | inl adv ↦ rw (classify, not_pro, adv) refl
    | inr not_adv ↦ rw (classify, not_pro, not_adv) refl
  ]
]

chain_mono :
    (a b c d : Bool)
    → Implied a c
    → Implied b d
    → (if a then 2 else if b then 1 else 0) ≤ (if c then 2 else if d then 1 else 0)
chain_mono true b c d h k = rw (h refl) (omega arith)
chain_mono false true true d h k = omega arith
chain_mono false true false d h k = rw (k refl) (omega arith)
chain_mono false false c d h k = ground arith

-- A machine that has no less of anything gets no lower a mode.
pub rank-classify_mono : (p q : Profile) → IsWeaker p q → rank (classify p) ≤ rank (classify q)
rank-classify_mono p q weaker =
    let pro =
      and_mono (p.has_nvidia || p.has_amd) (leb (8 * gigabyte) p.ram_bytes)
        (q.has_nvidia || q.has_amd) (leb (8 * gigabyte) q.ram_bytes)
        (or_mono p.has_nvidia p.has_amd q.has_nvidia q.has_amd weaker.nvidia weaker.amd)
        (leb_mono (8 * gigabyte) p.ram_bytes q.ram_bytes weaker.ram) in
    let adv =
      and_mono p.has_avx2 (leb (6 * gigabyte) p.ram_bytes && leb 4 p.cpu_cores) q.has_avx2
        (leb (6 * gigabyte) q.ram_bytes && leb 4 q.cpu_cores) weaker.avx2
        (and_mono (leb (6 * gigabyte) p.ram_bytes) (leb 4 p.cpu_cores)
          (leb (6 * gigabyte) q.ram_bytes) (leb 4 q.cpu_cores)
          (leb_mono (6 * gigabyte) p.ram_bytes q.ram_bytes weaker.ram)
          (leb_mono 4 p.cpu_cores q.cpu_cores weaker.cores)) in
    rw (ranked p, ranked q)
      (chain_mono (is_pro p) (is_advanced p) (is_pro q) (is_advanced q) pro adv)
