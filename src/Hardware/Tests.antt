-- ===== src/Hardware/Tests.antt =====
-- The modes and the memory of internal/hardware at concrete machines.
use filesearch.Base.{◌*◌, ◌%◌, ◌^◌, ◌≤◌, ◌≡◌, refl, true, false, none, some, [], ◌∷◌, codes, arith}
use filesearch.Hardware.{
  advanced, Profile, Machine, gigabyte, classify, detect_ram, detect_avx2, detect,
}
use filesearch.Hardware.Modes.{rank, IsWeaker, rank-classify_mono}
use filesearch.Hardware.Memory.{mem_total_line, detect_ram-mem_total_line}

abbrev laptop : Profile
laptop = record {
  cpu_cores = 4;
  ram_bytes = 6 * gigabyte;
  has_avx2 = true;
  has_nvidia = false;
  has_amd = false;
}

abbrev workstation : Profile
workstation = record {
  cpu_cores = 16;
  ram_bytes = 64 * gigabyte;
  has_avx2 = true;
  has_nvidia = true;
  has_amd = false;
}

weaker : IsWeaker laptop workstation
weaker = record {
  cores = ground arith;
  ram = ground arith;
  avx2 = λ h. refl;
  nvidia = λ h. refl;
  amd = λ h. h;
}

rank-classify_mono_example : rank (classify laptop) ≤ rank (classify workstation)
rank-classify_mono_example = rank-classify_mono laptop workstation weaker

detect_ram-mem_total_line_example :
    detect_ram (codes "Mem:" ∷ mem_total_line 6 16384 ∷ codes "MemFree: 1 kB" ∷ [])
    ≡ some (16384 * 1024 % 2 ^ 64)
detect_ram-mem_total_line_example =
    detect_ram-mem_total_line 6 16384 (codes "Mem:" ∷ []) (codes "MemFree: 1 kB" ∷ []) (refl, tt)

no_field : detect_ram (codes "MemTotal:" ∷ []) ≡ none
unfolding detect_ram filesearch.Db.Query.fields
no_field = refl

-- 16777216 kB is 16 GB.
abbrev linux : Machine
linux = record {
  num_cpu = 8;
  meminfo = codes "MemTotal:       16777216 kB" ∷ [];
  cpuinfo = codes "flags : fpu sse avx2" ∷ [];
  nvidia_smi = none;
  rocm_smi = false;
  drm_drivers = [];
}

detect-linux :
    detect linux
    ≡ some (
      record {
        cpu_cores = 8;
        ram_bytes = 16 * gigabyte;
        has_avx2 = true;
        has_nvidia = false;
        has_amd = false;
      },
      advanced,
    )
unfolding detect detect_ram detect_avx2 classify filesearch.Db.Query.fields
detect-linux = refl
