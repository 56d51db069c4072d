-- ===== src/Dispatch/Features.antt =====
-- src/blake4_dispatch.c: the feature bits, and their detection on x86 and ARM64.
use blake.Base.{ℕ, ◌==◌, bit_and, bit_or, Bool, ◌&&◌, not, ltb, if◌then◌else◌}
use blake.Word.{shr}

abbrev pub cpu_sse41 : ℕ
cpu_sse41 = 1

abbrev pub cpu_avx : ℕ
cpu_avx = 2

abbrev pub cpu_avx2 : ℕ
cpu_avx2 = 4

abbrev pub cpu_avx512f : ℕ
cpu_avx512f = 8

abbrev pub cpu_avx512vl : ℕ
cpu_avx512vl = 16

abbrev pub cpu_neon : ℕ
cpu_neon = 32

-- What the processor answers to CPUID and XGETBV.
pub record Cpu : Type 0 where
  pub max_leaf : ℕ
  pub leaf1_ecx : ℕ
  pub leaf7_ebx : ℕ
  pub xcr0 : ℕ

-- `(info >> bit) & 1` as a test, and `(features & mask) == mask`.
abbrev pub bit_set : ℕ → ℕ → Bool
bit_set info bit = not (bit_and (shr info bit) 1 == 0)

abbrev pub all_set : ℕ → ℕ → Bool
all_set features mask = bit_and features mask == mask

-- `if (test) features |= bit;`
abbrev pub add_feature : ℕ → Bool → ℕ → ℕ
add_feature features test bit = if test then bit_or features bit else features

unfoldable pub os_avx : Cpu → Bool
os_avx cpu = (bit_set cpu.leaf1_ecx 27 && bit_set cpu.leaf1_ecx 28) && all_set cpu.xcr0 6

unfoldable pub os_avx512 : Cpu → Bool
os_avx512 cpu = all_set cpu.xcr0 230

-- Leaf 7, behind the test that the leaf exists and that the system saves the AVX state.
unfoldable pub add_leaf7 : Cpu → ℕ → ℕ
add_leaf7 cpu features =
    let f1 = add_feature features (bit_set cpu.leaf7_ebx 5) cpu_avx2 in
    let has_f = os_avx512 cpu && bit_set cpu.leaf7_ebx 16 in
    let f2 = add_feature f1 has_f cpu_avx512f in
    add_feature f2 (has_f && bit_set cpu.leaf7_ebx 31) cpu_avx512vl

unfoldable pub detect_cpu_features_x86 : Cpu → ℕ
detect_cpu_features_x86 cpu =
    let f1 = add_feature 0 (bit_set cpu.leaf1_ecx 19) cpu_sse41 in
    let f2 = add_feature f1 (os_avx cpu) cpu_avx in
    let with_leaf7 = add_leaf7 cpu f2 in
    if ltb cpu.max_leaf 1
    then 0
    else if not (ltb cpu.max_leaf 7) && os_avx cpu
    then with_leaf7
    else f2

-- Linux asks the kernel (`HWCAP_ASIMD`); the other systems take NEON as given.
unfoldable pub detect_cpu_features_arm64 : Bool → ℕ → ℕ
detect_cpu_features_arm64 linux hwcap =
    if linux then add_feature 0 (not (bit_and hwcap 2 == 0)) cpu_neon else cpu_neon
