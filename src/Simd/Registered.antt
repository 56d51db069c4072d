-- ===== src/Simd/Registered.antt =====
-- The registration of the back ends: blake4_register_* of src/blake4_dispatch.c and blake4_init_*
-- of the files of the back ends, and what the dispatcher then selects.
pub mod Chosen
use blake.Base.{ℕ, ◌≡◌, refl, ap, List, length, Option, none, some, ◌>>=◌}
use blake.Word.{rotr64}
use blake.Compress.{compress_portable}
use blake.Dispatch.{
  Arch, x86_64, arm64, other_arch, Registry, register_built, start_state, dispatch_get_compress,
  select_implementation, Dispatch,
}
use blake.Base.{[], true, if◌then◌else◌, ◌⊎◌, inl, inr, ◌∙◌}
use blake.Base.{Bool, false}
use blake.Dispatch.{pick_or, avx512_asm_name, avx2_asm_name, neon_asm_name, portable_c}
use blake.Dispatch.{init_simd_implementations, get_cpu_features, use_impl, best, any_set}
use blake.Dispatch.Features.{cpu_avx2, cpu_neon, all_set}
use blake.Dispatch.Trusted.{Guarded}
use blake.Dispatch.Trusted.Requests.{Request, answer_all, get_compress-Runs}
use blake.Simd.Vectors.{each, Avx, Neon}
use blake.Simd.Words.{IsPortable}
use blake.Simd.Avx2.{compress_avx2_impl}
use blake.Simd.Avx2.Portable.{compress_avx2_impl-portable}
use blake.Simd.Avx512.{compress_avx512_impl}
use blake.Simd.Avx512.Portable.{compress_avx512_impl-portable}
use blake.Simd.Neon.{compress_neon_impl}
use blake.Simd.Neon.Portable.{compress_neon_impl-portable}

-- `blake4_compress_fn`
abbrev pub CompressFn : Type 0
CompressFn = List ℕ → List ℕ → ℕ → ℕ → ℕ → List ℕ

unfoldable pub register_avx2 : CompressFn → Registry CompressFn → Registry CompressFn
register_avx2 fn r = record r { avx2 = some fn }

unfoldable pub register_avx2_asm : CompressFn → Registry CompressFn → Registry CompressFn
register_avx2_asm fn r = record r { avx2_asm = some fn }

unfoldable pub register_avx512 : CompressFn → Registry CompressFn → Registry CompressFn
register_avx512 fn r = record r { avx512 = some fn }

unfoldable pub register_avx512_asm : CompressFn → Registry CompressFn → Registry CompressFn
register_avx512_asm fn r = record r { avx512_asm = some fn }

unfoldable pub register_neon : CompressFn → Registry CompressFn → Registry CompressFn
register_neon fn r = record r { neon = some fn }

unfoldable pub register_neon_asm : CompressFn → Registry CompressFn → Registry CompressFn
register_neon_asm fn r = record r { neon_asm = some fn }

-- `blake4_dispatch_compress`: `none` is a call through NULL.
unfoldable pub dispatch_compress :
    Arch
    → ℕ
    → Registry CompressFn
    → Dispatch CompressFn
    → List ℕ
    → List ℕ
    → ℕ
    → ℕ
    → ℕ
    → Option (List ℕ) × Dispatch CompressFn
dispatch_compress arch detected built d cv block block_len counter flags =
    let d' = select_implementation compress_portable arch detected built d in
    (do g_compress_fn ← d'.compress_fn; some (g_compress_fn cv block block_len counter flags), d')

-- The vector units, and the assembly functions.
pub record Machine : Type 1 where
  pub avx : Avx
  pub ror_epi64 : avx.M256 → ℕ → avx.M256
  pub neon : Neon
  pub compress_avx2_asm : CompressFn
  pub compress_avx512_asm : CompressFn
  pub compress_neon_asm : CompressFn

-- `_mm256_ror_epi64` rotates each lane.
pub record IsSound (t : Machine) : Type 0 where
  pub lanes-ror_epi64 :
      (x : t.avx.M256) (n : ℕ)
      → t.avx.lanes (t.ror_epi64 x n) ≡ each (λ w. rotr64 w n) (t.avx.lanes x)

module _ (t : Machine) where
  unfoldable pub init_avx2 : Registry CompressFn → Registry CompressFn
  unfolding register_avx2
  init_avx2 = register_avx2 (compress_avx2_impl t.avx)

  unfoldable pub init_avx2_asm : Registry CompressFn → Registry CompressFn
  unfolding register_avx2_asm
  init_avx2_asm = register_avx2_asm t.compress_avx2_asm

  unfoldable pub init_avx512 : Registry CompressFn → Registry CompressFn
  unfolding register_avx512
  init_avx512 = register_avx512 (compress_avx512_impl t.avx t.ror_epi64)

  unfoldable pub init_avx512_asm : Registry CompressFn → Registry CompressFn
  unfolding register_avx512_asm
  init_avx512_asm = register_avx512_asm t.compress_avx512_asm

  unfoldable pub init_neon : Registry CompressFn → Registry CompressFn
  unfolding register_neon
  init_neon = register_neon (compress_neon_impl t.neon)

  unfoldable pub init_neon_asm : Registry CompressFn → Registry CompressFn
  unfolding register_neon_asm
  init_neon_asm = register_neon_asm t.compress_neon_asm

  -- The calls of `init_simd_implementations`, by architecture.
  unfoldable pub init_all : Arch → Registry CompressFn → Registry CompressFn
  unfolding init_avx2 init_avx2_asm init_avx512 init_avx512_asm init_neon init_neon_asm
  init_all x86_64 r = init_avx2_asm (init_avx2 (init_avx512_asm (init_avx512 r)))
  init_all arm64 r = init_neon_asm (init_neon r)
  init_all other_arch r = r

  abbrev pub empty_registry : Registry CompressFn
  empty_registry = record {
    avx2 = none;
    avx2_asm = none;
    avx512 = none;
    avx512_asm = none;
    neon = none;
    neon_asm = none;
  }

  -- What the dispatcher is given of a build for `arch` with every back end.
  abbrev pub built_for : Arch → Registry CompressFn
  built_for arch = init_all arch empty_registry

  -- The dispatcher's own step of registration makes these calls.
  pub register_built-init_all :
      (arch : Arch) (detected : ℕ) (r : Registry CompressFn)
      → register_built compress_portable arch detected (built_for arch) arch r ≡ init_all arch r
  unfolding init_all
  register_built-init_all x86_64 detected r = refl
  register_built-init_all arm64 detected r = refl
  register_built-init_all other_arch detected r = refl
