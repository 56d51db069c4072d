-- ===== src/Dispatch.antt =====
-- src/blake4_dispatch.c: the registry of compression functions and the choice among them.
pub mod Features
pub mod Trusted
use blake.Base.{ℕ, ◌==◌, bit_and, Bool, true, false, not, ◌&&◌, Option, none, some, if◌then◌else◌}
use Features.{cpu_sse41, cpu_avx, cpu_avx2, cpu_avx512f, cpu_avx512vl, cpu_neon, all_set}

-- The strings of `g_impl_name`.
pub data ImplName : Type 0 where
  uninitialized portable_c avx512_asm_name avx512_name avx2_asm_name avx2_name neon_asm_name
        neon_name portable_forced avx2_forced avx2_asm_forced avx512_forced avx512_asm_forced
        neon_forced neon_asm_forced :
      ImplName

-- `blake4_impl_select`; any other value is taken as `select_auto`.
pub data ImplSelect : Type 0 where
  select_auto select_portable select_avx2 select_avx2_asm select_avx512 select_avx512_asm
        select_neon select_neon_asm :
      ImplSelect

-- `blake4_cpu_feature`; any other value is `feature_other`.
pub data CpuFeature : Type 0 where
  feature_sse41 feature_avx feature_avx2 feature_avx512f feature_avx512vl feature_neon
        feature_other :
      CpuFeature

-- The architecture the library is built for.
pub data Arch : Type 0 where
  x86_64 arm64 other_arch : Arch

-- The function pointers; `none` is NULL.
pub record Registry (F : Type 0) : Type 0 where
  pub avx2 : Option F
  pub avx2_asm : Option F
  pub avx512 : Option F
  pub avx512_asm : Option F
  pub neon : Option F
  pub neon_asm : Option F

-- The static variables of the file.
pub record Dispatch (F : Type 0) : Type 0 where
  pub features_detected : Bool
  pub cpu_features : ℕ
  pub impl_selected : Bool
  pub compress_fn : Option F
  pub impl_name : ImplName
  pub simd_initialized : Bool
  pub registry : Registry F

-- `features & mask` as a test.
abbrev pub any_set : ℕ → ℕ → Bool
any_set features mask = not (bit_and features mask == 0)

-- The first function there is, with its name.
abbrev pub first_of :
    {F : Type 0} → Option F → ImplName → Option F → ImplName → Option (F × ImplName)
first_of (some f) a g b = some (f, a)
first_of none a (some g) b = some (g, b)
first_of none a none b = none

-- One function or nothing.
abbrev pub only : {F : Type 0} → Option F → ImplName → Option (F × ImplName)
only (some f) a = some (f, a)
only none a = none

-- What was picked, or what comes next.
abbrev pub pick_or : {F : Type 0} → Option (F × ImplName) → F × ImplName → F × ImplName
pick_or (some p) q = p
pick_or none q = q

-- `fallback` is `blake4_compress_portable`; `detected` is what the detection returns; `built` are
-- the functions that the `blake4_init_*` functions of the build register.
module _ {F : Type 0} (fallback : F) (arch : Arch) (detected : ℕ) (built : Registry F) where
  abbrev pub start_state : Dispatch F
  start_state = record {
    features_detected = false;
    cpu_features = 0;
    impl_selected = false;
    compress_fn = none;
    impl_name = uninitialized;
    simd_initialized = false;
    registry = record {
      avx2 = none;
      avx2_asm = none;
      avx512 = none;
      avx512_asm = none;
      neon = none;
      neon_asm = none;
    };
  }

  unfoldable pub get_cpu_features : Dispatch F → ℕ × Dispatch F
  get_cpu_features d =
      if d.features_detected
      then (d.cpu_features, d)
      else (detected, record d { cpu_features = detected; features_detected = true })

  abbrev pub register_built : Arch → Registry F → Registry F
  register_built x86_64 r = record r {
    avx512 = built.avx512;
    avx512_asm = built.avx512_asm;
    avx2 = built.avx2;
    avx2_asm = built.avx2_asm;
  }
  register_built arm64 r = record r { neon = built.neon; neon_asm = built.neon_asm }
  register_built other_arch r = r

  unfoldable pub init_simd_implementations : Dispatch F → Dispatch F
  init_simd_implementations d =
      if d.simd_initialized
      then d
      else record d { registry = register_built arch d.registry; simd_initialized = true }

  -- The implementation that the features and the registry lead to.
  unfoldable pub best : ℕ → Registry F → F × ImplName
  best features r =
      let avx512_pick : Option (F × ImplName) =
        if all_set features 24
        then first_of r.avx512_asm avx512_asm_name r.avx512 avx512_name
        else none in
      let avx2_pick : Option (F × ImplName) =
        if any_set features cpu_avx2
        then first_of r.avx2_asm avx2_asm_name r.avx2 avx2_name
        else none in
      let neon_pick : Option (F × ImplName) =
        if any_set features cpu_neon
        then first_of r.neon_asm neon_asm_name r.neon neon_name
        else none in
      pick_or avx512_pick (pick_or avx2_pick (pick_or neon_pick (fallback, portable_c)))

  unfoldable pub use_impl : Dispatch F → F × ImplName → Dispatch F
  use_impl d p = record d { compress_fn = some p.0; impl_name = p.1; impl_selected = true }

  unfoldable pub select_implementation : Dispatch F → Dispatch F
  select_implementation d =
      let (features, d') = get_cpu_features (init_simd_implementations d) in
      let selected = use_impl d' (best features d'.registry) in
      if d.impl_selected then d else selected

  unfoldable pub dispatch_get_compress : Dispatch F → Option F × Dispatch F
  dispatch_get_compress d = let d' = select_implementation d in (d'.compress_fn, d')

  unfoldable pub dispatch_impl_name : Dispatch F → ImplName × Dispatch F
  dispatch_impl_name d = let d' = select_implementation d in (d'.impl_name, d')

  -- What a request other than `select_auto` finds; `none` is the return of 0.
  unfoldable pub forced : ImplSelect → ℕ → Registry F → Option (F × ImplName)
  forced select_auto features r = none
  forced select_portable features r = some (fallback, portable_forced)
  forced select_avx2 features r =
      if any_set features cpu_avx2
      then first_of r.avx2 avx2_forced r.avx2_asm avx2_asm_forced
      else none
  forced select_avx2_asm features r =
      if any_set features cpu_avx2 then only r.avx2_asm avx2_asm_forced else none
  forced select_avx512 features r =
      if any_set features cpu_avx512f && any_set features cpu_avx512vl
      then first_of r.avx512 avx512_forced r.avx512_asm avx512_asm_forced
      else none
  forced select_avx512_asm features r =
      if any_set features cpu_avx512f && any_set features cpu_avx512vl
      then only r.avx512_asm avx512_asm_forced
      else none
  forced select_neon features r =
      if any_set features cpu_neon
      then first_of r.neon neon_forced r.neon_asm neon_asm_forced
      else none
  forced select_neon_asm features r =
      if any_set features cpu_neon then only r.neon_asm neon_asm_forced else none

  abbrev pub force_with : Dispatch F → Option (F × ImplName) → ℕ × Dispatch F
  force_with d none = (0, d)
  force_with d (some p) = (1, use_impl d p)

  unfoldable pub dispatch_set_impl : ImplSelect → Dispatch F → ℕ × Dispatch F
  dispatch_set_impl select_auto d =
      let (features, d') = get_cpu_features d in
      (1, select_implementation (record d' { impl_selected = false }))
  dispatch_set_impl impl d =
      let (features, d') = get_cpu_features d in force_with d' (forced impl features d'.registry)

  unfoldable pub dispatch_has_feature : CpuFeature → Dispatch F → Bool × Dispatch F
  dispatch_has_feature feature d =
      let (features, d') = get_cpu_features d in
      (
        elim feature [
          | feature_sse41 ↦ any_set features cpu_sse41
          | feature_avx ↦ any_set features cpu_avx
          | feature_avx2 ↦ any_set features cpu_avx2
          | feature_avx512f ↦ any_set features cpu_avx512f
          | feature_avx512vl ↦ any_set features cpu_avx512vl
          | feature_neon ↦ any_set features cpu_neon
          | feature_other ↦ false
        ],
        d',
      )
