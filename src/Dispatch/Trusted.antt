-- ===== src/Dispatch/Trusted.antt =====
-- The state of the dispatcher between calls: whatever is selected may run on this processor.
pub mod Masks
pub mod Kept
pub mod Requests
use blake.Bits.Digit.{bit_and_digit}
use blake.Base.{if-cases}
use blake.Base.{
  ℕ, zero, suc, ◌+◌, ◌*◌, ◌%◌, min, ◌/◌, ◌<◌, ◌≤◌, bit_and, eq→==, ◌≡◌, refl, sym, ap, ◌∙◌, subst,
  arith, Bool, true, false, ◌&&◌, Option, none, some,
}
use blake.Base.{List, [], ◌∷◌, if◌then◌else◌, Bool-cases, inl, inr, some_inj}
use blake.Dispatch.{
  Registry, Dispatch, Arch, x86_64, arm64, other_arch, ImplName, avx512_asm_name, avx512_name,
  avx2_asm_name, avx2_name, neon_asm_name, neon_name, avx2_forced, avx2_asm_forced, avx512_forced,
  avx512_asm_forced, neon_forced, neon_asm_forced, pick_or, ImplSelect, select_auto,
  select_portable, select_avx2, select_avx2_asm, select_avx512, select_avx512_asm, select_neon,
  select_neon_asm, any_set, first_of, only, start_state, get_cpu_features, register_built,
  init_simd_implementations, best, use_impl, select_implementation, dispatch_get_compress, forced,
  force_with, dispatch_set_impl,
}
use blake.Dispatch.Features.{cpu_avx2, cpu_avx512f, cpu_avx512vl, cpu_neon, all_set}

module _ {F : Type 0} (Runs : F → Type 0) where
  -- A function that may be there may run.
  abbrev pub Safe : Option F → Type 0
  Safe none = Unit {0}
  Safe (some f) = Runs f

  -- What was picked, if anything was, may run.
  abbrev pub SafePick : Option (F × ImplName) → Type 0
  SafePick none = Unit {0}
  SafePick (some p) = Runs p.0

  -- Each function of the registry may run where the features it needs are.
  pub record Guarded (detected : ℕ) (r : Registry F) : Type 0 where
    pub avx2 : any_set detected cpu_avx2 ≡ true → Safe r.avx2
    pub avx2_asm : any_set detected cpu_avx2 ≡ true → Safe r.avx2_asm
    pub avx512 : all_set detected 24 ≡ true → Safe r.avx512
    pub avx512_asm : all_set detected 24 ≡ true → Safe r.avx512_asm
    pub neon : any_set detected cpu_neon ≡ true → Safe r.neon
    pub neon_asm : any_set detected cpu_neon ≡ true → Safe r.neon_asm

  pub first_of-Safe :
      (f g : Option F) (a b : ImplName) → Safe f → Safe g → SafePick (first_of f a g b)
  first_of-Safe (some f) g a b p q = p
  first_of-Safe none (some g) a b p q = q
  first_of-Safe none none a b p q = tt

  pub only-Safe : (f : Option F) (a : ImplName) → Safe f → SafePick (only f a)
  only-Safe (some f) a p = p
  only-Safe none a p = tt

  pub pick_or-Runs :
      (p : Option (F × ImplName)) (q : F × ImplName) → SafePick p → Runs q.0 → Runs (pick_or p q).0
  pick_or-Runs (some p) q h k = h
  pick_or-Runs none q h k = k

  -- A pick under a test is safe if it is where the test holds.
  pub under_test :
      (t : Bool) (p : Option (F × ImplName))
      → (t ≡ true → SafePick p)
      → SafePick (if t then p else none)
  under_test true p h = h refl
  under_test false p h = tt

  module _ (fallback : F) (arch : Arch) (detected : ℕ) (built : Registry F) where
    -- The state between calls: the features are those detected, the registry is guarded by them,
    -- and a function that is selected may run.
    pub record Trusted (d : Dispatch F) : Type 0 where
      pub cached : d.features_detected ≡ true → d.cpu_features ≡ detected
      pub guarded : Guarded detected d.registry
      pub chosen : d.impl_selected ≡ true → (f : F) × (d.compress_fn ≡ some f) × Runs f

    pub get_cpu_features-detected :
        (d : Dispatch F)
        → Trusted d
        → (get_cpu_features fallback arch detected built d).0 ≡ detected
    unfolding get_cpu_features
    get_cpu_features-detected d t = elim (Bool-cases d.features_detected) [
      | inl e ↦ rw (e) (t.cached e)
      | inr e ↦ rw (e)
    ]

    pub get_cpu_features-Trusted :
        (d : Dispatch F) → Trusted d → Trusted (get_cpu_features fallback arch detected built d).1
    unfolding get_cpu_features
    get_cpu_features-Trusted d t =
        if-cases (λ (r : ℕ × Dispatch F). Trusted r.1) d.features_detected (d.cpu_features, d)
          (detected, record d { cpu_features = detected; features_detected = true }) (λ _. t)
          (λ _. record { cached = λ _. refl; guarded = t.guarded; chosen = t.chosen })

    pub register_built-Guarded :
        (a : Arch) (r : Registry F)
        → Guarded detected built
        → Guarded detected r
        → Guarded detected (register_built fallback arch detected built a r)
    register_built-Guarded x86_64 r b g = record {
      avx2 = b.avx2;
      avx2_asm = b.avx2_asm;
      avx512 = b.avx512;
      avx512_asm = b.avx512_asm;
      neon = g.neon;
      neon_asm = g.neon_asm;
    }
    register_built-Guarded arm64 r b g = record {
      avx2 = g.avx2;
      avx2_asm = g.avx2_asm;
      avx512 = g.avx512;
      avx512_asm = g.avx512_asm;
      neon = b.neon;
      neon_asm = b.neon_asm;
    }
    register_built-Guarded other_arch r b g = g
