-- ===== src/Dispatch/Trusted/Kept.antt =====
-- Every operation keeps the state that may be trusted.
use blake.Base.{if-cases}
use blake.Base.{ℕ, refl, sym, subst, true, false, ◌&&◌, Option, none, some}
use blake.Dispatch.{
  Registry, Dispatch, Arch, ImplName, avx512_asm_name, avx512_name, avx2_asm_name, avx2_name,
  neon_asm_name, neon_name, avx2_forced, avx2_asm_forced, avx512_forced, avx512_asm_forced,
  neon_forced, neon_asm_forced, ImplSelect, select_auto, select_portable, select_avx2,
  select_avx2_asm, select_avx512, select_avx512_asm, select_neon, select_neon_asm, any_set,
  first_of, only, get_cpu_features, register_built, init_simd_implementations, best, use_impl,
  select_implementation, forced, force_with, dispatch_set_impl,
}
use blake.Dispatch.Features.{all_set}
use blake.Dispatch.Trusted.{
  SafePick, Guarded, Trusted, first_of-Safe, only-Safe, under_test, pick_or-Runs,
  get_cpu_features-detected, get_cpu_features-Trusted, register_built-Guarded,
}
use blake.Dispatch.Trusted.Masks.{both_bits}

module _ {F : Type 0} (Runs : F → Type 0) (fallback : F) (arch : Arch) (detected : ℕ)
    (built : Registry F) where
  module _ (runs : Runs fallback) (b : Guarded Runs detected built) where
    pub init_simd-Trusted :
        (d : Dispatch F)
        → Trusted Runs fallback arch detected built d
        → Trusted Runs fallback arch detected built
            (init_simd_implementations fallback arch detected built d)
    unfolding init_simd_implementations
    init_simd-Trusted d t =
        let d' : Dispatch F = record d {
          registry = register_built fallback arch detected built arch d.registry;
          simd_initialized = true;
        } in
        if-cases (Trusted Runs fallback arch detected built) d.simd_initialized d d' (λ _. t)
          (λ _. record {
            cached = t.cached;
            guarded =
                register_built-Guarded Runs fallback arch detected built arch d.registry b
                  t.guarded;
            chosen = t.chosen;
          })

    use_impl-Trusted :
        (d : Dispatch F) (p : F × ImplName)
        → Trusted Runs fallback arch detected built d
        → Runs p.0
        → Trusted Runs fallback arch detected built (use_impl fallback arch detected built d p)
    unfolding use_impl
    use_impl-Trusted d p t r = record {
      cached = t.cached;
      guarded = t.guarded;
      chosen = λ _. (p.0, refl, r);
    }

    best-Runs :
        (r : Registry F)
        → Guarded Runs detected r
        → Runs (best fallback arch detected built detected r).0
    unfolding best
    best-Runs r g =
        pick_or-Runs Runs _ _
          (under_test Runs (all_set detected 24)
            (first_of r.avx512_asm avx512_asm_name r.avx512 avx512_name)
            (λ e.
              first_of-Safe Runs r.avx512_asm r.avx512 avx512_asm_name avx512_name (g.avx512_asm e)
                (g.avx512 e)))
          (pick_or-Runs Runs _ _
            (under_test Runs (any_set detected 4)
              (first_of r.avx2_asm avx2_asm_name r.avx2 avx2_name)
              (λ e.
                first_of-Safe Runs r.avx2_asm r.avx2 avx2_asm_name avx2_name (g.avx2_asm e)
                  (g.avx2 e)))
            (pick_or-Runs Runs _ _
              (under_test Runs (any_set detected 32)
                (first_of r.neon_asm neon_asm_name r.neon neon_name)
                (λ e.
                  first_of-Safe Runs r.neon_asm r.neon neon_asm_name neon_name (g.neon_asm e)
                    (g.neon e)))
              runs))

    forced-SafePick :
        (impl : ImplSelect) (r : Registry F)
        → Guarded Runs detected r
        → SafePick Runs (forced fallback arch detected built impl detected r)
    unfolding forced
    forced-SafePick select_auto r g = tt
    forced-SafePick select_portable r g = runs
    forced-SafePick select_avx2 r g =
        under_test Runs (any_set detected 4)
          (first_of r.avx2 avx2_forced r.avx2_asm avx2_asm_forced)
          (λ e.
            first_of-Safe Runs r.avx2 r.avx2_asm avx2_forced avx2_asm_forced (g.avx2 e)
              (g.avx2_asm e))
    forced-SafePick select_avx2_asm r g =
        under_test Runs (any_set detected 4) (only r.avx2_asm avx2_asm_forced)
          (λ e. only-Safe Runs r.avx2_asm avx2_asm_forced (g.avx2_asm e))
    forced-SafePick select_avx512 r g =
        under_test Runs (any_set detected 8 && any_set detected 16)
          (first_of r.avx512 avx512_forced r.avx512_asm avx512_asm_forced)
          (λ e.
            first_of-Safe Runs r.avx512 r.avx512_asm avx512_forced avx512_asm_forced
              (g.avx512 (both_bits detected e)) (g.avx512_asm (both_bits detected e)))
    forced-SafePick select_avx512_asm r g =
        under_test Runs (any_set detected 8 && any_set detected 16)
          (only r.avx512_asm avx512_asm_forced)
          (λ e. only-Safe Runs r.avx512_asm avx512_asm_forced (g.avx512_asm (both_bits detected e)))
    forced-SafePick select_neon r g =
        under_test Runs (any_set detected 32)
          (first_of r.neon neon_forced r.neon_asm neon_asm_forced)
          (λ e.
            first_of-Safe Runs r.neon r.neon_asm neon_forced neon_asm_forced (g.neon e)
              (g.neon_asm e))
    forced-SafePick select_neon_asm r g =
        under_test Runs (any_set detected 32) (only r.neon_asm neon_asm_forced)
          (λ e. only-Safe Runs r.neon_asm neon_asm_forced (g.neon_asm e))

    pub select-Trusted :
        (d : Dispatch F)
        → Trusted Runs fallback arch detected built d
        → Trusted Runs fallback arch detected built
            (select_implementation fallback arch detected built d)
    unfolding select_implementation
    select-Trusted d t =
        let ready = init_simd_implementations fallback arch detected built d in
        let t1 = init_simd-Trusted d t in
        let got = get_cpu_features fallback arch detected built ready in
        let t2 = get_cpu_features-Trusted Runs fallback arch detected built ready t1 in
        let chosen_runs =
          subst (λ n. Runs (best fallback arch detected built n got.1.registry).0)
            (sym (get_cpu_features-detected Runs fallback arch detected built ready t1))
            (best-Runs got.1.registry t2.guarded) in
        if-cases (Trusted Runs fallback arch detected built) d.impl_selected d
          (use_impl fallback arch detected built got.1
            (best fallback arch detected built got.0 got.1.registry))
          (λ _. t)
          (λ _.
            use_impl-Trusted got.1 (best fallback arch detected built got.0 got.1.registry) t2
              chosen_runs)

    force_with-Trusted :
        (d : Dispatch F) (p : Option (F × ImplName))
        → Trusted Runs fallback arch detected built d
        → SafePick Runs p
        → Trusted Runs fallback arch detected built (force_with fallback arch detected built d p).1
    force_with-Trusted d none t h = t
    force_with-Trusted d (some p) t h = use_impl-Trusted d p t h

    forced_request-Trusted :
        (impl : ImplSelect) (d : Dispatch F)
        → Trusted Runs fallback arch detected built d
        → (let got = get_cpu_features fallback arch detected built d in
            Trusted Runs fallback arch detected built
              (force_with fallback arch detected built got.1
                (forced fallback arch detected built impl got.0 got.1.registry)).1)
    forced_request-Trusted impl d t =
        let got = get_cpu_features fallback arch detected built d in
        let t1 = get_cpu_features-Trusted Runs fallback arch detected built d t in
        force_with-Trusted got.1 (forced fallback arch detected built impl got.0 got.1.registry) t1
          (subst (λ n. SafePick Runs (forced fallback arch detected built impl n got.1.registry))
            (sym (get_cpu_features-detected Runs fallback arch detected built d t))
            (forced-SafePick impl got.1.registry t1.guarded))

    pub set_impl-Trusted :
        (impl : ImplSelect) (d : Dispatch F)
        → Trusted Runs fallback arch detected built d
        → Trusted Runs fallback arch detected built
            (dispatch_set_impl fallback arch detected built impl d).1
    unfolding dispatch_set_impl
    set_impl-Trusted select_auto d t =
        let got = (get_cpu_features fallback arch detected built d).1 in
        let t1 = get_cpu_features-Trusted Runs fallback arch detected built d t in
        select-Trusted (record got { impl_selected = false })
          (record { cached = t1.cached; guarded = t1.guarded; chosen = λ e. absurd (cc) })
    set_impl-Trusted select_portable d t = forced_request-Trusted select_portable d t
    set_impl-Trusted select_avx2 d t = forced_request-Trusted select_avx2 d t
    set_impl-Trusted select_avx2_asm d t = forced_request-Trusted select_avx2_asm d t
    set_impl-Trusted select_avx512 d t = forced_request-Trusted select_avx512 d t
    set_impl-Trusted select_avx512_asm d t = forced_request-Trusted select_avx512_asm d t
    set_impl-Trusted select_neon d t = forced_request-Trusted select_neon d t
    set_impl-Trusted select_neon_asm d t = forced_request-Trusted select_neon_asm d t
