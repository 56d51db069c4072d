-- ===== src/Dispatch/Trusted/Requests.antt =====
-- The dispatcher under any sequence of requests, from the start of the program.
use blake.Base.{if-cases}
use blake.Base.{ℕ, ◌≡◌, refl, true, some}
use blake.Base.{List, [], ◌∷◌}
use blake.Dispatch.{
  Registry, Dispatch, Arch, x86_64, ImplSelect, select_avx2, any_set, start_state, get_cpu_features,
  init_simd_implementations, best, use_impl, select_implementation, dispatch_get_compress, forced,
  dispatch_set_impl,
}
use blake.Dispatch.Features.{cpu_avx2}
use blake.Dispatch.{CpuFeature, dispatch_impl_name, dispatch_has_feature}
use blake.Dispatch.Trusted.{Guarded, Trusted, get_cpu_features-Trusted}
use blake.Dispatch.Trusted.Kept.{select-Trusted, set_impl-Trusted}

-- The calls of include/blake4_dispatch.h.
pub data Request : Type 0 where
  get_compress_request impl_name_request cpu_features_request : Request
  set_impl_request : ImplSelect → Request
  has_feature_request : CpuFeature → Request

select-selected :
    {F : Type 0} (fallback : F) (arch : Arch) (detected : ℕ) (built : Registry F) (d : Dispatch F)
    → (select_implementation fallback arch detected built d).impl_selected ≡ true
unfolding select_implementation use_impl
select-selected {F} fallback arch detected built d =
    let (features, d') =
      get_cpu_features fallback arch detected built
        (init_simd_implementations fallback arch detected built d) in
    if-cases (λ (x : Dispatch F). x.impl_selected ≡ true) d.impl_selected d
      (use_impl fallback arch detected built d'
        (best fallback arch detected built features d'.registry))
      (λ e. e) (λ _. refl)

module _ {F : Type 0} (fallback : F) (arch : Arch) (detected : ℕ) (built : Registry F) where
  -- The state after a request, and after several.
  unfoldable pub answer : Request → Dispatch F → Dispatch F
  answer get_compress_request d = (dispatch_get_compress fallback arch detected built d).1
  answer impl_name_request d = (dispatch_impl_name fallback arch detected built d).1
  answer cpu_features_request d = (get_cpu_features fallback arch detected built d).1
  answer (set_impl_request impl) d = (dispatch_set_impl fallback arch detected built impl d).1
  answer (has_feature_request feature) d =
      (dispatch_has_feature fallback arch detected built feature d).1

  unfoldable pub answer_all : List Request → Dispatch F → Dispatch F
  answer_all [] d = d
  answer_all (r ∷ rs) d = answer_all rs (answer r d)

  module _ (Runs : F → Type 0) (runs : Runs fallback) (b : Guarded Runs detected built) where
    answer-Trusted :
        (r : Request) (d : Dispatch F)
        → Trusted Runs fallback arch detected built d
        → Trusted Runs fallback arch detected built (answer r d)
    unfolding answer dispatch_get_compress dispatch_impl_name dispatch_has_feature
    answer-Trusted get_compress_request d t =
        select-Trusted Runs fallback arch detected built runs b d t
    answer-Trusted impl_name_request d t =
        select-Trusted Runs fallback arch detected built runs b d t
    answer-Trusted cpu_features_request d t =
        get_cpu_features-Trusted Runs fallback arch detected built d t
    answer-Trusted (set_impl_request impl) d t =
        set_impl-Trusted Runs fallback arch detected built runs b impl d t
    answer-Trusted (has_feature_request feature) d t =
        get_cpu_features-Trusted Runs fallback arch detected built d t

    answer_all-Trusted :
        (rs : List Request) (d : Dispatch F)
        → Trusted Runs fallback arch detected built d
        → Trusted Runs fallback arch detected built (answer_all rs d)
    unfolding answer_all
    answer_all-Trusted [] d t = t
    answer_all-Trusted (r ∷ rs) d t = answer_all-Trusted rs (answer r d) (answer-Trusted r d t)

    start-Trusted :
        Trusted Runs fallback arch detected built (start_state fallback arch detected built)
    start-Trusted = record {
      cached = λ e. absurd (cc);
      guarded = record {
        avx2 = λ _. tt;
        avx2_asm = λ _. tt;
        avx512 = λ _. tt;
        avx512_asm = λ _. tt;
        neon = λ _. tt;
        neon_asm = λ _. tt;
      };
      chosen = λ e. absurd (cc);
    }

    -- After any sequence of calls of the dispatcher from the start of the program there is a
    -- compression function to call, and it may run on this processor. The portable function may
    -- run, and each registered function may where the features it is guarded by are detected.
    pub get_compress-Runs :
        (rs : List Request)
        → (f : F) × ((dispatch_get_compress fallback arch detected built
              (answer_all rs (start_state fallback arch detected built))).0
            ≡ some f)
          × Runs f
    unfolding dispatch_get_compress
    get_compress-Runs rs =
        let d = answer_all rs (start_state fallback arch detected built) in
        let t = answer_all-Trusted rs (start_state fallback arch detected built) start-Trusted in
        (select-Trusted Runs fallback arch detected built runs b d t).chosen
          (select-selected fallback arch detected built d)

  -- On an x86-64 build with an AVX2 function and a processor with AVX2, forcing AVX2 before any
  -- other call returns 0, and after a first use of the dispatcher the same request returns 1.
  pub set_impl-too_early :
      (f : F)
      → arch ≡ x86_64
      → any_set detected cpu_avx2 ≡ true
      → built.avx2 ≡ some f
      → (let d = start_state fallback arch detected built in
          let used = (dispatch_get_compress fallback arch detected built d).1 in
          ((dispatch_set_impl fallback arch detected built select_avx2 d).0 ≡ 0)
          × ((dispatch_set_impl fallback arch detected built select_avx2 used).0 ≡ 1))
  unfolding dispatch_set_impl dispatch_get_compress select_implementation init_simd_implementations
      get_cpu_features forced use_impl
  set_impl-too_early f a e r = rw (a, e, r) (refl, refl)
