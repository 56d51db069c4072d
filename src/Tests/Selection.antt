-- ===== src/Tests/Selection.antt =====
-- Concrete inputs at which the theorems on the dispatcher apply.
use blake.Base.{ℕ, ◌<◌, ◌≡◌, refl, arith, [], ◌∷◌, none, some}
use blake.Dispatch.{
  Registry, x86_64, select_portable, select_avx2, start_state, dispatch_get_compress,
  dispatch_set_impl,
}
use blake.Dispatch.Trusted.{Guarded}
use blake.Dispatch.Trusted.Requests.{
  get_compress_request, set_impl_request, answer_all, get_compress-Runs, set_impl-too_early,
}

-- Functions are numbers here, those below 3 may run; the processor has AVX2 alone.
abbrev built : Registry ℕ
built = record {
  avx2 = some 1;
  avx2_asm = some 2;
  avx512 = some 3;
  avx512_asm = none;
  neon = none;
  neon_asm = none;
}

abbrev May : ℕ → Type 0
May f = f < 3

built-Guarded : Guarded May 4 built
built-Guarded = record {
  avx2 = λ _. omega arith;
  avx2_asm = λ _. omega arith;
  avx512 = λ e. absurd (cc);
  avx512_asm = λ _. tt;
  neon = λ _. tt;
  neon_asm = λ _. tt;
}

get_compress-Runs_example :
    (f : ℕ) × ((dispatch_get_compress 0 x86_64 4 built (
        answer_all 0 x86_64 4 built
          (set_impl_request select_avx2
            ∷ get_compress_request
            ∷ set_impl_request select_portable
            ∷ [])
          (start_state 0 x86_64 4 built))).0
      ≡ some f)
    × May f
get_compress-Runs_example =
    get_compress-Runs 0 x86_64 4 built May (omega arith) built-Guarded
      (set_impl_request select_avx2 ∷ get_compress_request ∷ set_impl_request select_portable ∷ [])

set_impl-too_early_example :
    (let d = start_state 0 x86_64 4 built in
      let used = (dispatch_get_compress 0 x86_64 4 built d).1 in
      ((dispatch_set_impl 0 x86_64 4 built select_avx2 d).0 ≡ 0)
      × ((dispatch_set_impl 0 x86_64 4 built select_avx2 used).0 ≡ 1))
set_impl-too_early_example = set_impl-too_early 0 x86_64 4 built 1 refl refl refl
