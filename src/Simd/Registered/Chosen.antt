-- ===== src/Simd/Registered/Chosen.antt =====
-- What the dispatcher calls in a program that is built with every back end: its first choice, and
-- what its result can be after any calls.
use blake.Base.{ℕ, ◌≡◌, refl, ap, List, length, Option, none, some, ◌>>=◌}
use blake.Compress.{compress_portable}
use blake.Dispatch.{
  Arch, x86_64, arm64, other_arch, start_state, dispatch_get_compress, select_implementation,
  Dispatch,
}
use blake.Base.{[], true, if◌then◌else◌, ◌⊎◌, inl, inr, ◌∙◌}
use blake.Base.{Bool, false}
use blake.Dispatch.{pick_or, avx512_asm_name, avx2_asm_name, neon_asm_name, portable_c}
use blake.Dispatch.{init_simd_implementations, get_cpu_features, use_impl, best, any_set}
use blake.Dispatch.Features.{cpu_avx2, cpu_neon, all_set}
use blake.Dispatch.Trusted.{Guarded}
use blake.Dispatch.Trusted.Requests.{Request, answer_all, get_compress-Runs}
use blake.Simd.Words.{IsPortable}
use blake.Simd.Avx2.Portable.{compress_avx2_impl-portable}
use blake.Simd.Avx512.Portable.{compress_avx512_impl-portable}
use blake.Simd.Neon.Portable.{compress_neon_impl-portable}
use blake.Simd.Registered.{CompressFn, Machine, IsSound, dispatch_compress, init_all, built_for}
use blake.Dispatch.{ImplName}

no_pick : (b : Bool) → ◌≡◌ {A = Option (CompressFn × ImplName)} (if b then none else none) none
no_pick true = refl
no_pick false = refl

module _ (t : Machine) where
  -- An assembly function, on a processor with the features that it is for.
  abbrev pub Assembly : ℕ → CompressFn → Type 0
  Assembly detected f =
      ((all_set detected 24 ≡ true) × (f ≡ t.compress_avx512_asm))
      ⊎ (((any_set detected cpu_avx2 ≡ true) × (f ≡ t.compress_avx2_asm))
          ⊎ ((any_set detected cpu_neon ≡ true) × (f ≡ t.compress_neon_asm)))

  -- What may be called: the compression function, or an assembly function.
  abbrev pub Callable : ℕ → CompressFn → Type 0
  Callable detected f = IsPortable f ⊎ Assembly detected f

  -- The function that the first call is to use: the assembly for the widest vectors there are.
  abbrev pub first_choice : Arch → ℕ → CompressFn
  first_choice x86_64 detected =
      if all_set detected 24
      then t.compress_avx512_asm
      else if any_set detected cpu_avx2
      then t.compress_avx2_asm
      else compress_portable
  first_choice arm64 detected =
      if any_set detected cpu_neon then t.compress_neon_asm else compress_portable
  first_choice other_arch detected = compress_portable

  -- The state after calls from the start of the program.
  abbrev pub state_after : Arch → ℕ → List Request → Dispatch CompressFn
  state_after arch detected rs =
      answer_all compress_portable arch detected (built_for t arch) rs
        (start_state compress_portable arch detected (built_for t arch))

  get_compress-first :
      (arch : Arch) (detected : ℕ)
      → (dispatch_get_compress compress_portable arch detected
          (built_for t arch)
          (start_state compress_portable arch detected (built_for t arch))).0
        ≡ some (first_choice arch detected)
  unfolding dispatch_get_compress select_implementation init_simd_implementations get_cpu_features
      use_impl best init_all
  get_compress-first x86_64 detected =
      by_tests (all_set detected 24) (any_set detected cpu_avx2) (any_set detected cpu_neon)
    where
      by_tests :
          (wide avx2 neon : Bool)
          → some
              (pick_or (if wide then some (t.compress_avx512_asm, avx512_asm_name) else none) (
                pick_or
                  (if avx2 then some (t.compress_avx2_asm, avx2_asm_name) else none)
                  (pick_or (if neon then none else none) (compress_portable, portable_c)))).0
            ≡ some (
                if wide
                then t.compress_avx512_asm
                else if avx2
                then t.compress_avx2_asm
                else compress_portable)
      by_tests true avx2 neon = refl
      by_tests false true neon = refl
      by_tests false false neon = rw (no_pick neon) refl
  get_compress-first arm64 detected =
      rw (no_pick (all_set detected 24), no_pick (any_set detected cpu_avx2))
        (by_test (any_set detected cpu_neon))
    where
      by_test :
          (neon : Bool)
          → some
              (pick_or
                (if neon then some (t.compress_neon_asm, neon_asm_name) else none)
                (compress_portable, portable_c)).0
            ≡ some (if neon then t.compress_neon_asm else compress_portable)
      by_test true = refl
      by_test false = refl
  get_compress-first other_arch detected =
      rw
        (
          no_pick (all_set detected 24),
          no_pick (any_set detected cpu_avx2),
          no_pick (any_set detected cpu_neon),
        )
        refl

  module _ (sound : IsSound t) where
    built_for-Guarded :
        (arch : Arch) (detected : ℕ) → Guarded (Callable detected) detected (built_for t arch)
    unfolding init_all
    built_for-Guarded x86_64 detected = record {
      avx2 = λ _. inl (compress_avx2_impl-portable t.avx);
      avx2_asm = λ e. inr (inr (inl (e, refl)));
      avx512 = λ _. inl (compress_avx512_impl-portable t.avx t.ror_epi64 sound.lanes-ror_epi64);
      avx512_asm = λ e. inr (inl (e, refl));
      neon = λ _. tt;
      neon_asm = λ _. tt;
    }
    built_for-Guarded arm64 detected = record {
      avx2 = λ _. tt;
      avx2_asm = λ _. tt;
      avx512 = λ _. tt;
      avx512_asm = λ _. tt;
      neon = λ _. inl (compress_neon_impl-portable t.neon);
      neon_asm = λ e. inr (inr (inr (e, refl)));
    }
    built_for-Guarded other_arch detected = record {
      avx2 = λ _. tt;
      avx2_asm = λ _. tt;
      avx512 = λ _. tt;
      avx512_asm = λ _. tt;
      neon = λ _. tt;
      neon_asm = λ _. tt;
    }

    get_compress-Callable :
        (arch : Arch) (detected : ℕ) (rs : List Request)
        → (f : CompressFn) × ((dispatch_get_compress compress_portable arch detected
              (built_for t arch)
              (state_after arch detected rs)).0
            ≡ some f)
          × Callable detected f
    get_compress-Callable arch detected rs =
        get_compress-Runs compress_portable arch detected (built_for t arch) (Callable detected)
          (inl (λ cv block n k f h. refl)) (built_for-Guarded arch detected) rs

    call : Option CompressFn → List ℕ → List ℕ → ℕ → ℕ → ℕ → Option (List ℕ)
    call fn cv block n k f = fn >>= λ g. some (g cv block n k f)

    -- In a program built with every back end, on every architecture and for every set of features:
    -- the first call of blake4_dispatch_compress is a call of the assembly function for the widest
    -- vectors that the processor has, or of the portable function. After any sequence of calls of
    -- the dispatcher it returns, for a chaining value of eight words, what the portable function
    -- returns, or what an assembly function returns whose features the processor has. The rotation
    -- of the vector unit is as documented (IsSound); nothing is assumed of the assembly functions.
    pub dispatch_compress_lem :
        (arch : Arch) (detected : ℕ) (rs : List Request) (cv block : List ℕ)
        (block_len counter flags : ℕ)
        → length cv ≡ 8
        → ((dispatch_compress arch detected
              (built_for t arch)
              (state_after arch detected [])
              cv
              block
              block_len
              counter
              flags).0
            ≡ some (first_choice arch detected cv block block_len counter flags))
          × (((dispatch_compress arch detected
                  (built_for t arch)
                  (state_after arch detected rs)
                  cv
                  block
                  block_len
                  counter
                  flags).0
                ≡ some (compress_portable cv block block_len counter flags))
              ⊎ ((g : CompressFn) × Assembly detected g
                  × ((dispatch_compress arch detected
                        (built_for t arch)
                        (state_after arch detected rs)
                        cv
                        block
                        block_len
                        counter
                        flags).0
                      ≡ some (g cv block block_len counter flags))))
    unfolding dispatch_compress dispatch_get_compress call answer_all
    dispatch_compress_lem arch detected rs cv block n k f h =
        let (fn, found, allowed) = get_compress-Callable arch detected rs in
        let result = ap (λ o. call o cv block n k f) found in
        (
          ap (λ o. call o cv block n k f) (get_compress-first arch detected),
          elim allowed [
            | inl same ↦ inl (result ∙ ap some (same cv block n k f h))
            | inr assembly ↦ inr (fn, assembly, result)
          ],
        )
