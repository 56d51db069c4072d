-- ===== src/Stream/Paths/Steps.antt =====
-- One step of the check of a path in src/blake4_stream.c goes from a node to the node above.
use blake.Base.{
  ℕ, zero, suc, ◌+◌, ◌-◌, ◌*◌, ◌/◌, ◌%◌, ◌≤◌, ◌<◌, ◌≡◌, refl, sym, ap, ap₂, ◌∙◌, arith,
}
use blake.Base.{List, [], ◌∷◌, length, get_or, ltb, ◌==◌, if◌then◌else◌}
use blake.Base.{
  true, false, Bool-cases, inl, inr, ==→eq, not_==→ne, ltb→lt, not_ltb→le, eq→==, ne→not_==,
}
use blake.Word.{shr}
use blake.Merkle.{pair_up}
use blake.Stream.{hash_parent, all_zero, no_sibling, path_step}

-- No entry of a level is all zeros.
abbrev pub AllNonzero : List (List ℕ) → Type 0
AllNonzero [] = Unit {0}
AllNonzero (x ∷ level) = (all_zero x ≡ false) × AllNonzero level

module _ (hash : List ℕ → List ℕ) where
  -- A property of a level and of `n` levels above it.
  abbrev pub EachLevel : (List (List ℕ) → Type 0) → ℕ → List (List ℕ) → Type 0
  EachLevel P zero level = P level
  EachLevel P (suc n) level = P level × EachLevel P n (pair_up (hash_parent hash) level)

  pub EachLevel-first :
      (P : List (List ℕ) → Type 0) (n : ℕ) (level : List (List ℕ)) → EachLevel P n level → P level
  EachLevel-first P zero level h = h
  EachLevel-first P (suc n) level h = h.0

  pub AllNonzero-get :
      (level : List (List ℕ)) (i : ℕ)
      → AllNonzero level
      → i < length level
      → all_zero (get_or level i no_sibling) ≡ false
  AllNonzero-get [] i h lt = absurd (omega arith)
  AllNonzero-get (x ∷ level) zero h lt = h.0
  AllNonzero-get (x ∷ level) (suc i) h lt = AllNonzero-get level i h.1 (omega arith)

  pub get_or-past :
      (level : List (List ℕ)) (i : ℕ) → length level ≤ i → get_or level i no_sibling ≡ no_sibling
  get_or-past [] i h = refl
  get_or-past (x ∷ level) zero h = absurd (omega arith)
  get_or-past (x ∷ level) (suc i) h = get_or-past level i (omega arith)

  -- The node above: an even node with a neighbour, one without, and an odd node.
  pub pair_up-left :
      (level : List (List ℕ)) (k : ℕ) (d : List ℕ)
      → 2 * k + 1 < length level
      → get_or (pair_up (hash_parent hash) level) k d
        ≡ hash_parent hash (get_or level (2 * k) d) (get_or level (2 * k + 1) d)
  unfolding pair_up
  pair_up-left [] k d h = absurd (omega arith)
  pair_up-left (x ∷ []) k d h = absurd (omega arith)
  pair_up-left (x ∷ y ∷ level) zero d h = refl
  pair_up-left (x ∷ y ∷ level) (suc k) d h =
      let e : suc (suc (2 * k)) ≡ 2 * suc k = omega arith in
      let e' : suc (suc (2 * k + 1)) ≡ 2 * suc k + 1 = omega arith in
      pair_up-left level k d (omega arith)
      ∙ ap₂ (hash_parent hash) (ap (λ i. get_or (x ∷ y ∷ level) i d) e)
          (ap (λ i. get_or (x ∷ y ∷ level) i d) e')

  pub pair_up-last :
      (level : List (List ℕ)) (k : ℕ) (d : List ℕ)
      → length level ≡ 2 * k + 1
      → get_or (pair_up (hash_parent hash) level) k d ≡ get_or level (2 * k) d
  unfolding pair_up
  pair_up-last [] k d h = absurd (omega arith)
  pair_up-last (x ∷ []) zero d h = refl
  pair_up-last (x ∷ []) (suc k) d h = absurd (omega arith)
  pair_up-last (x ∷ y ∷ level) zero d h = absurd (omega arith)
  pair_up-last (x ∷ y ∷ level) (suc k) d h =
      let e : suc (suc (2 * k)) ≡ 2 * suc k = omega arith in
      pair_up-last level k d (omega arith) ∙ ap (λ i. get_or (x ∷ y ∷ level) i d) e

  pub path_step-none :
      (chunk_index i : ℕ) (sibling current : List ℕ)
      → all_zero sibling ≡ true
      → path_step hash chunk_index i sibling current ≡ current
  unfolding path_step
  path_step-none chunk_index i sibling current z = rw (z)

  pub path_step-left :
      (chunk_index i : ℕ) (sibling current : List ℕ)
      → all_zero sibling ≡ false
      → shr chunk_index i % 2 ≡ 0
      → path_step hash chunk_index i sibling current ≡ hash_parent hash current sibling
  unfolding path_step
  path_step-left chunk_index i sibling current z e =
      rw (z, ne→not_== (shr chunk_index i % 2) 1 (λ w. omega (arith, e, w)))

  pub path_step-right :
      (chunk_index i : ℕ) (sibling current : List ℕ)
      → all_zero sibling ≡ false
      → shr chunk_index i % 2 ≡ 1
      → path_step hash chunk_index i sibling current ≡ hash_parent hash sibling current
  unfolding path_step
  path_step-right chunk_index i sibling current z e = rw (z, eq→== (shr chunk_index i % 2) 1 e)

  abbrev pub sibling_of : ℕ → ℕ
  sibling_of k = if k % 2 == 0 then k + 1 else k - 1

  -- The node `k` of a level and its sibling make node `k / 2` of the next.
  pub even_step :
      (chunk_index i m : ℕ) (level : List (List ℕ))
      → AllNonzero level
      → shr chunk_index i ≡ 2 * m
      → 2 * m < length level
      → path_step hash chunk_index i
          (get_or level (2 * m + 1) no_sibling)
          (get_or level (2 * m) no_sibling)
        ≡ get_or (pair_up (hash_parent hash) level) m no_sibling
  even_step chunk_index i m level h e lt = elim (Bool-cases (ltb (2 * m + 1) (length level))) [
    | inl below ↦
        let lt' = ltb→lt (2 * m + 1) (length level) below in
        path_step-left chunk_index i (get_or level (2 * m + 1) no_sibling)
          (get_or level (2 * m) no_sibling) (AllNonzero-get level (2 * m + 1) h lt')
          (omega (arith, e))
        ∙ sym (pair_up-left level m no_sibling lt')
    | inr above ↦
        let le = not_ltb→le (2 * m + 1) (length level) above in
        path_step-none chunk_index i (get_or level (2 * m + 1) no_sibling)
          (get_or level (2 * m) no_sibling) (ap all_zero (get_or-past level (2 * m + 1) le))
        ∙ sym (pair_up-last level m no_sibling (omega arith))
  ]

  pub odd_step :
      (chunk_index i m : ℕ) (level : List (List ℕ))
      → AllNonzero level
      → shr chunk_index i ≡ 2 * m + 1
      → 2 * m + 1 < length level
      → path_step hash chunk_index i
          (get_or level (2 * m) no_sibling)
          (get_or level (2 * m + 1) no_sibling)
        ≡ get_or (pair_up (hash_parent hash) level) m no_sibling
  odd_step chunk_index i m level h e lt =
      path_step-right chunk_index i (get_or level (2 * m) no_sibling)
        (get_or level (2 * m + 1) no_sibling) (AllNonzero-get level (2 * m) h (omega arith))
        (omega (arith, e))
      ∙ sym (pair_up-left level m no_sibling lt)

  pub path_step_lem :
      (chunk_index i k : ℕ) (level : List (List ℕ))
      → AllNonzero level
      → shr chunk_index i ≡ k
      → k < length level
      → path_step hash chunk_index i
          (get_or level (sibling_of k) no_sibling)
          (get_or level k no_sibling)
        ≡ get_or (pair_up (hash_parent hash) level) (k / 2) no_sibling
  path_step_lem chunk_index i k level h e lt = elim (Bool-cases (k % 2 == 0)) [
    | inl t ↦
        let even : k % 2 ≡ 0 = ==→eq (k % 2) 0 t in
        let m = k / 2 in
        let here : k ≡ 2 * m = omega arith in
        let there : sibling_of k ≡ 2 * m + 1 = rw (t) (omega arith) in
        ap₂
          (λ a b.
            path_step hash chunk_index i (get_or level a no_sibling) (get_or level b no_sibling))
          there here
        ∙ even_step chunk_index i m level h (omega (arith, e)) (omega arith)
    | inr f ↦
        let odd : k % 2 ≡ 1 = let no = not_==→ne (k % 2) 0 f in omega (arith, no) in
        let m = k / 2 in
        let here : k ≡ 2 * m + 1 = omega arith in
        let there : sibling_of k ≡ 2 * m = rw (f) (omega arith) in
        ap₂
          (λ a b.
            path_step hash chunk_index i (get_or level a no_sibling) (get_or level b no_sibling))
          there here
        ∙ odd_step chunk_index i m level h (omega (arith, e)) (omega arith)
  ]
