-- ===== src/Stream/Binding.antt =====
-- Two chunk hashes that pass the check of src/blake4_stream.c with one path are equal, or the hash
-- has a collision.
use blake.Base.{ℕ, ◌+◌, ◌%◌, ◌≡◌, ◌≢◌, ◌⊎◌, inl, inr, sym, ap, ◌∙◌, arith}
use blake.Base.{List, [], ◌∷◌, ◌++◌, length, take, take_all, take-append, ◌==◌, if◌then◌else◌}
use blake.Base.{true, if-cases, Bool-cases}
use blake.Word.{shr}
use blake.Stream.Equal.{bytes_eq→eq, lists-decide}
use blake.Stream.{hash_parent, all_zero, path_step, path_root, verify_merkle_path}

append-left : (p a b : List ℕ) → p ++ a ≡ p ++ b → a ≡ b
append-left [] a b e = e
append-left (x ∷ p) a b e = append-left p a b (ap tail e)
  where
    tail : List ℕ → List ℕ
    tail [] = []
    tail (y ∷ ys) = ys

module _ (hash : List ℕ → List ℕ) where
  -- Two inputs with one hash.
  pub record Collision : Type 0 where
    pub first : List ℕ
    pub second : List ℕ
    pub different : first ≢ second
    pub same_hash : hash first ≡ hash second

  same_input : (x y : List ℕ) → hash x ≡ hash y → (x ≡ y) ⊎ Collision
  same_input x y e = elim (lists-decide x y) [
    | inl same ↦ inl same
    | inr apart ↦ inr (record { first = x; second = y; different = apart; same_hash = e })
  ]

  right_child :
      (s a b : List ℕ)
      → length a ≡ 64
      → length b ≡ 64
      → hash_parent hash s a ≡ hash_parent hash s b
      → (a ≡ b) ⊎ Collision
  unfolding hash_parent
  right_child s a b la lb e =
      elim (same_input (take 64 s ++ take 64 a) (take 64 s ++ take 64 b) e) [
        | inl same ↦ inl (
            sym (take_all 64 a (omega (arith, la)))
            ∙ append-left (take 64 s) (take 64 a) (take 64 b) same
            ∙ take_all 64 b (omega (arith, lb)))
        | inr c ↦ inr c
      ]

  left_child :
      (s a b : List ℕ)
      → length a ≡ 64
      → length b ≡ 64
      → hash_parent hash a s ≡ hash_parent hash b s
      → (a ≡ b) ⊎ Collision
  unfolding hash_parent
  left_child s a b la lb e =
      let whole_a = take_all 64 a (omega (arith, la)) in
      let whole_b = take_all 64 b (omega (arith, lb)) in
      elim (same_input (take 64 a ++ take 64 s) (take 64 b ++ take 64 s) e) [
        | inl same ↦ inl (
            sym whole_a
            ∙ sym (take-append 64 (take 64 a) (take 64 s) (ap length whole_a ∙ la))
            ∙ ap (take 64) same
            ∙ take-append 64 (take 64 b) (take 64 s) (ap length whole_b ∙ lb)
            ∙ whole_b)
        | inr c ↦ inr c
      ]

  step_binds :
      (k i : ℕ) (s a b : List ℕ)
      → length a ≡ 64
      → length b ≡ 64
      → path_step hash k i s a ≡ path_step hash k i s b
      → (a ≡ b) ⊎ Collision
  unfolding path_step
  step_binds k i s a b la lb = elim (Bool-cases (all_zero s)) [
    | inl z ↦ rw (z) (λ e. inl e)
    | inr z ↦ elim (Bool-cases (shr k i % 2 == 1)) [
      | inl t ↦ rw (z, t) (λ e. right_child s a b la lb e)
      | inr f ↦ rw (z, f) (λ e. left_child s a b la lb e)
    ]
  ]

  module _ (hash_length : (x : List ℕ) → length (hash x) ≡ 64) where
    length-path_step :
        (k i : ℕ) (s a : List ℕ) → length a ≡ 64 → length (path_step hash k i s a) ≡ 64
    unfolding path_step hash_parent
    length-path_step k i s a la =
        if-cases (λ x. length x ≡ 64) (all_zero s) a
          (if shr k i % 2 == 1 then hash_parent hash s a else hash_parent hash a s) (λ _. la)
          (λ _.
            if-cases (λ x. length x ≡ 64) (shr k i % 2 == 1) (hash_parent hash s a)
              (hash_parent hash a s) (λ _. hash_length (take 64 s ++ take 64 a))
              (λ _. hash_length (take 64 a ++ take 64 s)))

    path_root-binds :
        (k i : ℕ) (siblings : List (List ℕ)) (a b : List ℕ)
        → length a ≡ 64
        → length b ≡ 64
        → path_root hash k i siblings a ≡ path_root hash k i siblings b
        → (a ≡ b) ⊎ Collision
    unfolding path_root
    path_root-binds k i [] a b la lb e = inl e
    path_root-binds k i (s ∷ siblings) a b la lb e =
        elim (path_root-binds k (i + 1) siblings (path_step hash k i s a) (path_step hash k i s b)
          (length-path_step k i s a la) (length-path_step k i s b lb) e) [
            | inl same ↦ step_binds k i s a b la lb same
            | inr c ↦ inr c
          ]

    -- Two hashes of 64 bytes that are both accepted for one chunk number, path and root are equal,
    -- or two different inputs with the same hash are found. The hash has 64 bytes.
    pub verify_merkle_path-binds :
        (k : ℕ) (siblings : List (List ℕ)) (root a b : List ℕ)
        → length a ≡ 64
        → length b ≡ 64
        → verify_merkle_path hash a k siblings root ≡ true
        → verify_merkle_path hash b k siblings root ≡ true
        → (a ≡ b) ⊎ Collision
    unfolding verify_merkle_path
    verify_merkle_path-binds k siblings root a b la lb ea eb =
        path_root-binds k 0 siblings a b la lb (
          bytes_eq→eq (path_root hash k 0 siblings a) root ea
          ∙ sym (bytes_eq→eq (path_root hash k 0 siblings b) root eb))
