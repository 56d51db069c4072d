-- ===== src/Hasher/Node/Xof.antt =====
-- The extendable output as one unbounded stream of bytes, of which `output_root_bytes` returns a
-- window.
use blake.Base.{
  ℕ, zero, suc, ◌+◌, ◌-◌, ◌*◌, ◌/◌, ◌%◌, ◌^◌, ◌≤◌, ◌<◌, ◌≡◌, ◌≢◌, min, refl, ap, ap₂, ◌∙◌, arith,
}
use blake.Base.{bit_or, List, [], ◌∷◌, ◌++◌, ltb, length}
use blake.Base.{Bool-cases, inl, inr, ltb→lt, not_ltb→le, ne→not_==}
use blake.Word.{u64}
use blake.Compress.{Compressor, word_at}
use blake.Hasher.{Output, root}
use blake.Hasher.Node.{wide_byte, copy_bytes, root_loop, output_root_bytes}

module _ (c : Compressor) (o : Output) where
  -- The block of the stream that holds position `p`, and the byte there.
  abbrev pub xof_block : ℕ → List ℕ
  xof_block n = c.compress o.input_cv o.block o.len n (bit_or o.flags root)

  -- Each word of the block is eight bytes, the lowest first.
  abbrev pub xof_byte : ℕ → ℕ
  xof_byte p = let j = p % 128 in word_at (xof_block (p / 128)) (j / 8) / 2 ^ (8 * (j % 8)) % 2 ^ 8

  -- `n` bytes of the stream from position `p` on.
  abbrev pub xof_bytes : ℕ → ℕ → List ℕ
  xof_bytes p zero = []
  xof_bytes p (suc n) = xof_byte p ∷ xof_bytes (p + 1) n

  copy_bytes-xof :
      (block offset n : ℕ)
      → offset + n ≤ 128
      → copy_bytes (xof_block block) offset n ≡ xof_bytes (block * 128 + offset) n
  unfolding copy_bytes wide_byte
  copy_bytes-xof block offset zero h = refl
  copy_bytes-xof block offset (suc n) h =
      ap₂ ◌∷◌ (ap₂ (λ (b j : ℕ). wide_byte (xof_block b) j) (omega arith) (omega arith))
        (copy_bytes-xof block (offset + 1) n (omega arith) ∙ ap (λ p. xof_bytes p n) (omega arith))

  xof_bytes-append : (p m n : ℕ) → xof_bytes p m ++ xof_bytes (p + m) n ≡ xof_bytes p (m + n)
  xof_bytes-append p zero n = ap₂ (λ a b. xof_bytes a b) (omega arith) (omega arith)
  xof_bytes-append p (suc m) n =
      let e : suc m + n ≡ suc (m + n) = omega arith in
      let q : p + suc m ≡ p + 1 + m = omega arith in
      rw (e, q) (ap (λ r. xof_byte p ∷ r) (xof_bytes-append (p + 1) m n))

  -- One round of the outer loop.
  round_lem :
      (fuel block offset n : ℕ)
      → n ≢ 0
      → root_loop c (suc fuel) o block offset n
        ≡ copy_bytes (xof_block block) offset (min (128 - offset) n)
          ++ root_loop c fuel o (u64 (block + 1)) 0 (n - min (128 - offset) n)
  unfolding root_loop
  round_lem fuel block offset n h = elim (Bool-cases (ltb (128 - offset) n)) [
    | inl less ↦
        let e : min (128 - offset) n ≡ 128 - offset = omega (arith, ltb→lt _ _ less) in
        rw (e, less, ne→not_== n 0 h)
    | inr more ↦
        let e : min (128 - offset) n ≡ n = omega (arith, not_ltb→le _ _ more) in
        rw (e, more, ne→not_== n 0 h)
  ]

  root_loop-zero : (fuel block offset : ℕ) → root_loop c fuel o block offset 0 ≡ []
  unfolding root_loop
  root_loop-zero zero block offset = refl
  root_loop-zero (suc fuel) block offset = refl

  root_loop-xof :
      (fuel block offset n : ℕ)
      → offset < 128
      → n ≤ fuel
      → block + n < 2 ^ 64
      → root_loop c fuel o block offset n ≡ xof_bytes (block * 128 + offset) n
  root_loop-xof fuel block offset zero lt enough fits = root_loop-zero fuel block offset
  root_loop-xof zero block offset (suc n) lt enough fits = absurd (omega arith)
  root_loop-xof (suc fuel) block offset (suc n) lt enough fits =
      let k = min (128 - offset) (suc n) in
      let now = copy_bytes-xof block offset k (omega arith) in
      let rest : root_loop c fuel o (u64 (block + 1)) 0 (suc n - k)
          ≡ xof_bytes (u64 (block + 1) * 128 + 0) (suc n - k) =
        root_loop-xof fuel (u64 (block + 1)) 0 (suc n - k) (omega arith) (omega arith)
          (omega arith) in
      let here : xof_bytes (u64 (block + 1) * 128 + 0) (suc n - k)
          ≡ xof_bytes (block * 128 + offset + k) (suc n - k) =
        meet (suc n - k) _ _ (λ left. omega arith) in
      let sizes : k + (suc n - k) ≡ suc n = omega arith in
      round_lem fuel block offset (suc n) (omega arith)
      ∙ ap₂ ◌++◌ now (rest ∙ here)
      ∙ xof_bytes-append (block * 128 + offset) k (suc n - k)
      ∙ ap (xof_bytes (block * 128 + offset)) sizes
    where
      -- Where nothing is left, the position does not matter.
      meet : (m p q : ℕ) → (m ≢ 0 → p ≡ q) → xof_bytes p m ≡ xof_bytes q m
      meet zero p q h = refl
      meet (suc m) p q h = ap (λ r. xof_bytes r (suc m)) (h (omega arith))

  -- The root output of n bytes from position seek on is that window of one stream: byte p of the
  -- stream is byte p mod 128 of the block compressed with counter p / 128. The position is below
  -- 2^64 and n below 2^63.
  pub output_root_bytes-xof :
      (seek n : ℕ) → seek < 2 ^ 64 → n < 2 ^ 63 → output_root_bytes c o seek n ≡ xof_bytes seek n
  unfolding output_root_bytes
  output_root_bytes-xof seek n hs hn =
      root_loop-xof n (seek / 128) (seek % 128) n (omega arith) (omega arith) (omega arith)
      ∙ ap (λ p. xof_bytes p n) (omega arith)

  pub length-xof_bytes : (p n : ℕ) → length (xof_bytes p n) ≡ n
  length-xof_bytes p zero = refl
  length-xof_bytes p (suc n) = ap suc (length-xof_bytes (p + 1) n)
