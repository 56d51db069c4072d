-- ===== src/Simd/Mixing.antt =====
-- The portable rounds of src/blake4_dispatch.c on four rows of four words: what every vector back
-- end computes on its lanes.
use blake.Base.{ℕ, ◌≡◌, refl, ap, ◌∙◌, bit_xor, List, [], ◌∷◌, ◌++◌}
use blake.Word.{rotr64}
use blake.Compress.{word_at, add_word, add_words, xor_rotate, g_portable, round, rounds}
use blake.Simd.Vectors.{Four, four, listed, each2, each, add64}

-- The mixing of four words, and of four rows lane by lane.
unfoldable pub mix : ℕ → ℕ → ℕ → ℕ → ℕ → ℕ → Four ℕ
mix a b c d mx my =
    let a1 = add64 (add64 a b) mx in
    let d1 = rotr64 (bit_xor d a1) 32 in
    let c1 = add64 c d1 in
    let b1 = rotr64 (bit_xor b c1) 24 in
    let a2 = add64 (add64 a1 b1) my in
    let d2 = rotr64 (bit_xor d1 a2) 16 in
    let c2 = add64 c1 d2 in let b2 = rotr64 (bit_xor b1 c2) 63 in four a2 b2 c2 d2

column_step :
    (a0 a1 a2 a3 b0 b1 b2 b3 c0 c1 c2 c3 d0 d1 d2 d3 x0 x1 x2 x3 y0 y1 y2 y3 : ℕ)
    → g_portable
        (g_portable
          (g_portable
            (g_portable
              (a0 ∷ a1 ∷ a2 ∷ a3 ∷ b0 ∷ b1 ∷ b2 ∷ b3 ∷ c0 ∷ c1 ∷ c2 ∷ c3 ∷ d0 ∷ d1 ∷ d2 ∷ d3 ∷ [])
              0
              4
              8
              12
              x0
              y0)
            1
            5
            9
            13
            x1
            y1)
          2
          6
          10
          14
          x2
          y2)
        3
        7
        11
        15
        x3
        y3
      ≡ (mix a0 b0 c0 d0 x0 y0).w0
        ∷ (mix a1 b1 c1 d1 x1 y1).w0
        ∷ (mix a2 b2 c2 d2 x2 y2).w0
        ∷ (mix a3 b3 c3 d3 x3 y3).w0
        ∷ (mix a0 b0 c0 d0 x0 y0).w1
        ∷ (mix a1 b1 c1 d1 x1 y1).w1
        ∷ (mix a2 b2 c2 d2 x2 y2).w1
        ∷ (mix a3 b3 c3 d3 x3 y3).w1
        ∷ (mix a0 b0 c0 d0 x0 y0).w2
        ∷ (mix a1 b1 c1 d1 x1 y1).w2
        ∷ (mix a2 b2 c2 d2 x2 y2).w2
        ∷ (mix a3 b3 c3 d3 x3 y3).w2
        ∷ (mix a0 b0 c0 d0 x0 y0).w3
        ∷ (mix a1 b1 c1 d1 x1 y1).w3
        ∷ (mix a2 b2 c2 d2 x2 y2).w3
        ∷ (mix a3 b3 c3 d3 x3 y3).w3
        ∷ []
unfolding g_portable add_word add_words xor_rotate mix
column_step a0 a1 a2 a3 b0 b1 b2 b3 c0 c1 c2 c3 d0 d1 d2 d3 x0 x1 x2 x3 y0 y1 y2 y3 = refl

diagonal_step :
    (a0 a1 a2 a3 b0 b1 b2 b3 c0 c1 c2 c3 d0 d1 d2 d3 x0 x1 x2 x3 y0 y1 y2 y3 : ℕ)
    → g_portable
        (g_portable
          (g_portable
            (g_portable
              (a0 ∷ a1 ∷ a2 ∷ a3 ∷ b0 ∷ b1 ∷ b2 ∷ b3 ∷ c0 ∷ c1 ∷ c2 ∷ c3 ∷ d0 ∷ d1 ∷ d2 ∷ d3 ∷ [])
              0
              5
              10
              15
              x0
              y0)
            1
            6
            11
            12
            x1
            y1)
          2
          7
          8
          13
          x2
          y2)
        3
        4
        9
        14
        x3
        y3
      ≡ (mix a0 b1 c2 d3 x0 y0).w0
        ∷ (mix a1 b2 c3 d0 x1 y1).w0
        ∷ (mix a2 b3 c0 d1 x2 y2).w0
        ∷ (mix a3 b0 c1 d2 x3 y3).w0
        ∷ (mix a3 b0 c1 d2 x3 y3).w1
        ∷ (mix a0 b1 c2 d3 x0 y0).w1
        ∷ (mix a1 b2 c3 d0 x1 y1).w1
        ∷ (mix a2 b3 c0 d1 x2 y2).w1
        ∷ (mix a2 b3 c0 d1 x2 y2).w2
        ∷ (mix a3 b0 c1 d2 x3 y3).w2
        ∷ (mix a0 b1 c2 d3 x0 y0).w2
        ∷ (mix a1 b2 c3 d0 x1 y1).w2
        ∷ (mix a1 b2 c3 d0 x1 y1).w3
        ∷ (mix a2 b3 c0 d1 x2 y2).w3
        ∷ (mix a3 b0 c1 d2 x3 y3).w3
        ∷ (mix a0 b1 c2 d3 x0 y0).w3
        ∷ []
unfolding g_portable add_word add_words xor_rotate mix
diagonal_step a0 a1 a2 a3 b0 b1 b2 b3 c0 c1 c2 c3 d0 d1 d2 d3 x0 x1 x2 x3 y0 y1 y2 y3 = refl

-- The state as four rows.
abbrev pub Rows : Type 0
Rows = Four (Four ℕ)

-- The sixteen words of the rows.
abbrev pub flat : Rows → List ℕ
flat q = listed q.w0 ++ (listed q.w1 ++ (listed q.w2 ++ listed q.w3))

-- Four mixings, one in each column.
unfoldable pub mix_rows : Rows → Four ℕ → Four ℕ → Rows
mix_rows q mx my =
    let t0 = mix q.w0.w0 q.w1.w0 q.w2.w0 q.w3.w0 mx.w0 my.w0 in
    let t1 = mix q.w0.w1 q.w1.w1 q.w2.w1 q.w3.w1 mx.w1 my.w1 in
    let t2 = mix q.w0.w2 q.w1.w2 q.w2.w2 q.w3.w2 mx.w2 my.w2 in
    let t3 = mix q.w0.w3 q.w1.w3 q.w2.w3 q.w3.w3 mx.w3 my.w3 in
    four (four t0.w0 t1.w0 t2.w0 t3.w0) (four t0.w1 t1.w1 t2.w1 t3.w1)
      (four t0.w2 t1.w2 t2.w2 t3.w2) (four t0.w3 t1.w3 t2.w3 t3.w3)

-- Mixing of whole rows is mixing in each column.
pub mix_rows_lanes :
    (a b c d mx my : Four ℕ)
    → (let a1 = each2 add64 (each2 add64 a b) mx in
        let d1 = each (λ x. rotr64 x 32) (each2 bit_xor d a1) in
        let c1 = each2 add64 c d1 in
        let b1 = each (λ x. rotr64 x 24) (each2 bit_xor b c1) in
        let a2 = each2 add64 (each2 add64 a1 b1) my in
        let d2 = each (λ x. rotr64 x 16) (each2 bit_xor d1 a2) in
        let c2 = each2 add64 c1 d2 in
        let b2 = each (λ x. rotr64 x 63) (each2 bit_xor b1 c2) in four a2 b2 c2 d2)
      ≡ mix_rows (four a b c d) mx my
unfolding mix_rows mix
mix_rows_lanes a b c d mx my = refl

-- The diagonals brought into columns, and back.
abbrev pub skew : {A : Type 0} → Four (Four A) → Four (Four A)
skew q =
    four q.w0 (four q.w1.w1 q.w1.w2 q.w1.w3 q.w1.w0) (four q.w2.w2 q.w2.w3 q.w2.w0 q.w2.w1)
      (four q.w3.w3 q.w3.w0 q.w3.w1 q.w3.w2)

abbrev pub unskew : {A : Type 0} → Four (Four A) → Four (Four A)
unskew q =
    four q.w0 (four q.w1.w3 q.w1.w0 q.w1.w1 q.w1.w2) (four q.w2.w2 q.w2.w3 q.w2.w0 q.w2.w1)
      (four q.w3.w1 q.w3.w2 q.w3.w3 q.w3.w0)

unfoldable pub round_rows : List ℕ → List ℕ → Rows → Rows
round_rows m s q =
    let w = λ (i : ℕ). word_at m (word_at s i) in
    let column = mix_rows q (four (w 0) (w 2) (w 4) (w 6)) (four (w 1) (w 3) (w 5) (w 7)) in
    unskew
      (mix_rows (skew column) (four (w 8) (w 10) (w 12) (w 14)) (four (w 9) (w 11) (w 13) (w 15)))

pub round-flat : (m s : List ℕ) (q : Rows) → round m s (flat q) ≡ flat (round_rows m s q)
unfolding round round_rows mix_rows
round-flat m s q =
    let w = λ (i : ℕ). word_at m (word_at s i) in
    let t = mix_rows q (four (w 0) (w 2) (w 4) (w 6)) (four (w 1) (w 3) (w 5) (w 7)) in
    ap
      (λ state.
        g_portable
          (g_portable (g_portable (g_portable state 0 5 10 15 (w 8) (w 9)) 1 6 11 12 (w 10) (w 11))
            2 7 8 13 (w 12) (w 13))
          3 4 9 14 (w 14) (w 15))
      (column_step q.w0.w0 q.w0.w1 q.w0.w2 q.w0.w3 q.w1.w0 q.w1.w1 q.w1.w2 q.w1.w3 q.w2.w0 q.w2.w1
        q.w2.w2 q.w2.w3 q.w3.w0 q.w3.w1 q.w3.w2 q.w3.w3 (w 0) (w 2) (w 4) (w 6) (w 1) (w 3) (w 5)
        (w 7))
    ∙ diagonal_step t.w0.w0 t.w0.w1 t.w0.w2 t.w0.w3 t.w1.w0 t.w1.w1 t.w1.w2 t.w1.w3 t.w2.w0 t.w2.w1
        t.w2.w2 t.w2.w3 t.w3.w0 t.w3.w1 t.w3.w2 t.w3.w3 (w 8) (w 10) (w 12) (w 14) (w 9) (w 11)
        (w 13) (w 15)

unfoldable pub rounds_rows : List ℕ → List (List ℕ) → Rows → Rows
rounds_rows m [] q = q
rounds_rows m (s ∷ schedule) q = rounds_rows m schedule (round_rows m s q)

pub rounds-flat :
    (m : List ℕ) (schedule : List (List ℕ)) (q : Rows)
    → rounds m schedule (flat q) ≡ flat (rounds_rows m schedule q)
unfolding rounds rounds_rows
rounds-flat m [] q = refl
rounds-flat m (s ∷ schedule) q =
    ap (rounds m schedule) (round-flat m s q) ∙ rounds-flat m schedule (round_rows m s q)
