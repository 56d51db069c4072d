-- ===== src/Stream/Decoder.antt =====
-- src/blake4_stream.c: the decoder. The chunk buffer is the list of the bytes in it; allocation is
-- taken to succeed.
use blake.Base.{ℕ, zero, suc, ◌+◌, ◌-◌, ◌≡◌, refl, ap, ◌∙◌}
use blake.Base.{List, [], ◌∷◌, ◌++◌, take, drop, length, Option, none, some, ◌>>=◌, fit_count}
use blake.Base.{not, ◌&&◌, ◌||◌, ltb, leb, ◌==◌, if◌then◌else◌, Bool-cases, inl, inr}
use blake.Word.{u64, byte_at, load64_le}
use blake.Hasher.Serialize.{starts_with}
use blake.Stream.{bytes_eq}
use blake.Stream.Slices.{Status, ok, err_verify, tree_magic}

-- `blake4_stream_decoder`
pub record Decoder : Type 0 where
  pub expected_root : List ℕ
  pub tree : List ℕ
  pub expected_data_len : ℕ
  pub verified_len : ℕ
  pub chunk_buf : List ℕ

abbrev pub new_decoder : List ℕ → List ℕ → ℕ → Decoder
new_decoder root tree data_len = record {
  expected_root = take 64 root;
  tree = tree;
  expected_data_len = data_len;
  verified_len = 0;
  chunk_buf = [];
}

-- `none` is NULL.
unfoldable pub decoder_new : Option (List ℕ) → Option (List ℕ) → Option Decoder
decoder_new none tree = none
decoder_new (some root) none = some (new_decoder root [] 0)
decoder_new (some root) (some tree) =
    if ltb (length tree) 80
    then some (new_decoder root [] 0)
    else if not (starts_with tree tree_magic) || not (byte_at tree 4 == 2)
    then none
    else if bytes_eq (take 64 (drop 16 tree)) (take 64 root)
    then some (new_decoder root (drop 80 tree) (load64_le (drop 8 tree)))
    else none

-- The chunk buffer takes what fits; a copy beyond its 2048 bytes is a fault.
unfoldable pub fill : Decoder → List ℕ → Option (Decoder × List ℕ)
fill d input =
    let n = fit_count 2048 (length d.chunk_buf) (length input) in
    let filled = d.chunk_buf ++ take n input in
    if leb (length filled) 2048 then some (record d { chunk_buf = filled }, drop n input) else none

-- A full chunk or the last one goes to the output as far as there is room, and is counted whole.
unfoldable pub pass_on : ℕ → Decoder → List ℕ → Decoder × List ℕ
pass_on out_len d out =
    let seen = u64 (d.verified_len + length d.chunk_buf) in
    let is_final = ltb 0 d.expected_data_len && leb d.expected_data_len seen in
    let passed : Decoder × List ℕ = (
      record d { verified_len = seen; chunk_buf = [] },
      out ++ take (out_len - length out) d.chunk_buf,
    ) in
    if (length d.chunk_buf == 2048) || is_final then passed else (d, out)

-- The loop, with a bound on its rounds; the decoder and the output.
unfoldable pub decode_loop : ℕ → ℕ → Decoder → List ℕ → List ℕ → Option (Decoder × List ℕ)
decode_loop out_len fuel d [] out = some (d, out)
decode_loop out_len zero d (x ∷ input) out = none
decode_loop out_len (suc fuel) d (x ∷ input) out =
    let more = fill d (x ∷ input) >>= λ r.
    decode_loop out_len fuel (pass_on out_len r.0 out).0 r.1 (pass_on out_len r.0 out).1 in
    if leb out_len (length out) then some (d, out) else more

unfoldable pub decoder_update : Decoder → List ℕ → ℕ → Option (Decoder × List ℕ)
decoder_update d input out_len = decode_loop out_len (length input) d input []

unfoldable pub decoder_finalize : Decoder → Status × Decoder
decoder_finalize d =
    let all_seen = u64 (d.verified_len + length d.chunk_buf) in
    let d' = record d { verified_len = all_seen; chunk_buf = [] } in
    if ltb 0 d.expected_data_len && not (all_seen == d.expected_data_len)
    then (err_verify, d')
    else (ok, d')

-- The same decoder for another root and another tree.
abbrev pub retarget : List ℕ → List ℕ → Decoder → Decoder
retarget root tree d = record d { expected_root = root; tree = tree }

module _ (root tree : List ℕ) where
  -- The bytes handed out, without the decoder.
  abbrev pub outputs : Option (Decoder × List ℕ) → Option (List ℕ)
  outputs none = none
  outputs (some r) = some r.1

  pass_on-retarget :
      (out_len : ℕ) (d : Decoder) (out : List ℕ)
      → pass_on out_len (retarget root tree d) out
        ≡ (retarget root tree (pass_on out_len d out).0, (pass_on out_len d out).1)
  unfolding pass_on
  pass_on-retarget out_len d out =
      let seen = u64 (d.verified_len + length d.chunk_buf) in
      let test =
        (length d.chunk_buf == 2048)
        || (ltb 0 d.expected_data_len && leb d.expected_data_len seen) in
      elim (Bool-cases test) [ inl t ↦ rw (t) | inr f ↦ rw (f) ]

  decode_loop-retarget :
      (out_len fuel : ℕ) (d : Decoder) (input out : List ℕ)
      → outputs (decode_loop out_len fuel (retarget root tree d) input out)
        ≡ outputs (decode_loop out_len fuel d input out)
  unfolding decode_loop fill
  decode_loop-retarget out_len fuel d [] out = refl
  decode_loop-retarget out_len zero d (x ∷ input) out = refl
  decode_loop-retarget out_len (suc fuel) d (x ∷ input) out =
      let n = fit_count 2048 (length d.chunk_buf) (length (x ∷ input)) in
      let filled = d.chunk_buf ++ take n (x ∷ input) in
      let d1 : Decoder = record d { chunk_buf = filled } in
      let rest = drop n (x ∷ input) in
      let step : (out_len : ℕ)
          → outputs (
              decode_loop out_len fuel (pass_on out_len (retarget root tree d1) out).0 rest
                (pass_on out_len (retarget root tree d1) out).1)
            ≡ outputs (
                decode_loop out_len fuel (pass_on out_len d1 out).0 rest
                  (pass_on out_len d1 out).1) =
        λ m.
          ap (λ (p : Decoder × List ℕ). outputs (decode_loop m fuel p.0 rest p.1))
            (pass_on-retarget m d1 out)
          ∙ decode_loop-retarget m fuel (pass_on m d1 out).0 rest (pass_on m d1 out).1 in
      elim (Bool-cases (leb out_len (length out))) [
        | inl t ↦ rw (t)
        | inr f ↦ elim (Bool-cases (leb (length filled) 2048)) [
          | inl t ↦ rw (f, t) (step out_len)
          | inr g ↦ rw (f, g)
        ]
      ]

  -- The bytes that a decoder update hands out as verified are the same for any root hash and any
  -- tree.
  pub decoder_update-retarget :
      (d : Decoder) (input : List ℕ) (out_len : ℕ)
      → outputs (decoder_update (retarget root tree d) input out_len)
        ≡ outputs (decoder_update d input out_len)
  unfolding decoder_update
  decoder_update-retarget d input out_len = decode_loop-retarget out_len (length input) d input []
