-- ===== src/Stream/Encoder.antt =====
-- src/blake4_stream.c: the encoder, which buffers its input, and the header of a tree. Allocation is
-- taken to succeed.
use native.Mathlib.Nat.{pow-suc}
use blake.Base.{ℕ, zero, suc, ◌+◌, ◌*◌, ◌^◌, ◌≤◌, ◌<◌, ◌≡◌, refl, sym, ap, ◌∙◌, arith}
use blake.Base.{
  List, [], ◌∷◌, ◌++◌, take, drop, length, length-append, append-nil, Option, none, some, ◌>>=◌,
}
use blake.Base.{true, ltb, leb, ◌==◌, if◌then◌else◌, if-cases, Bool-cases, inl, inr}
use blake.Base.{not_==→ne, not_ltb→le, ltb→lt}
use blake.Word.{u64, byte_at, load64_le, store64_le}
use blake.Hasher.Serialize.{starts_with}
use blake.Hasher.Tree.Split.{concat}
use blake.Stream.{bytes_eq, build_tree}
use blake.Stream.Slices.{Status, ok, err_format, err_version, err_verify, tree_magic}

-- `blake4_stream_encoder`: the bytes buffered, and the capacity of the buffer.
pub record Encoder : Type 0 where
  pub buffered : List ℕ
  pub data_cap : ℕ

unfoldable pub encoder_new : Encoder
encoder_new = record { buffered = []; data_cap = 0 }

-- `while (new_cap < needed) new_cap *= 2;` with a bound on its rounds.
unfoldable pub grow : ℕ → ℕ → ℕ → Option ℕ
grow zero cap needed = if ltb cap needed then none else some cap
grow (suc fuel) cap needed =
    let more = grow fuel (u64 (cap * 2)) needed in if ltb cap needed then more else some cap

-- A capacity that is not 0 is doubled at most 63 times below 2^64.
unfoldable pub new_capacity : Encoder → ℕ → Option ℕ
new_capacity enc needed =
    let first = if enc.data_cap == 0 then 4096 else u64 (enc.data_cap * 2) in
    let grown = grow 63 first needed in if ltb enc.data_cap needed then grown else some enc.data_cap

-- `none` is a copy that does not fit, or a loop that does not end.
unfoldable pub encoder_update : Encoder → List ℕ → Option Encoder
encoder_update enc [] = some enc
encoder_update enc (x ∷ input) = do
  let needed = u64 (length enc.buffered + length (x ∷ input))
  cap ← new_capacity enc needed
  let enc' : Encoder = record { buffered = enc.buffered ++ x ∷ input; data_cap = cap }
  if leb (length enc.buffered + length (x ∷ input)) cap then some enc' else none

-- The header of a tree, and its rows.
unfoldable pub tree_bytes : ℕ → List ℕ → List (List ℕ) → List ℕ
tree_bytes data_len root_hash tree_data =
    tree_magic ++ 2 ∷ 0 ∷ 0 ∷ 0 ∷ (store64_le data_len ++ (take 64 root_hash ++ concat tree_data))

module _ (hash : List ℕ → List ℕ) where
  -- The tree and the root hash.
  unfoldable pub encoder_finalize : Encoder → List ℕ × List ℕ
  encoder_finalize enc =
      let (tree_data, root_hash) = build_tree hash enc.buffered in
      (tree_bytes (length enc.buffered) root_hash tree_data, root_hash)

  unfoldable pub stream_encode : List ℕ → Option (List ℕ × List ℕ)
  stream_encode input = do enc ← encoder_update encoder_new input; some (encoder_finalize enc)

  unfoldable pub stream_hash : List ℕ → List ℕ
  stream_hash input = (build_tree hash input).1

  -- The data against a root hash, and against the header of a tree that is given.
  unfoldable pub check_header : List ℕ → List ℕ → ℕ → Status
  check_header expected_root tree data_len =
      if ltb (length tree) 80
      then ok
      else if starts_with tree tree_magic
      then if byte_at tree 4 == 2
        then if load64_le (drop 8 tree) == data_len
          then if bytes_eq (take 64 (drop 16 tree)) (take 64 expected_root) then ok else err_verify
          else err_verify
        else err_version
      else err_format

  unfoldable pub stream_verify : List ℕ → Option (List ℕ) → List ℕ → Status
  stream_verify expected_root none input =
      if bytes_eq (build_tree hash input).1 expected_root then ok else err_verify
  stream_verify expected_root (some tree) input =
      let header = check_header expected_root tree (length input) in
      if bytes_eq (build_tree hash input).1 expected_root then header else err_verify

-- The loop ends with enough capacity while the doublings stay below 2^64.
pub record Grown (needed : ℕ) (out : Option ℕ) : Type 0 where
  pub cap : ℕ
  pub returns : out ≡ some cap
  pub enough : needed ≤ cap
  pub fits : cap < 2 ^ 64

regroup : (a b : ℕ) → a * (b * 2) ≡ a * 2 * b
regroup a b = grind arith

grow-Grown :
    (fuel cap needed : ℕ)
    → needed ≤ 2 ^ 63
    → cap < 2 ^ 64
    → needed ≤ cap * 2 ^ fuel
    → Grown needed (grow fuel cap needed)
unfolding grow
grow-Grown zero cap needed h fits enough =
    if-cases (Grown needed) (ltb cap needed) none (some cap)
      (λ t. absurd (omega (arith, ltb→lt cap needed t)))
      (λ f. record { cap = cap; returns = refl; enough = not_ltb→le cap needed f; fits = fits })
grow-Grown (suc fuel) cap needed h fits enough = elim (Bool-cases (ltb cap needed)) [
  | inl t ↦
      let below = ltb→lt cap needed t in
      let no_wrap : u64 (cap * 2) ≡ cap * 2 = omega arith in
      let room : needed ≤ (cap * 2) * 2 ^ fuel =
        let e = ap (λ p. cap * p) (pow-suc 2 fuel) ∙ regroup cap (2 ^ fuel) in omega (arith, e) in
      rw (t, no_wrap) (grow-Grown fuel (cap * 2) needed h (omega arith) room)
  | inr f ↦
      rw (f) (record { cap = cap; returns = refl; enough = not_ltb→le cap needed f; fits = fits })
]

new_capacity-Grown :
    (enc : Encoder) (needed : ℕ)
    → needed ≤ 2 ^ 63
    → enc.data_cap < 2 ^ 63
    → Grown needed (new_capacity enc needed)
unfolding new_capacity
new_capacity-Grown enc needed h fits =
    if-cases (Grown needed) (ltb enc.data_cap needed)
      (grow 63 (if enc.data_cap == 0 then 4096 else u64 (enc.data_cap * 2)) needed)
      (some enc.data_cap)
      (λ t.
        if-cases (λ first. Grown needed (grow 63 first needed)) (enc.data_cap == 0) 4096
          (u64 (enc.data_cap * 2)) (λ _. grow-Grown 63 4096 needed h (omega arith) (omega arith))
          (λ e.
            grow-Grown 63 (u64 (enc.data_cap * 2)) needed h (omega arith)
              (let no = not_==→ne enc.data_cap 0 e in omega (arith, no))))
      (λ f. record {
        cap = enc.data_cap;
        returns = refl;
        enough = not_ltb→le enc.data_cap needed f;
        fits = omega arith;
      })

-- An encoder update returns with its input appended and a capacity that holds it: the doubling
-- loop ends. The capacity is below 2^63 and holds what is buffered, and at most 2^63 bytes are
-- buffered in the end.
pub encoder_update-appends :
    (enc : Encoder) (input : List ℕ)
    → enc.data_cap < 2 ^ 63
    → length enc.buffered ≤ enc.data_cap
    → length enc.buffered + length input ≤ 2 ^ 63
    → (enc' : Encoder) × (encoder_update enc input ≡ some enc')
      × (enc'.buffered ≡ enc.buffered ++ input)
      × (length enc'.buffered ≤ enc'.data_cap)
unfolding encoder_update
encoder_update-appends enc [] fits used h = (enc, refl, sym (append-nil enc.buffered), used)
encoder_update-appends enc (x ∷ input) fits used h =
    let total = length enc.buffered + length (x ∷ input) in
    let no_wrap : u64 total ≡ total = omega arith in
    let g = new_capacity-Grown enc total h fits in
    let enough : leb total g.cap ≡ true = let room = g.enough in ground arith in
    (
      record { buffered = enc.buffered ++ x ∷ input; data_cap = g.cap },
      rw (no_wrap, g.returns, enough),
      refl,
      omega (arith, length-append enc.buffered (x ∷ input), g.enough),
    )
