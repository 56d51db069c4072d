-- ===== src/Tests/Trees.antt =====
-- The tree of a file of two chunks under blake4_hash itself: its hashes are 64 bytes, not all 0.
use blake.Base.{
  ℕ, ◌≡◌, ◌<◌, ◌^◌, refl, sym, ap, ap₂, arith, List, [], ◌∷◌, ◌++◌, length, take, replicate,
  length-append, length-take,
}
use blake.Base.{Option, none, some, Bool, true, false, ◌&&◌, ◌==◌, not, and_true, ==→eq}
use blake.Compress.{
  iv, compress_portable, add_word, add_words, g_portable, init_state, round, rounds, xor_rotate,
  xor_words,
}
use blake.Compress.Bounds.{portable}
use blake.Hasher.Chunk.Blocks.{last_block, next_cv, chain, chunk_output}
use blake.Hasher.Node.{wide_byte, output_chaining_value}
use blake.Hasher.Tree.{hash_spec}
use blake.Hasher.Api.{blake4_hash}
use blake.Hasher.Api.Correct.{blake4_hash-hash_spec}
use blake.Hasher.Api.Pieces.{all_bytes, all_bytes_lem}
use blake.Merkle.{levels, pair_up}
use blake.Word.{load64_le, load_words, rotr64, words_from_bytes}
use blake.Stream.{all_zero, num_chunks, chunk_at, chunk_hashes, hash_chunk, hash_parent}
use blake.Base.{subst}
use blake.Hasher.Serialize.RoundTrip.{AllRows}
use blake.Stream.Paths.Steps.{AllNonzero, EachLevel}
use blake.Stream.Paths.{NonzeroTree}
use blake.Stream.Accepted.Rows.{FullTree}

abbrev or_nothing : Option (List ℕ) → List ℕ
or_nothing none = []
or_nothing (some bytes) = bytes

pub real_hash : List ℕ → List ℕ
real_hash x = or_nothing (blake4_hash portable x)

spec : List ℕ → List ℕ
spec x = hash_spec portable iv 0 x 0 64

real_hash-spec : (x : List ℕ) → all_bytes x ≡ true → length x < 2 ^ 64 → real_hash x ≡ spec x
unfolding real_hash spec
real_hash-spec x e h = ap or_nothing (blake4_hash-hash_spec portable x (all_bytes_lem x e) h)

abbrev pub two_chunks : List ℕ
two_chunks = replicate 2049 7

abbrev first_chunk : List ℕ
first_chunk = replicate 2048 7

abbrev last_chunk : List ℕ
last_chunk = 7 ∷ []

abbrev children : List ℕ
children = take 64 (spec first_chunk) ++ take 64 (spec last_chunk)

abbrev good : List ℕ → Bool
good row = not (all_zero row) && (length row == 64)

abbrev all_good : Bool
all_good =
    good (spec first_chunk)
    && (good (spec last_chunk) && (good (spec children) && all_bytes children))

all_good_lem : all_good ≡ true
unfolding spec last_block next_cv chain chunk_output wide_byte output_chaining_value levels pair_up
    load64_le load_words rotr64 words_from_bytes compress_portable add_word add_words g_portable
    init_state round rounds xor_rotate xor_words
all_good_lem = refl

-- A row of which the test holds.
record Good (row : List ℕ) : Type 0 where
  nonzero : all_zero row ≡ false
  full : length row ≡ 64

good-Good : (row : List ℕ) → good row ≡ true → Good row
good-Good row e =
    let (some_byte, size) = and_true (not (all_zero row)) (length row == 64) e in
    record { nonzero = not_true (all_zero row) some_byte; full = ==→eq (length row) 64 size }
  where
    not_true : (b : Bool) → not b ≡ true → b ≡ false
    not_true false e = refl
    not_true true e = cc

record Facts : Type 0 where
  first : Good (spec first_chunk)
  last : Good (spec last_chunk)
  top : Good (spec children)
  bytes : all_bytes children ≡ true

facts : Facts
facts =
    let (a, rest) = and_true (good (spec first_chunk)) _ all_good_lem in
    let (b, rest') = and_true (good (spec last_chunk)) _ rest in
    let (c, d) = and_true (good (spec children)) _ rest' in
    record {
      first = good-Good (spec first_chunk) a;
      last = good-Good (spec last_chunk) b;
      top = good-Good (spec children) c;
      bytes = d;
    }

leaf0 : hash_chunk real_hash (chunk_at real_hash two_chunks 0) ≡ spec first_chunk
unfolding hash_chunk chunk_at
leaf0 = real_hash-spec first_chunk refl (omega arith)

leaf1 : hash_chunk real_hash (chunk_at real_hash two_chunks 1) ≡ spec last_chunk
unfolding hash_chunk chunk_at
leaf1 = real_hash-spec last_chunk refl (omega arith)

parent : hash_parent real_hash (spec first_chunk) (spec last_chunk) ≡ spec children
unfolding hash_parent
parent = real_hash-spec children facts.bytes (
    omega (
      arith,
      length-append (take 64 (spec first_chunk)) (take 64 (spec last_chunk)),
      length-take 64 (spec first_chunk),
      length-take 64 (spec last_chunk),
    ))

leaves : chunk_hashes real_hash two_chunks 0 2 ≡ spec first_chunk ∷ spec last_chunk ∷ []
unfolding chunk_hashes
leaves = ap₂ (λ x y. x ∷ y ∷ []) leaf0 leaf1

above :
    pair_up (hash_parent real_hash) (spec first_chunk ∷ spec last_chunk ∷ []) ≡ spec children ∷ []
unfolding pair_up
above = ap (λ x. x ∷ []) parent

two : num_chunks (length two_chunks) ≡ 2
unfolding num_chunks
two = refl

-- A property of the levels of the tree, from what it says of the two levels.
each_level :
    (P : List (List ℕ) → Type 0)
    → P (spec first_chunk ∷ spec last_chunk ∷ [])
    → P (spec children ∷ [])
    → EachLevel real_hash P
        (num_chunks (length two_chunks))
        (chunk_hashes real_hash two_chunks 0 (num_chunks (length two_chunks)))
unfolding pair_up
each_level P p q =
    subst (λ (n : ℕ). EachLevel real_hash P n (chunk_hashes real_hash two_chunks 0 n)) (sym two)
      (subst (EachLevel real_hash P 2) (sym leaves)
        (p, (subst P (sym above) q, subst P (sym above) q)))

pub two_chunks-FullTree : FullTree real_hash two_chunks
two_chunks-FullTree =
    each_level AllRows (facts.first.full, (facts.last.full, tt)) (facts.top.full, tt)

pub two_chunks-NonzeroTree : NonzeroTree real_hash two_chunks
two_chunks-NonzeroTree =
    each_level AllNonzero (facts.first.nonzero, (facts.last.nonzero, tt)) (facts.top.nonzero, tt)
