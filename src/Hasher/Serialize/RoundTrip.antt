-- ===== src/Hasher/Serialize/RoundTrip.antt =====
-- A saved hasher is loaded back as it was.
use blake.Base.{ℕ, ◌+◌, ◌*◌, ◌^◌, ◌≤◌, ◌≡◌, refl, sym, ap, ap₂, ◌∙◌, arith}
use blake.Base.{bit_or, List, [], ◌∷◌, ◌++◌, drop, length, append_assoc}
use blake.Base.{some}
use blake.Base.{memcpy_fits, splice, le→not_ltb, take_all, take-append, drop-append, length-append}
use blake.Bits.Fields.{bit_or_low_high}
use blake.Word.{IsWord, u8, shr, store64_le, load_words, words_to_bytes}
use blake.Word.Endian.{
  load_words-words_to_bytes, length-words_to_bytes, load64_le-store64_le, drop-store64_le,
  length-store64_le,
}
use blake.Hasher.{Blake4Hasher}
use blake.Hasher.Tree.Words.{IsCv}
use blake.Hasher.Tree.Split.{concat}
use blake.Hasher.Serialize.{
  serialize_magic, serialized_size, serialized, hasher_serialize, load_rows, load_head, load_chunk,
  load_stack, load_fields, hasher_deserialize,
}

-- Rows of 64 bytes.
abbrev pub AllRows : List (List ℕ) → Type 0
AllRows [] = Unit {0}
AllRows (r ∷ rs) = (length r ≡ 64) × AllRows rs

-- Every field has the size of its type, and the three lengths are in range.
pub record IsStored (h : Blake4Hasher) : Type 0 where
  pub cv : IsCv h.cv
  pub key : IsCv h.key_words
  pub counter : IsWord h.chunk_counter
  pub buf : length h.buf ≡ 128
  pub buf_len : h.buf_len ≤ 128
  pub chunk_buf : length h.chunk_buf ≡ 2048
  pub chunk_buf_len : h.chunk_buf_len ≤ 2048
  pub rows : length h.cv_stack ≡ 54
  pub row_size : AllRows h.cv_stack
  pub cv_stack_len : h.cv_stack_len ≤ 54

load_cv : (ws rest : List ℕ) → IsCv ws → load_words 8 (words_to_bytes ws ++ rest) ≡ ws
load_cv ws rest h =
    ap (λ k. load_words k (words_to_bytes ws ++ rest)) (sym h.0)
    ∙ load_words-words_to_bytes ws rest h.1

drop_cv : (ws rest : List ℕ) → IsCv ws → drop 64 (words_to_bytes ws ++ rest) ≡ rest
drop_cv ws rest h =
    drop-append 64 (words_to_bytes ws) rest (omega (arith, length-words_to_bytes ws, h.0))

pub load_rows-concat :
    (rows : List (List ℕ)) (rest : List ℕ)
    → AllRows rows
    → load_rows (length rows) (concat rows ++ rest) ≡ rows
unfolding load_rows
load_rows-concat [] rest h = refl
load_rows-concat (r ∷ rs) rest h = rw (append_assoc r (concat rs) rest) (
    ap₂ ◌∷◌ (take-append 64 r (concat rs ++ rest) h.0) (
      ap (load_rows (length rs)) (drop-append 64 r (concat rs ++ rest) h.0)
      ∙ load_rows-concat rs rest h.1))

pub length-concat-rows :
    (rows : List (List ℕ)) → AllRows rows → length (concat rows) ≡ 64 * length rows
length-concat-rows [] h = omega arith
length-concat-rows (r ∷ rs) h =
    omega (arith, length-append r (concat rs), length-concat-rows rs h.1, h.0)

load_head_lem :
    (self : Blake4Hasher) (cv key b : List ℕ) (counter n : ℕ) (rest : List ℕ)
    → IsCv cv
    → IsCv key
    → IsWord counter
    → length b ≡ 128
    → load_head self
        (words_to_bytes cv ++ (words_to_bytes key ++ (store64_le counter ++ (b ++ n ∷ rest))))
      ≡ (
        record self { cv = cv; key_words = key; chunk_counter = counter; buf = b; buf_len = n },
        rest,
      )
unfolding load_head
load_head_lem self cv key b counter n rest hc hk hw hb =
    let r4 = n ∷ rest in
    let r3 = b ++ r4 in
    let r2 = store64_le counter ++ r3 in
    let r1 = words_to_bytes key ++ r2 in
    rw (
      drop_cv cv r1 hc,
      drop_cv key r2 hk,
      drop-store64_le counter r3,
      drop-append 128 b r4 hb,
      load_cv cv r1 hc,
      load_cv key r2 hk,
      load64_le-store64_le counter r3 hw,
      take-append 128 b r4 hb,
    )

load_chunk_lem :
    (self : Blake4Hasher) (b : List ℕ) (n : ℕ) (rest : List ℕ)
    → length b ≡ 2048
    → n ≤ 2048
    → load_chunk self (b ++ u8 n ∷ u8 (shr n 8) ∷ rest)
      ≡ (record self { chunk_buf = b; chunk_buf_len = n }, rest)
unfolding load_chunk
load_chunk_lem self b n rest hb hn =
    let r = u8 n ∷ u8 (shr n 8) ∷ rest in
    let joined : bit_or (u8 n) (u8 (shr n 8) * 2 ^ 8) ≡ n =
      bit_or_low_high 8 (u8 n) (u8 (shr n 8)) (omega arith) ∙ omega arith in
    rw (drop-append 2048 b r hb, take-append 2048 b r hb, joined)

load_stack_lem :
    (self : Blake4Hasher) (rows : List (List ℕ)) (n : ℕ) (rest : List ℕ)
    → length rows ≡ 54
    → AllRows rows
    → load_stack self (concat rows ++ n ∷ rest)
      ≡ (record self { cv_stack = rows; cv_stack_len = n }, rest)
unfolding load_stack
load_stack_lem self rows n rest hr h =
    let loaded : load_rows 54 (concat rows ++ n ∷ rest) ≡ rows =
      ap (λ k. load_rows k (concat rows ++ n ∷ rest)) (sym hr)
      ∙ load_rows-concat rows (n ∷ rest) h in
    rw (
      loaded,
      drop-append (54 * 64) (concat rows) (n ∷ rest) (omega (arith, length-concat-rows rows h)),
    )

-- The fields as they lie in the buffer, and what follows them.
abbrev layout : Blake4Hasher → List ℕ → List ℕ
layout h z =
    words_to_bytes h.cv
    ++ (words_to_bytes h.key_words
        ++ (store64_le h.chunk_counter
            ++ (h.buf
                ++ h.buf_len
                  ∷ (h.chunk_buf
                      ++ u8 h.chunk_buf_len
                        ∷ u8 (shr h.chunk_buf_len 8)
                        ∷ (concat h.cv_stack ++ h.cv_stack_len ∷ h.flags ∷ z)))))

load_fields-layout :
    (h old : Blake4Hasher) (z : List ℕ) → IsStored h → load_fields old (layout h z) ≡ (1, h)
unfolding load_fields
load_fields-layout h old z s =
    let tail3 = h.flags ∷ z in
    let tail2 = concat h.cv_stack ++ h.cv_stack_len ∷ tail3 in
    let tail1 = h.chunk_buf ++ u8 h.chunk_buf_len ∷ u8 (shr h.chunk_buf_len 8) ∷ tail2 in
    let h1 : Blake4Hasher = record old {
      cv = h.cv;
      key_words = h.key_words;
      chunk_counter = h.chunk_counter;
      buf = h.buf;
      buf_len = h.buf_len;
    } in
    let h2 : Blake4Hasher = record h1 {
      chunk_buf = h.chunk_buf;
      chunk_buf_len = h.chunk_buf_len;
    } in
    rw (
      load_head_lem old h.cv h.key_words h.buf h.chunk_counter h.buf_len tail1 s.cv s.key s.counter
          s.buf,
      load_chunk_lem h1 h.chunk_buf h.chunk_buf_len tail2 s.chunk_buf s.chunk_buf_len,
      load_stack_lem h2 h.cv_stack h.cv_stack_len tail3 s.rows s.row_size,
      le→not_ltb 128 h.buf_len s.buf_len,
      le→not_ltb 2048 h.chunk_buf_len s.chunk_buf_len,
      le→not_ltb 54 h.cv_stack_len s.cv_stack_len,
    )

serialized-layout :
    (h : Blake4Hasher) (z : List ℕ) → IsStored h → serialized h ++ z ≡ serialize_magic ++ layout h z
unfolding serialized
serialized-layout h z s =
    rw
      (
        take_all 8 h.cv (omega (arith, s.cv.0)),
        take_all 8 h.key_words (omega (arith, s.key.0)),
        take_all 128 h.buf (omega (arith, s.buf)),
        take_all 2048 h.chunk_buf (omega (arith, s.chunk_buf)),
        take_all (54 * 64) (concat h.cv_stack)
            (omega (arith, length-concat-rows h.cv_stack s.row_size, s.rows)),
      )
      (simp append_assoc)

length-serialized : (h : Blake4Hasher) → IsStored h → length (serialized h) ≡ serialized_size
length-serialized h s =
    let stack_part = concat h.cv_stack ++ h.cv_stack_len ∷ h.flags ∷ [] in
    let chunk_part = h.chunk_buf ++ u8 h.chunk_buf_len ∷ u8 (shr h.chunk_buf_len 8) ∷ stack_part in
    let buf_part = h.buf ++ h.buf_len ∷ chunk_part in
    let counter_part = store64_le h.chunk_counter ++ buf_part in
    let key_part = words_to_bytes h.key_words ++ counter_part in
    omega (
      arith,
      length-append (serialized h) [],
      ap length (serialized-layout h [] s),
      length-append (words_to_bytes h.cv) key_part,
      length-words_to_bytes h.cv,
      length-append (words_to_bytes h.key_words) counter_part,
      length-words_to_bytes h.key_words,
      length-append (store64_le h.chunk_counter) buf_part,
      length-store64_le h.chunk_counter,
      length-append h.buf (h.buf_len ∷ chunk_part),
      length-append h.chunk_buf (u8 h.chunk_buf_len ∷ u8 (shr h.chunk_buf_len 8) ∷ stack_part),
      length-append (concat h.cv_stack) (h.cv_stack_len ∷ h.flags ∷ []),
      length-concat-rows h.cv_stack s.row_size,
      s.cv.0,
      s.key.0,
      s.buf,
      s.chunk_buf,
      s.rows,
    )

-- A hasher whose fields have their sizes and whose lengths are in range, saved into a buffer of at
-- least 5781 bytes: the save returns 5781, and loading the buffer over any hasher returns 1 and
-- leaves exactly the saved hasher.
pub hasher_deserialize-serialize :
    (h old : Blake4Hasher) (buf : List ℕ) (n : ℕ)
    → IsStored h
    → length buf ≡ n
    → serialized_size ≤ n
    → (after : List ℕ) × (hasher_serialize (some h) (some buf) n
        ≡ some (serialized_size, some after))
      × (hasher_deserialize (some old) (some after) n ≡ (1, some h))
unfolding hasher_serialize hasher_deserialize
hasher_deserialize-serialize h old buf n s e enough =
    let size = length-serialized h s in
    let after = splice buf 0 (serialized h) in
    let rest = drop (0 + length (serialized h)) buf in
    (
      after,
      rw (
        le→not_ltb n serialized_size enough,
        memcpy_fits buf 0 (serialized h) (omega (arith, size)),
      ),
      rw (
        le→not_ltb n serialized_size enough,
        serialized-layout h rest s,
        load_fields-layout h old rest s,
      ),
    )
