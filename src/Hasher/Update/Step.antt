-- ===== src/Hasher/Update/Step.antt =====
-- Updates as a whole: the invariant in terms of the bytes absorbed so far, kept by every call.
use native.Mathlib.Decide.{dec_lt}
use blake.Base.{
  ℕ, zero, suc, ◌+◌, ◌-◌, ◌^◌, ◌≤◌, ◌<◌, ◌≡◌, ◌≢◌, refl, sym, ap, subst, ◌∙◌, arith, min,
}
use blake.Base.{
  List, [], ◌∷◌, ◌++◌, All, take, drop, length, length-append, length-take, length-drop,
}
use blake.Base.{Option, some, ne→not_==, eq→==}
use blake.Base.{append_assoc, append-nil, take-append-drop}
use blake.Word.{IsByte}
use blake.Word.Range.{All-append, All-append_right, All-take, All-drop}
use blake.Compress.{Compressor}
use blake.Hasher.{Blake4Hasher}
use blake.Hasher.Tree.Words.{IsCv, IsFlags}
use blake.Hasher.Tree.Split.{concat, concat-append, length-concat}
use blake.Hasher.Update.{
  flush_chunk, fill_chunk, update_round, update_loop, hasher_update, update_all,
}
use blake.Hasher.Update.Absorb.{Absorbed, fill_chunk-Absorbed, flush_chunk-Absorbed}

-- Every piece of an input consists of bytes.
abbrev pub AllBytes : List (List ℕ) → Type 0
AllBytes [] = Unit {0}
AllBytes (p ∷ ps) = All IsByte p × AllBytes ps

module _ (c : Compressor) (base : Blake4Hasher) where
  -- `h` has absorbed `bytes`: they are its full chunks and what is pending, and a full buffer is
  -- pushed only when more input comes.
  pub record Absorbs (bytes : List ℕ) (h : Blake4Hasher) : Type 0 where
    pub chunks : List (List ℕ)
    pub pending : List ℕ
    pub parts : Absorbed c base chunks pending h
    pub joined : concat chunks ++ pending ≡ bytes
    pub small : length pending ≤ 2048
    pub live : 0 < length chunks → 0 < length pending

  module _ (hk : IsCv base.key_words) (hf : IsFlags base.flags) where
    -- What a round does: it takes `k` bytes, one at least.
    record Round (bytes r : List ℕ) (out : Option (Blake4Hasher × List ℕ)) : Type 0 where
      k : ℕ
      h' : Blake4Hasher
      progress : 0 < k
      returns : out ≡ some (h', drop k r)
      absorbs : Absorbs (bytes ++ take k r) h'

    round_room :
        (h : Blake4Hasher) (r : List ℕ)
        → h.chunk_buf_len ≢ 2048
        → update_round c h r ≡ fill_chunk h r
    unfolding update_round
    round_room h r ne = rw (ne→not_== h.chunk_buf_len 2048 ne)

    round_full :
        (h : Blake4Hasher) (r : List ℕ) {h' : Blake4Hasher}
        → h.chunk_buf_len ≡ 2048
        → flush_chunk c h ≡ some h'
        → update_round c h r ≡ fill_chunk h' r
    unfolding update_round
    round_full h r e flushed = rw (eq→== h.chunk_buf_len 2048 e, flushed)

    buf_len-Absorbs :
        (bytes : List ℕ) (h : Blake4Hasher) (a : Absorbs bytes h)
        → h.chunk_buf_len ≡ length a.pending
    buf_len-Absorbs bytes h a = ap (λ (x : Blake4Hasher). x.chunk_buf_len) a.parts.state

    fill_Round :
        (bytes r : List ℕ) (h : Blake4Hasher) (a : Absorbs bytes h)
        → 0 < length r
        → length a.pending < 2048
        → Round bytes r (update_round c h r)
    fill_Round bytes r h a some_left room =
        let k = min (2048 - length a.pending) (length r) in
        let (h', filled, parts) =
          fill_chunk-Absorbed c base a.chunks a.pending r h k a.parts (omega arith) refl in
        let size = length-append a.pending (take k r) in
        record {
          k = k;
          h' = h';
          progress = omega arith;
          returns = round_room h r (λ e. omega (arith, buf_len-Absorbs bytes h a)) ∙ filled;
          absorbs = record {
            chunks = a.chunks;
            pending = a.pending ++ take k r;
            parts = parts;
            joined =
                sym (append_assoc (concat a.chunks) a.pending (take k r))
                ∙ ap (λ z. z ++ take k r) a.joined;
            small = omega (arith, length-take k r);
            live = λ p. omega (arith, length-take k r);
          };
        }

    flush_Round :
        (bytes r : List ℕ) (h : Blake4Hasher) (a : Absorbs bytes h)
        → All IsByte bytes
        → length bytes < 2 ^ 64
        → 0 < length r
        → length a.pending ≡ 2048
        → Round bytes r (update_round c h r)
    flush_Round bytes r h a hb lt some_left full =
        let pending_bytes : All IsByte a.pending =
          All-append_right IsByte (concat a.chunks) a.pending
            (subst (λ z. All IsByte z) (sym a.joined) hb) in
        let count : length a.chunks + 1 < 2 ^ 54 = omega (
          arith,
          ap length a.joined,
          length-append (concat a.chunks) a.pending,
          length-concat a.chunks a.parts.full,
        ) in
        let (h1, flushed, parts1) =
          flush_chunk-Absorbed c base a.chunks a.pending h hk hf a.parts full pending_bytes count in
        let k = min 2048 (length r) in
        let (h', filled, parts) =
          fill_chunk-Absorbed c base (a.chunks ++ a.pending ∷ []) [] r h1 k parts1 (omega arith)
            refl in
        record {
          k = k;
          h' = h';
          progress = omega arith;
          returns = round_full h r (buf_len-Absorbs bytes h a ∙ full) flushed ∙ filled;
          absorbs = record {
            chunks = a.chunks ++ a.pending ∷ [];
            pending = take k r;
            parts = parts;
            joined = ap (λ z. z ++ take k r) (concat-append a.chunks a.pending ∙ a.joined);
            small = omega (arith, length-take k r);
            live = λ p. omega (arith, length-take k r);
          };
        }

    update_round-Round :
        (bytes r : List ℕ) (h : Blake4Hasher)
        → Absorbs bytes h
        → All IsByte bytes
        → length bytes < 2 ^ 64
        → 0 < length r
        → Round bytes r (update_round c h r)
    update_round-Round bytes r h a hb lt some_left = elim (dec_lt (length a.pending) 2048) [
      | yes room ↦ fill_Round bytes r h a some_left room
      | no full ↦ flush_Round bytes r h a hb lt some_left (omega (arith, a.small))
    ]

    loop_step :
        (fuel : ℕ) (h : Blake4Hasher) (x : ℕ) (r : List ℕ) {h' : Blake4Hasher} {rest : List ℕ}
        → update_round c h (x ∷ r) ≡ some (h', rest)
        → update_loop c (suc fuel) h (x ∷ r) ≡ update_loop c fuel h' rest
    unfolding update_loop
    loop_step fuel h x r e = rw e

    update_loop-Absorbs :
        (fuel : ℕ) (bytes r : List ℕ) (h : Blake4Hasher)
        → Absorbs bytes h
        → All IsByte bytes
        → All IsByte r
        → length r ≤ fuel
        → length bytes + length r < 2 ^ 64
        → (h' : Blake4Hasher) × (update_loop c fuel h r ≡ some h') × Absorbs (bytes ++ r) h'
    update_loop-Absorbs fuel bytes [] h a hb hr enough lt =
        (h, unfold update_loop in refl, subst (λ z. Absorbs z h) (sym (append-nil bytes)) a)
    update_loop-Absorbs zero bytes (x ∷ r) h a hb hr enough lt = absurd (omega arith)
    update_loop-Absorbs (suc fuel) bytes (x ∷ r) h a hb hr enough lt =
        let s = update_round-Round bytes (x ∷ r) h a hb (omega arith) (omega arith) in
        let now = take s.k (x ∷ r) in
        let later = drop s.k (x ∷ r) in
        let joined : (bytes ++ now) ++ later ≡ bytes ++ x ∷ r =
          append_assoc bytes now later ∙ ap (λ z. bytes ++ z) (take-append-drop s.k (x ∷ r)) in
        let (h', looped, absorbs) =
          update_loop-Absorbs fuel (bytes ++ now) later s.h' s.absorbs
            (All-append IsByte bytes now hb (All-take IsByte s.k (x ∷ r) hr))
            (All-drop IsByte s.k (x ∷ r) hr) (omega (arith, length-drop s.k (x ∷ r), s.progress))
            (omega (
              arith,
              ap length joined,
              length-append (bytes ++ now) later,
              length-append bytes (x ∷ r),
            )) in
        (h', loop_step fuel h x r s.returns ∙ looped, subst (λ z. Absorbs z h') joined absorbs)

    -- An update of a hasher that has absorbed some bytes returns, and the hasher it returns has
    -- absorbed those bytes and then the new ones: full chunks are on the stack as trees, the rest
    -- is in the chunk buffer, and a full buffer waits for more input. The key is eight words, the
    -- flags a byte, and the bytes are fewer than 2^64 in all.
    pub hasher_update-Absorbs :
        (bytes r : List ℕ) (h : Blake4Hasher)
        → Absorbs bytes h
        → All IsByte bytes
        → All IsByte r
        → length bytes + length r < 2 ^ 64
        → (h' : Blake4Hasher) × (hasher_update c h r ≡ some h') × Absorbs (bytes ++ r) h'
    unfolding hasher_update
    hasher_update-Absorbs bytes r h a hb hr lt =
        update_loop-Absorbs (length r) bytes r h a hb hr (omega arith) lt

    pub update_all-Absorbs :
        (pieces : List (List ℕ)) (bytes : List ℕ) (h : Blake4Hasher)
        → Absorbs bytes h
        → All IsByte bytes
        → AllBytes pieces
        → length bytes + length (concat pieces) < 2 ^ 64
        → (h' : Blake4Hasher) × (update_all c h pieces ≡ some h')
          × Absorbs (bytes ++ concat pieces) h'
    unfolding update_all
    update_all-Absorbs [] bytes h a hb hp lt =
        (h, refl, subst (λ z. Absorbs z h) (sym (append-nil bytes)) a)
    update_all-Absorbs (p ∷ ps) bytes h a hb hp lt =
        let size = length-append p (concat ps) in
        let (h1, updated, a1) = hasher_update-Absorbs bytes p h a hb hp.0 (omega (arith, size)) in
        let (h', rest, a') =
          update_all-Absorbs ps (bytes ++ p) h1 a1 (All-append IsByte bytes p hb hp.0) hp.1
            (omega (arith, size, length-append bytes p)) in
        (h', rw updated rest, subst (λ z. Absorbs z h') (append_assoc bytes p (concat ps)) a')
