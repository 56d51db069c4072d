-- ===== src/Stream/Accepted/Fields.antt =====
-- The fields of a tree and of a proof, read back from the bytes that are written.
use blake.Base.{ℕ, zero, suc, ◌+◌, ◌≤◌, ◌≡◌, refl, sym, ap, ◌∙◌, arith, List, [], ◌∷◌, ◌++◌}
use blake.Base.{
  take, drop, length, get_or, true, length-append, drop-append, take-append, drop-drop, take_all,
}
use blake.Word.{IsWord, byte_at, load64_le, store64_le}
use blake.Word.Endian.{load64_le-store64_le, length-store64_le, drop-store64_le}
use blake.Hasher.Serialize.{starts_with}
use blake.Hasher.Tree.Split.{concat}
use blake.Stream.Slices.{proof_magic, tree_magic}
use blake.Stream.Encoder.{tree_bytes}

get_or-drop : (n : ℕ) (xs : List ℕ) → get_or xs n 0 ≡ get_or (drop n xs) 0 0
get_or-drop zero xs = refl
get_or-drop (suc n) [] = refl
get_or-drop (suc n) (x ∷ xs) = get_or-drop n xs

-- What stands behind the first eight bytes of a proof.
module _ (r rest : List ℕ) (n first last k d : ℕ) (h : length r ≡ 64) where
  abbrev pub body : List ℕ
  body =
      r ++ (store64_le n ++ (store64_le first ++ (store64_le last ++ (store64_le k ++ d ∷ rest))))

  body_total :
      drop 64 body
      ≡ store64_le n ++ (store64_le first ++ (store64_le last ++ (store64_le k ++ d ∷ rest)))
  body_total = drop-append 64 r _ h

  body_first : drop 72 body ≡ store64_le first ++ (store64_le last ++ (store64_le k ++ d ∷ rest))
  body_first = sym (drop-drop 64 8 body) ∙ ap (drop 8) body_total ∙ drop-store64_le n _

  body_last : drop 80 body ≡ store64_le last ++ (store64_le k ++ d ∷ rest)
  body_last = sym (drop-drop 72 8 body) ∙ ap (drop 8) body_first ∙ drop-store64_le first _

  body_index : drop 88 body ≡ store64_le k ++ d ∷ rest
  body_index = sym (drop-drop 80 8 body) ∙ ap (drop 8) body_last ∙ drop-store64_le last _

  body_depth : drop 96 body ≡ d ∷ rest
  body_depth = sym (drop-drop 88 8 body) ∙ ap (drop 8) body_index ∙ drop-store64_le k _

  body_rows : drop 97 body ≡ rest
  body_rows = sym (drop-drop 96 1 body) ∙ ap (drop 1) body_depth

  length-body : length body ≡ 97 + length rest
  length-body = omega (
    arith,
    h,
    length-append r
        (store64_le n ++ (store64_le first ++ (store64_le last ++ (store64_le k ++ d ∷ rest)))),
    length-append (store64_le n)
        (store64_le first ++ (store64_le last ++ (store64_le k ++ d ∷ rest))),
    length-append (store64_le first) (store64_le last ++ (store64_le k ++ d ∷ rest)),
    length-append (store64_le last) (store64_le k ++ d ∷ rest),
    length-append (store64_le k) (d ∷ rest),
    length-store64_le n,
    length-store64_le first,
    length-store64_le last,
    length-store64_le k,
  )

  -- A proof as its header and its body.
  pub record Reads (p : List ℕ) : Type 0 where
    pub size : length p ≡ 105 + length rest
    pub magic : starts_with p proof_magic ≡ true
    pub version : byte_at p 4 ≡ 2
    pub root_hash : take 64 (drop 8 p) ≡ r
    pub total : load64_le (drop 72 p) ≡ n
    pub from : load64_le (drop 80 p) ≡ first
    pub to : load64_le (drop 88 p) ≡ last
    pub index : load64_le (drop 96 p) ≡ k
    pub depth : byte_at p 104 ≡ d
    pub rows : drop 105 p ≡ rest

  pub body-Reads :
      IsWord n → IsWord first → IsWord last → IsWord k → Reads (proof_magic ++ 2 ∷ 0 ∷ 0 ∷ 0 ∷ body)
  body-Reads hn hf hl hk = record {
    size = omega (arith, length-body);
    magic = refl;
    version = refl;
    root_hash = take-append 64 r _ h;
    total = ap load64_le body_total ∙ load64_le-store64_le n _ hn;
    from = ap load64_le body_first ∙ load64_le-store64_le first _ hf;
    to = ap load64_le body_last ∙ load64_le-store64_le last _ hl;
    index = ap load64_le body_index ∙ load64_le-store64_le k _ hk;
    depth = get_or-drop 96 body ∙ ap (λ (xs : List ℕ). get_or xs 0 0) body_depth;
    rows = body_rows;
  }

-- The header of a tree.
pub record ReadsTree (n : ℕ) (r tree : List ℕ) : Type 0 where
  pub size : 80 ≤ length tree
  pub magic : starts_with tree tree_magic ≡ true
  pub total : load64_le (drop 8 tree) ≡ n
  pub root_hash : take 64 (drop 16 tree) ≡ r

pub tree_bytes-ReadsTree :
    (n : ℕ) (r : List ℕ) (rows : List (List ℕ))
    → IsWord n
    → length r ≡ 64
    → ReadsTree n r (tree_bytes n r rows)
unfolding tree_bytes
tree_bytes-ReadsTree n r rows hn h =
    let whole : take 64 r ≡ r = take_all 64 r (omega (arith, h)) in
    let behind = take 64 r ++ concat rows in
    record {
      size = omega (
        arith,
        length-append (store64_le n) behind,
        length-store64_le n,
        length-append (take 64 r) (concat rows),
        ap length whole,
        h,
      );
      magic = refl;
      total = load64_le-store64_le n behind hn;
      root_hash =
          ap (take 64) (drop-store64_le n behind)
          ∙ take-append 64 (take 64 r) (concat rows) (ap length whole ∙ h)
          ∙ whole;
    }
