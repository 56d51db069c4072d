-- ===== src/Hasher/Api/Signatures/Domains.antt =====
-- The contexts of hbs_h and hbs_h_msg are not free of prefixes.
use blake.Base.{ℕ, ◌≡◌, refl, sym, ap, ◌∙◌, arith}
use blake.Base.{List, [], ◌∷◌, ◌++◌, All, length, take, drop, some}
use blake.Base.{length-append, length-take, length-drop, take-append-drop, take_all, append-nil}
use blake.Base.{drop-drop}
use blake.Word.{IsByte}
use blake.Word.Range.{All-take, All-drop}
use blake.Compress.{Compressor, iv}
use blake.Hasher.Tree.{hash_spec}
use blake.Hasher.Tree.Split.{concat}
use blake.Hasher.Api.{hbs_context_h, hbs_h, hbs_h_msg}
use blake.Hasher.Api.Correct.{concat-bytes}
use blake.Hasher.Api.Pieces.{all_bytes_lem}
use blake.Hasher.Api.Signatures.{hbs_h-hash_spec, hbs_h_msg-hash_spec}

module _ (c : Compressor) where
  -- The context string of `hbs_h` begins that of `hbs_h_msg`: what is left of it, "msg", and the
  -- arguments of `hbs_h_msg` can be cut into arguments of `hbs_h`.
  abbrev pub h_msg_tail : List ℕ → List ℕ → List ℕ → List ℕ → List ℕ
  h_msg_tail r pub_seed pub_root message =
      concat
        ((109 ∷ 115 ∷ 103 ∷ []) ∷ take 64 r ∷ take 64 pub_seed ∷ take 64 pub_root ∷ message ∷ [])

  h_msg_tail-length :
      (r pub_seed pub_root message : List ℕ)
      → length r ≡ 64
      → length pub_seed ≡ 64
      → length pub_root ≡ 64
      → length message ≡ 29
      → length (h_msg_tail r pub_seed pub_root message) ≡ 224
  h_msg_tail-length r pub_seed pub_root message lr ls lo lm = omega (
    arith,
    length-append (take 64 r) (take 64 pub_seed ++ (take 64 pub_root ++ (message ++ []))),
    length-append (take 64 pub_seed) (take 64 pub_root ++ (message ++ [])),
    length-append (take 64 pub_root) (message ++ []),
    length-append message [],
    length-take 64 r,
    length-take 64 pub_seed,
    length-take 64 pub_root,
  )

  h_msg_tail-bytes :
      (r pub_seed pub_root message : List ℕ)
      → All IsByte r
      → All IsByte pub_seed
      → All IsByte pub_root
      → All IsByte message
      → All IsByte (h_msg_tail r pub_seed pub_root message)
  h_msg_tail-bytes r pub_seed pub_root message hr hs ho hm =
      concat-bytes
        ((109 ∷ 115 ∷ 103 ∷ []) ∷ take 64 r ∷ take 64 pub_seed ∷ take 64 pub_root ∷ message ∷ [])
        (
          all_bytes_lem (109 ∷ 115 ∷ 103 ∷ []) refl,
          (
            All-take IsByte 64 r hr,
            (All-take IsByte 64 pub_seed hs, (All-take IsByte 64 pub_root ho, (hm, tt))),
          ),
        )

  cut_five :
      (x : List ℕ)
      → length x ≡ 224
      → concat (take 64 x ∷ take 32 (drop 64 x) ∷ take 64 (drop 96 x) ∷ take 64 (drop 160 x) ∷ [])
        ≡ x
  cut_five x e =
      let last : take 64 (drop 160 x) ++ [] ≡ drop 160 x =
        append-nil (take 64 (drop 160 x))
        ∙ take_all 64 (drop 160 x) (omega (arith, length-drop 160 x)) in
      let third : take 64 (drop 96 x) ++ drop 160 x ≡ drop 96 x =
        ap (λ z. take 64 (drop 96 x) ++ z) (sym (drop-drop 96 64 x))
        ∙ take-append-drop 64 (drop 96 x) in
      let second : take 32 (drop 64 x) ++ drop 96 x ≡ drop 64 x =
        ap (λ z. take 32 (drop 64 x) ++ z) (sym (drop-drop 64 32 x))
        ∙ take-append-drop 32 (drop 64 x) in
      ap (λ z. take 64 x ++ (take 32 (drop 64 x) ++ z))
        (ap (λ z. take 64 (drop 96 x) ++ z) last ∙ third)
      ∙ ap (λ z. take 64 x ++ z) second
      ∙ take-append-drop 64 x

  -- With a message of 29 bytes and three arguments of 64, blake4_hbs_h_msg for 64 bytes of output
  -- equals blake4_hbs_h on a seed, an address and two nodes cut from "msg" and the same arguments:
  -- the two contexts do not separate their domains.
  pub hbs_h_msg-hbs_h :
      (r pub_seed pub_root message : List ℕ)
      → All IsByte r
      → All IsByte pub_seed
      → All IsByte pub_root
      → All IsByte message
      → length r ≡ 64
      → length pub_seed ≡ 64
      → length pub_root ≡ 64
      → length message ≡ 29
      → (let x = h_msg_tail r pub_seed pub_root message in
          hbs_h_msg c r pub_seed pub_root message 64
          ≡ hbs_h c x (drop 64 x) (drop 96 x) (drop 160 x))
  hbs_h_msg-hbs_h r pub_seed pub_root message hr hs ho hm lr ls lo lm =
      let x = h_msg_tail r pub_seed pub_root message in
      let size : length x ≡ 224 = h_msg_tail-length r pub_seed pub_root message lr ls lo lm in
      let xb : All IsByte x = h_msg_tail-bytes r pub_seed pub_root message hr hs ho hm in
      hbs_h_msg-hash_spec c r pub_seed pub_root message 64 hr hs ho hm (omega (arith, size))
        (omega arith)
      ∙ ap (λ z. some (hash_spec c iv 0 (hbs_context_h ++ z) 0 64)) (sym (cut_five x size))
      ∙ sym (
          hbs_h-hash_spec c x (drop 64 x) (drop 96 x) (drop 160 x) xb (All-drop IsByte 64 x xb)
            (All-drop IsByte 96 x xb) (All-drop IsByte 160 x xb))
