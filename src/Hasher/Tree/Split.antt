-- ===== src/Hasher/Tree/Split.antt =====
-- Full chunks and a last one are what the split of their concatenation gives back.
use blake.Base.{ℕ, zero, suc, ◌+◌, ◌*◌, ◌≤◌, ◌<◌, ◌≡◌, refl, sym, ap, ◌∙◌, arith}
use blake.Base.{List, [], ◌∷◌, ◌++◌, length, length-append, take-append, drop-append}
use blake.Base.{lt→ltb, le→not_ltb, append_assoc, append-nil}
use blake.Merkle.{leaf}
use blake.Hasher.Tree.{number, split_within, split}

abbrev pub concat : List (List ℕ) → List ℕ
concat [] = []
concat (xs ∷ xss) = xs ++ concat xss

abbrev pub AllFull : List (List ℕ) → Type 0
AllFull [] = Unit {0}
AllFull (xs ∷ xss) = (length xs ≡ 2048) × AllFull xss

pub length-concat :
    (chunks : List (List ℕ)) → AllFull chunks → length (concat chunks) ≡ 2048 * length chunks
length-concat [] h = omega arith
length-concat (xs ∷ xss) h =
    omega (arith, length-append xs (concat xss), length-concat xss h.1, h.0)

pub concat-append :
    (chunks : List (List ℕ)) (last : List ℕ) → concat (chunks ++ last ∷ []) ≡ concat chunks ++ last
concat-append [] last = append-nil last
concat-append (xs ∷ xss) last =
    ap (λ r. xs ++ r) (concat-append xss last) ∙ sym (append_assoc xs (concat xss) last)

pub AllFull-append :
    (chunks : List (List ℕ)) (last : List ℕ)
    → AllFull chunks
    → length last ≡ 2048
    → AllFull (chunks ++ last ∷ [])
AllFull-append [] last h e = (e, tt)
AllFull-append (xs ∷ xss) last h e = (h.0, AllFull-append xss last h.1 e)

pub number-append :
    (i : ℕ) (chunks : List (List ℕ)) (last : List ℕ)
    → number i (chunks ++ last ∷ []) ≡ number i chunks ++ leaf (i + length chunks, last) ∷ []
number-append i [] last = ap (λ n. leaf (n, last) ∷ []) (omega arith)
number-append i (xs ∷ xss) last =
    ap (λ r. leaf (i, xs) ∷ r)
      (number-append (i + 1) xss last
        ∙ ap (λ n. number (i + 1) xss ++ leaf (n, last) ∷ []) (omega arith))

pub number-append_zero :
    (chunks : List (List ℕ)) (last : List ℕ)
    → number 0 (chunks ++ last ∷ []) ≡ number 0 chunks ++ leaf (length chunks, last) ∷ []
number-append_zero chunks last =
    number-append 0 chunks last
    ∙ ap (λ n. number 0 chunks ++ leaf (n, last) ∷ []) {x = 0 + length chunks} (omega arith)

pub length-number : (i : ℕ) (chunks : List (List ℕ)) → length (number i chunks) ≡ length chunks
length-number i [] = refl
length-number i (xs ∷ xss) = ap suc (length-number (i + 1) xss)

longer :
    (xs : List ℕ) (xss : List (List ℕ)) (last : List ℕ)
    → length xs ≡ 2048
    → (0 < suc (length xss) → 0 < length last)
    → 2048 < length (xs ++ (concat xss ++ last))
longer xs xss last e live = omega (
  arith,
  live (omega arith),
  length-append xs (concat xss ++ last),
  length-append (concat xss) last,
)

split_within_lem :
    (fuel : ℕ) (chunks : List (List ℕ)) (last : List ℕ)
    → AllFull chunks
    → length last ≤ 2048
    → (0 < length chunks → 0 < length last)
    → length chunks ≤ fuel
    → split_within fuel (concat chunks ++ last) ≡ chunks ++ last ∷ []
split_within_lem zero [] last h le live enough = refl
split_within_lem (suc fuel) [] last h le live enough = rw (le→not_ltb 2048 (length last) le)
split_within_lem zero (xs ∷ xss) last h le live enough = absurd (omega arith)
split_within_lem (suc fuel) (xs ∷ xss) last h le live enough =
    rw
      (
        append_assoc xs (concat xss) last,
        lt→ltb 2048 (length (xs ++ (concat xss ++ last))) (longer xs xss last h.0 live),
        take-append 2048 xs (concat xss ++ last) h.0,
        drop-append 2048 xs (concat xss ++ last) h.0,
      )
      (ap (λ r. xs ∷ r)
        (split_within_lem fuel xss last h.1 le (λ p. live (omega arith)) (omega arith)))

-- The last chunk is empty only if there is no other, and all others are full: then the split finds
-- exactly these chunks.
pub split-concat :
    (chunks : List (List ℕ)) (last : List ℕ)
    → AllFull chunks
    → length last ≤ 2048
    → (0 < length chunks → 0 < length last)
    → split (concat chunks ++ last) ≡ chunks ++ last ∷ []
split-concat chunks last h le live =
    split_within_lem (length (concat chunks ++ last)) chunks last h le live
      (omega (arith, length-append (concat chunks) last, length-concat chunks h))
