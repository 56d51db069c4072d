-- ===== src/Base/Memory.antt =====
-- Copies into C arrays. A copy that would leave the array is a fault, `none`.
use Prim.Native.Nat.{ℕ, zero, suc, ◌+◌, ◌-◌, ◌%◌, ◌^◌, ◌≤◌, ◌<◌, min}
use mathlib.Core.Path.{◌≡◌, refl, sym, ◌∙◌, ap, ap₂}
use mathlib.Core.List.{List, ◌++◌}
use mathlib.Core.Option.{Option, none, some}
use native.Mathlib.Omega.{arith}
use blake.Base.Tests.{leb, ltb, if◌then◌else◌}
use blake.Base.Lists.{
  length, take, drop, length-append, length-take, length-drop, take-append, replicate,
}
use blake.Base.Lists.{drop-append, drop-drop}

infixl 5 ◌>>=◌
abbrev pub ◌>>=◌ {ℓ κ} : {A : Type ℓ} {B : Type κ} → Option A → (A → Option B) → Option B
none >>= f = none
some a >>= f = f a

module _ {ℓ} {A : Type ℓ} where
  -- `dst` with `src` written over it from index `off` on.
  abbrev pub splice : List A → ℕ → List A → List A
  splice dst off src = take off dst ++ (src ++ drop (off + length src) dst)

  -- `memcpy(dst + off, src, length src)`
  unfoldable pub memcpy : List A → ℕ → List A → Option (List A)
  memcpy dst off src =
      if leb (off + length src) (length dst) then some (splice dst off src) else none

  pub memcpy_fits :
      (dst : List A) (off : ℕ) (src : List A)
      → off + length src ≤ length dst
      → memcpy dst off src ≡ some (splice dst off src)
  unfolding memcpy
  memcpy_fits dst off src h = ground arith

  pub length-splice :
      (dst : List A) (off : ℕ) (src : List A)
      → off + length src ≤ length dst
      → length (splice dst off src) ≡ length dst
  length-splice dst off src h = omega (
    arith,
    length-append (take off dst) (src ++ drop (off + length src) dst),
    length-append src (drop (off + length src) dst),
    length-take off dst,
    length-drop (off + length src) dst,
  )

  -- A write behind a prefix keeps the prefix.
  pub splice_behind :
      (p z src : List A) → splice (p ++ z) (length p) src ≡ p ++ (src ++ drop (length src) z)
  splice_behind p z src = ap₂ ◌++◌ (take-append (length p) p z refl) (
      ap (λ r. src ++ r)
        (sym (drop-drop (length p) (length src) (p ++ z))
          ∙ ap (drop (length src)) (drop-append (length p) p z refl)))

  pub drop-replicate : (k m : ℕ) (a : A) → drop k (replicate m a) ≡ replicate (m - k) a
  drop-replicate zero m a = ap (λ n. replicate n a) (omega arith)
  drop-replicate (suc k) zero a = ap (λ n. replicate n a) {x = 0} (omega arith)
  drop-replicate (suc k) (suc m) a =
      drop-replicate k m a ∙ ap (λ n. replicate n a) {x = m - k} (omega arith)

-- `size_t` subtraction wraps.
abbrev pub sub_size : ℕ → ℕ → ℕ
sub_size a b = (a + 2 ^ 64 - b) % 2 ^ 64

-- What a buffer of `cap` entries with `used` of them taken accepts of `n` more:
-- `want = cap - used; take = (want < n) ? want : n`.
abbrev pub fit_count : ℕ → ℕ → ℕ → ℕ
fit_count cap used n = if ltb (sub_size cap used) n then sub_size cap used else n

pub fit_count_lem :
    (cap used n : ℕ) → used ≤ cap → cap < 2 ^ 64 → fit_count cap used n ≡ min (cap - used) n
fit_count_lem cap used n h k = ground arith
