-- ===== src/Stream/Equal.antt =====
-- Comparison of byte strings, as memcmp in src/blake4_stream.c.
use blake.Base.{ℕ, ◌≡◌, ◌≢◌, ◌⊎◌, inl, inr, refl, sym, ap, ap₂, ◌∙◌, List, [], ◌∷◌}
use blake.Base.{true, ◌==◌, Bool-cases, ==→eq, ==_refl, and_true}
use blake.Stream.{bytes_eq}

pub bytes_eq_refl : (a : List ℕ) → bytes_eq a a ≡ true
bytes_eq_refl [] = refl
bytes_eq_refl (x ∷ a) = rw (==_refl x) (bytes_eq_refl a)

pub bytes_eq→eq : (a b : List ℕ) → bytes_eq a b ≡ true → a ≡ b
bytes_eq→eq [] [] e = refl
bytes_eq→eq [] (y ∷ b) e = absurd (cc)
bytes_eq→eq (x ∷ a) [] e = absurd (cc)
bytes_eq→eq (x ∷ a) (y ∷ b) e =
    let (head, tail) = and_true (x == y) (bytes_eq a b) e in
    ap₂ ◌∷◌ (==→eq x y head) (bytes_eq→eq a b tail)

-- Equal, or not equal.
pub lists-decide : (a b : List ℕ) → (a ≡ b) ⊎ (a ≢ b)
lists-decide a b = elim (Bool-cases (bytes_eq a b)) [
  | inl t ↦ inl (bytes_eq→eq a b t)
  | inr f ↦
      inr (λ e. let e' : bytes_eq a b ≡ true = ap (bytes_eq a) (sym e) ∙ bytes_eq_refl a in cc)
]
