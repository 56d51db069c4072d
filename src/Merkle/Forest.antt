-- ===== src/Merkle/Forest.antt =====
-- The stack that the counter keeps, as a relation to the leaves that were pushed: one complete
-- subtree for each binary digit of their number.
use native.Mathlib.Nat.{pow-suc}
use blake.Base.{ℕ, zero, suc, ◌+◌, ◌*◌, ◌^◌, ◌≤◌, ◌≡◌, refl, ap, ◌∙◌, arith}
use blake.Base.{List, [], ◌∷◌, ◌++◌, length, length-append}
use blake.Merkle.{pair_up, levels, finish}

module _ {ℓ} {A : Type ℓ} where
  -- The leaves of a list of pairs.
  abbrev pub unpair : List (A × A) → List A
  unpair [] = []
  unpair ((x, y) ∷ ps) = x ∷ y ∷ unpair ps

  pub unpair-append :
      (ps : List (A × A)) (x y : A) → unpair (ps ++ (x, y) ∷ []) ≡ (unpair ps ++ x ∷ []) ++ y ∷ []
  unpair-append [] x y = refl
  unpair-append ((u, v) ∷ ps) x y = ap (λ r. u ∷ v ∷ r) (unpair-append ps x y)

  pub length-unpair : (ps : List (A × A)) → length (unpair ps) ≡ 2 * length ps
  length-unpair [] = omega arith
  length-unpair ((x, y) ∷ ps) = omega (arith, length-unpair ps)

module _ {ℓ} {A : Type ℓ} (combine : A → A → A) where
  -- The combined pairs.
  abbrev pub join : List (A × A) → List A
  join [] = []
  join ((x, y) ∷ ps) = combine x y ∷ join ps

  pub join-append :
      (ps : List (A × A)) (x y : A) → join (ps ++ (x, y) ∷ []) ≡ join ps ++ combine x y ∷ []
  join-append [] x y = refl
  join-append ((u, v) ∷ ps) x y = ap (λ r. combine u v ∷ r) (join-append ps x y)

  pub length-join : (ps : List (A × A)) → length (join ps) ≡ length ps
  length-join [] = refl
  length-join ((x, y) ∷ ps) = ap suc (length-join ps)

  -- `Forest xs stack`: pushing the leaves `xs` leaves `stack`, the newest subtree first.
  pub data Forest : List A → List A → Type ℓ where
    start : Forest [] []
    even :
        {xs stack : List A} (ps : List (A × A))
        → xs ≡ unpair ps
        → Forest (join ps) stack
        → Forest xs stack
    odd :
        {xs stack : List A} (ps : List (A × A)) (y : A)
        → xs ≡ unpair ps ++ y ∷ []
        → Forest (join ps) stack
        → Forest xs (y ∷ stack)

  pair_up-odd :
      (ps : List (A × A)) (c : A) → pair_up combine (unpair ps ++ c ∷ []) ≡ join ps ++ c ∷ []
  unfolding pair_up
  pair_up-odd [] c = refl
  pair_up-odd ((x, y) ∷ ps) c = ap (λ r. combine x y ∷ r) (pair_up-odd ps c)

  pair_up-even :
      (ps : List (A × A)) (y c : A)
      → pair_up combine ((unpair ps ++ y ∷ []) ++ c ∷ []) ≡ join ps ++ combine y c ∷ []
  unfolding pair_up
  pair_up-even [] y c = refl
  pair_up-even ((u, v) ∷ ps) y c = ap (λ r. combine u v ∷ r) (pair_up-even ps y c)

  levels_single : (n : ℕ) (c : A) → levels combine n (c ∷ []) ≡ c ∷ []
  unfolding levels pair_up
  levels_single zero c = refl
  levels_single (suc n) c = levels_single n c

  -- There are at most as many subtrees as the number of leaves has binary digits.
  pub Forest-depth : {xs stack : List A} → Forest xs stack → 2 ^ length stack ≤ length xs + 1
  Forest-depth start = omega arith
  Forest-depth (even {xs} {stack} ps e rest) =
      omega (arith, ap length e, length-unpair ps, length-join ps, Forest-depth rest)
  Forest-depth (odd {xs} {stack} ps y e rest) = omega (
    arith,
    ap length e,
    length-append (unpair ps) (y ∷ []),
    length-unpair ps,
    length-join ps,
    Forest-depth rest,
    pow-suc 2 (length stack),
  )

  finish_left :
      (y c : A) (stack : List A)
      → finish combine (combine y c) stack ∷ [] ≡ finish combine c (y ∷ stack) ∷ []
  unfolding finish
  finish_left y c stack = refl

  one_level :
      (n : ℕ) (xs : List A) {ys zs : List A}
      → pair_up combine xs ≡ ys
      → levels combine n ys ≡ zs
      → levels combine (suc n) xs ≡ zs
  unfolding levels
  one_level n xs e h = ap (levels combine n) e ∙ h

  -- A level halves the number of nodes that are left.
  half_bound :
      (n : ℕ) (ps : List (A × A)) (m : ℕ)
      → 2 * length ps ≤ m
      → m + 1 ≤ 2 ^ suc n
      → length (join ps) + 1 ≤ 2 ^ n
  half_bound n ps m p h = omega (arith, length-join ps, pow-suc 2 n)

  -- For any way to combine two nodes: reducing leaves level by level, an odd node at the end
  -- promoted, gives what merging the stack of a binary counter onto the last leaf from right to
  -- left gives. The stack is the one that pushing the leaves before the last leaves, and the
  -- number of levels is enough for them.
  pub levels-finish :
      {xs stack : List A}
      → Forest xs stack
      → (c : A) (n : ℕ) → length xs + 1 ≤ 2 ^ n
      → levels combine n (xs ++ c ∷ []) ≡ finish combine c stack ∷ []
  levels-finish start c n h = unfold finish in levels_single n c
  levels-finish (even [] e rest) c zero h = rw e (levels-finish rest c zero (omega arith))
  levels-finish (even (p ∷ ps) e rest) c zero h = absurd (omega (arith, ap length e))
  levels-finish (even {xs} ps e rest) c (suc n) h =
      let below : 2 * length ps ≤ length xs = omega (arith, ap length e, length-unpair ps) in
      rw e (
        one_level n (unpair ps ++ c ∷ []) (pair_up-odd ps c)
          (levels-finish rest c n (half_bound n ps (length xs) below h)))
  levels-finish (odd ps y e rest) c zero h =
      absurd (omega (arith, ap length e, length-append (unpair ps) (y ∷ [])))
  levels-finish (odd {xs} {stack} ps y e rest) c (suc n) h =
      let below : 2 * length ps ≤ length xs =
        omega (arith, ap length e, length-append (unpair ps) (y ∷ []), length-unpair ps) in
      let up = levels-finish rest (combine y c) n (half_bound n ps (length xs) below h) in
      rw e (
        one_level n ((unpair ps ++ y ∷ []) ++ c ∷ []) (pair_up-even ps y c)
          (up ∙ finish_left y c stack))
