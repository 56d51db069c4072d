-- ===== src/Merkle/Counter.antt =====
-- Pushing onto the counter never fails and keeps the relation to the leaves.
use native.Mathlib.Nat.{pow-suc}
use blake.Base.{ℕ, zero, suc, ◌+◌, ◌*◌, ◌/◌, ◌%◌, ◌^◌, ◌<◌, ◌≡◌, refl, sym, ap, ◌∙◌, subst, arith}
use blake.Base.{none, some, List, [], ◌∷◌, ◌++◌, length, length-append}
use blake.Merkle.{push}
use blake.Merkle.Forest.{Forest, start, even, odd, unpair, join-append, unpair-append}
use blake.Merkle.Forest.{length-unpair, length-join}

module _ {ℓ} {A : Type ℓ} (combine : A → A → A) where
  pub push-stop :
      (fuel total : ℕ) (x : A) (stack : List A)
      → total % 2 ≡ 1
      → push combine (suc fuel) total x stack ≡ some (x ∷ stack)
  unfolding push
  push-stop fuel total x [] h = ground (arith, h)
  push-stop fuel total x (left ∷ stack) h = ground (arith, h)

  pub push-merge :
      (fuel total : ℕ) (x left : A) (stack : List A)
      → total % 2 ≡ 0
      → push combine (suc fuel) total x (left ∷ stack)
        ≡ push combine fuel (total / 2) (combine left x) stack
  unfolding push
  push-merge fuel total x left stack h = ground (arith, h)

  pub push-fault :
      (fuel total : ℕ) (x : A) → total % 2 ≡ 0 → push combine (suc fuel) total x [] ≡ none
  unfolding push
  push-fault fuel total x h = ground (arith, h)

  -- With as much fuel as the number of leaves has digits, a push succeeds.
  pub push-Forest :
      (x : A) (fuel total : ℕ) {xs stack : List A}
      → Forest combine xs stack
      → total ≡ length xs + 1
      → total < 2 ^ fuel
      → (stack' : List A) × (push combine fuel total x stack ≡ some stack')
        × Forest combine (xs ++ x ∷ []) stack'
  push-Forest x zero total f e h = absurd (omega arith)
  push-Forest x (suc fuel) total start e h =
      (x ∷ [], push-stop fuel total x [] (omega arith), odd [] x refl start)
  push-Forest x (suc fuel) total (even {xs} {stack} ps e rest) n h = (
    x ∷ stack,
    push-stop fuel total x stack (omega (arith, ap length e, length-unpair ps)),
    odd ps x (ap (λ r. r ++ x ∷ []) e) rest,
  )
  push-Forest x (suc fuel) total (odd {xs} {stack} ps y e rest) n h =
      let size : length xs ≡ 2 * length ps + 1 =
        omega (arith, ap length e, length-append (unpair ps) (y ∷ []), length-unpair ps) in
      let above =
        push-Forest (combine y x) fuel (total / 2) rest (omega (arith, length-join combine ps))
          (omega (arith, pow-suc 2 fuel)) in
      (
        above.0,
        push-merge fuel total x y stack (omega arith) ∙ above.1,
        even (ps ++ (y, x) ∷ []) (ap (λ r. r ++ x ∷ []) e ∙ sym (unpair-append ps y x))
            (subst (λ r. Forest combine r above.0) (sym (join-append combine ps y x)) above.2),
      )
