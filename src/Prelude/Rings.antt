-- ===== src/Prelude/Rings.antt =====
-- Ring buffers: a list to which a size sets a bound, and the end of a list.
use Prim.Native.Nat.{ℕ, zero, suc, ◌-◌, ◌≤◌}
use mathlib.Core.Path.{◌≡◌, refl}
use mathlib.Core.Logic.{inl, inr}
use mathlib.Core.Bool.{true, false}
use mathlib.Core.List.{List, [], ◌∷◌, ◌++◌}
use native.Mathlib.Omega.{arith}
use jake_ai.Prelude.Tests.{if◌then◌else◌, ltb, Bool-cases}
use jake_ai.Prelude.Lists.{length, drop, length-append}

-- an append to a ring buffer of a size
unfoldable pub append_bounded {ℓ} : {A : Type ℓ} → ℕ → A → List A → List A
append_bounded most x xs =
    if ltb most (length (xs ++ (x ∷ []))) then drop 1 (xs ++ (x ∷ [])) else xs ++ (x ∷ [])

-- the last `n` of a list
abbrev pub last_n {ℓ} : {A : Type ℓ} → ℕ → List A → List A
last_n n xs = drop (length xs - n) xs

module _ {ℓ} {A : Type ℓ} where
  pub length-drop : (n : ℕ) (xs : List A) → length (drop n xs) ≡ length xs - n
  length-drop zero xs = omega arith
  length-drop (suc n) [] = omega arith
  length-drop (suc n) (x ∷ xs) = omega (arith, length-drop n xs)

  pub drop-nil : (n : ℕ) → drop {A = A} n [] ≡ []
  drop-nil zero = refl
  drop-nil (suc n) = refl

  drop-push :
      (n : ℕ) (xs : List A) (x : A)
      → n ≤ length xs
      → drop 1 (drop n xs ++ (x ∷ [])) ≡ drop (suc n) (xs ++ (x ∷ []))
  drop-push zero xs x h = refl
  drop-push (suc n) [] x h = ground arith
  drop-push (suc n) (y ∷ ys) x h = drop-push n ys x (omega (arith, h))

  pub append_bounded-last_n :
      (most : ℕ) (x : A) (xs : List A)
      → append_bounded most x (last_n most xs) ≡ last_n most (xs ++ (x ∷ []))
  unfolding append_bounded
  append_bounded-last_n most x xs =
      let kept = length-drop (length xs - most) xs in
      let longer = length-append xs (x ∷ []) in
      let longer' = length-append (last_n most xs) (x ∷ []) in
      elim (Bool-cases (ltb (length xs) most)) [
        | inl short ↦
            let none_before : length xs - most ≡ 0 = ground arith in
            let none_after : length (xs ++ (x ∷ [])) - most ≡ 0 = ground (arith, longer) in
            let fits : ltb most (length (xs ++ (x ∷ []))) ≡ false = ground (arith, longer) in
            rw (none_before, none_after, fits) refl
        | inr full ↦
            let over : ltb most (length (last_n most xs ++ (x ∷ []))) ≡ true =
              ground (arith, kept, longer') in
            let one_more : length (xs ++ (x ∷ [])) - most ≡ suc (length xs - most) =
              ground (arith, longer) in
            rw (over, one_more) (drop-push (length xs - most) xs x (omega arith))
      ]
