-- ===== src/Prelude/Lists.antt =====
-- Lists and options over the native numbers.
use Prim.Native.Nat.{ℕ, zero, suc, ◌+◌, ◌≤◌}
use mathlib.Core.Path.{◌≡◌, refl, ap}
use mathlib.Core.Bool.{Bool, true, false}
use mathlib.Core.Option.{Option, none, some}
use mathlib.Core.List.{List, [], ◌∷◌, ◌++◌}
use native.Mathlib.Omega.{arith}

module _ {ℓ} {A : Type ℓ} where
  abbrev pub length : List A → ℕ
  length [] = 0
  length (x ∷ xs) = suc (length xs)

  abbrev pub is_empty : List A → Bool
  is_empty [] = true
  is_empty (x ∷ xs) = false

  abbrev pub is_some : Option A → Bool
  is_some none = false
  is_some (some a) = true

  -- `Option::unwrap_or`
  abbrev pub unwrap_or : Option A → A → A
  unwrap_or none d = d
  unwrap_or (some a) d = a

  abbrev pub take : ℕ → List A → List A
  take zero xs = []
  take (suc n) [] = []
  take (suc n) (x ∷ xs) = x ∷ take n xs

  -- `Vec::push`
  abbrev pub push : List A → A → List A
  push xs a = xs ++ (a ∷ [])

  abbrev pub pop_from : A → List A → A × List A
  pop_from y [] = (y, [])
  pop_from y (z ∷ zs) = let rest = pop_from z zs in (rest.0, y ∷ rest.1)

  -- `Vec::pop`: the last element, with the vector that is left.
  abbrev pub pop : List A → Option (A × List A)
  pop [] = none
  pop (x ∷ xs) = some (pop_from x xs)

  pop_from-push : (y : A) (xs : List A) (x : A) → pop_from y (push xs x) ≡ (x, y ∷ xs)
  pop_from-push y [] x = refl
  pop_from-push y (z ∷ zs) x = rw (pop_from-push z zs x) refl

  pub pop-push : (xs : List A) (x : A) → pop (push xs x) ≡ some (x, xs)
  pop-push [] x = refl
  pop-push (y ∷ xs) x = ap some (pop_from-push y xs x)

  pub length-append : (xs ys : List A) → length (xs ++ ys) ≡ length xs + length ys
  length-append [] ys = omega arith
  length-append (x ∷ xs) ys = omega (arith, length-append xs ys)

  pub take_all : (xs : List A) → take (length xs) xs ≡ xs
  take_all [] = refl
  take_all (x ∷ xs) = ap (λ t. x ∷ t) (take_all xs)

  pub length-pos_of_not_empty : (xs : List A) → is_empty xs ≡ false → 1 ≤ length xs
  length-pos_of_not_empty [] h = ground arith
  length-pos_of_not_empty (x ∷ xs) h = omega arith

  pub is_empty-push : (xs : List A) (a : A) → is_empty (push xs a) ≡ false
  is_empty-push [] a = refl
  is_empty-push (x ∷ xs) a = refl
