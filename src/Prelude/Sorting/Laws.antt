-- ===== src/Prelude/Sorting/Laws.antt =====
-- The sorted list has the list's elements, each as often, and no element before one that it is not below.

use clerk_san.Prelude.Lists.{In}
use clerk_san.Prelude.Sorting.{insert, sorted}
use mathlib.Core.Path.{◌≡◌}
use mathlib.Core.Logic.{◌⊎◌, inl, inr}
use mathlib.Core.Bool.{Bool, true, false}
use mathlib.Core.List.{List, [], ◌∷◌, Perm}
use mathlib.Core.List.Perm
use clerk_san.Prelude.Tests.{Bool-cases}
use native.Mathlib.Omega.{arith}

module _ {A : Type 0} (le : A → A → Bool) where
  In-insert : (x a : A) (xs : List A) → In a (insert le x xs) → (a ≡ x) ⊎ In a xs
  unfolding insert
  In-insert x a [] m = m
  In-insert x a (y ∷ ys) m = ground (arith, In-insert x a ys)

  insert-In : (x a : A) (xs : List A) → (a ≡ x) ⊎ In a xs → In a (insert le x xs)
  unfolding insert
  insert-In x a [] m = m
  insert-In x a (y ∷ ys) m = ground (arith, insert-In x a ys)

  pub In-sorted : (a : A) (xs : List A) → In a (sorted le xs) → In a xs
  unfolding sorted
  In-sorted a [] m = m
  In-sorted a (x ∷ xs) m = ground (arith, In-insert x a (sorted le xs) m, In-sorted a xs)

  pub sorted-In : (a : A) (xs : List A) → In a xs → In a (sorted le xs)
  unfolding sorted
  sorted-In a [] m = m
  sorted-In a (x ∷ xs) (inl e) = insert-In x a (sorted le xs) (inl e)
  sorted-In a (x ∷ xs) (inr m) = insert-In x a (sorted le xs) (inr (sorted-In a xs m))

  insert-Perm : (x : A) (xs : List A) → Perm (insert le x xs) (x ∷ xs)
  unfolding insert
  insert-Perm x [] = Perm.rfl
  insert-Perm x (y ∷ ys) = elim (Bool-cases (le x y)) [
    | inl t ↦ rw t Perm.rfl
    | inr f ↦ rw f (Perm.trans (Perm.cons y (insert-Perm x ys)) (Perm.swap x y ys))
  ]

  -- Every element stands in the sorted list as often as in the list.
  pub sorted-Perm : (xs : List A) → Perm (sorted le xs) xs
  unfolding sorted
  sorted-Perm [] = Perm.rfl
  sorted-Perm (x ∷ xs) = Perm.trans (insert-Perm x (sorted le xs)) (Perm.cons x (sorted-Perm xs))

  -- No neighbours are out of order.
  abbrev pub IsOrdered : List A → Type 0
  IsOrdered [] = Unit
  IsOrdered (x ∷ []) = Unit
  IsOrdered (x ∷ y ∷ ys) = (le x y ≡ true) × IsOrdered (y ∷ ys)

  insert-IsOrdered :
      (x : A) (xs : List A)
      → ((a b : A) → le a b ≡ false → le b a ≡ true)
      → IsOrdered xs
      → IsOrdered (insert le x xs)
  unfolding insert
  insert-IsOrdered x [] total h = tt
  insert-IsOrdered x (y ∷ []) total h = ground (arith, total x y)
  insert-IsOrdered x (y ∷ z ∷ zs) total h =
      ground (arith, total x y, insert-IsOrdered x (z ∷ zs) total h.1)

  pub sorted-IsOrdered :
      (xs : List A) → ((a b : A) → le a b ≡ false → le b a ≡ true) → IsOrdered (sorted le xs)
  unfolding sorted
  sorted-IsOrdered [] total = tt
  sorted-IsOrdered (x ∷ xs) total =
      insert-IsOrdered x (sorted le xs) total (sorted-IsOrdered xs total)
