-- ===== src/Prelude/Counting.antt =====
-- Counting and keeping the items of a list that meet a test.
use Prim.Native.Nat.{◌≤◌}
use mathlib.Core.Path.{◌≡◌, refl, ap, ◌∙◌}
use mathlib.Core.Logic.{inl, inr}
use mathlib.Core.Bool.{Bool, true, false, not}
use mathlib.Core.List.{List, [], ◌∷◌, map}
use native.Mathlib.Omega.{arith}
use enterprise_rag.Prelude.Tests.{Bool-cases}
use enterprise_rag.Prelude.Lists.{All, length, count_of, keep_if}

module _ {A : Type 0} where
  pub All-keep_if : (P : A → Type 0) (r : A → Bool) (xs : List A) → All P xs → All P (keep_if r xs)
  All-keep_if P r [] h = tt
  All-keep_if P r (x ∷ xs) h = elim (Bool-cases (r x)) [
    | inl kept ↦ rw kept (h.0, All-keep_if P r xs h.1)
    | inr gone ↦ rw gone (All-keep_if P r xs h.1)
  ]

  pub All-kept : (r : A → Bool) (xs : List A) → All (λ x. r x ≡ true) (keep_if r xs)
  All-kept r [] = tt
  All-kept r (x ∷ xs) = elim (Bool-cases (r x)) [
    | inl kept ↦ rw kept (kept, All-kept r xs)
    | inr gone ↦ rw gone (All-kept r xs)
  ]

  pub length-keep_if : (r : A → Bool) (xs : List A) → length (keep_if r xs) ≤ length xs
  length-keep_if r [] = omega arith
  length-keep_if r (x ∷ xs) = ground (arith, length-keep_if r xs)

  -- What is left out does not count.
  pub count_of-keep_if :
      (p r : A → Bool) (xs : List A)
      → ((x : A) → r x ≡ false → p x ≡ false)
      → count_of p (keep_if r xs) ≡ count_of p xs
  count_of-keep_if p r [] h = refl
  count_of-keep_if p r (x ∷ xs) h = elim (Bool-cases (r x)) [
    | inl kept ↦ rw kept (omega (arith, count_of-keep_if p r xs h))
    | inr gone ↦ rw (gone, h x gone) (omega (arith, count_of-keep_if p r xs h))
  ]

  pub count_of_le : (p : A → Bool) (xs : List A) → count_of p xs ≤ length xs
  count_of_le p [] = omega arith
  count_of_le p (x ∷ xs) = ground (arith, count_of_le p xs)

  pub count_of_none : (p : A → Bool) (xs : List A) → All (λ x. p x ≡ false) xs → count_of p xs ≡ 0
  count_of_none p [] h = refl
  count_of_none p (x ∷ xs) h = rw h.0 (omega (arith, count_of_none p xs h.1))

  pub keep_if_whole : (r : A → Bool) (xs : List A) → All (λ x. r x ≡ true) xs → keep_if r xs ≡ xs
  keep_if_whole r [] h = refl
  keep_if_whole r (x ∷ xs) h = rw h.0 (ap (λ l. x ∷ l) (keep_if_whole r xs h.1))

-- What holds of the items of a list holds of those of another order.
module _ {A : Type 0} (q : A → Bool) where
  count_of_refused : (xs : List A) → All (λ x. q x ≡ true) xs → count_of (λ x. not (q x)) xs ≡ 0
  count_of_refused [] h = refl
  count_of_refused (x ∷ xs) h = rw h.0 (omega (arith, count_of_refused xs h.1))

  none_refused : (xs : List A) → count_of (λ x. not (q x)) xs ≡ 0 → All (λ x. q x ≡ true) xs
  none_refused [] h = tt
  none_refused (x ∷ xs) h = (ground arith, none_refused xs (omega arith))

  pub All-reordered :
      (xs ys : List A)
      → count_of (λ x. not (q x)) ys ≡ count_of (λ x. not (q x)) xs
      → All (λ x. q x ≡ true) xs
      → All (λ x. q x ≡ true) ys
  All-reordered xs ys h k = none_refused ys (h ∙ count_of_refused xs k)

pub All-map :
    {A : Type 0} (P Q : A → Type 0) → ((a : A) → P a → Q a) → (xs : List A) → All P xs → All Q xs
All-map P Q step [] h = tt
All-map P Q step (x ∷ xs) h = (step x h.0, All-map P Q step xs h.1)

pub length-map : {A B : Type 0} (f : A → B) (xs : List A) → length (map f xs) ≡ length xs
length-map f [] = refl
length-map f (x ∷ xs) = omega (arith, length-map f xs)
