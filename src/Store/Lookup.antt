-- ===== src/Store/Lookup.antt =====
-- Rows that a statement's test accepts: none of them, or one among others.
use mathlib.Core.Option.{some-injective}
use enterprise_rag.Prelude.{
  Bool, true, false, some, List, [], ◌∷◌, ◌++◌, All, ◌≡◌, refl, ap, arith, count_of, find_first,
  if◌then◌else◌,
}
use enterprise_rag.Store.{update_rows}

module _ {A : Type 0} (test : A → Bool) where
  pub count_of-none : (rows : List A) → All (λ a. test a ≡ false) rows → count_of test rows ≡ 0
  count_of-none [] h = refl
  count_of-none (a ∷ rows) h = rw h.0 (omega (arith, count_of-none rows h.1))

  pub update_rows-none :
      (set : A → A) (rows : List A)
      → All (λ a. test a ≡ false) rows
      → update_rows test set rows ≡ rows
  update_rows-none set [] h = refl
  update_rows-none set (a ∷ rows) h = rw h.0 (ap (λ r. a ∷ r) (update_rows-none set rows h.1))

  pub find_first-All :
      (P : A → Type 0) (rows : List A) (a : A)
      → All (λ x. test x ≡ true → P x) rows
      → find_first test rows ≡ some a
      → P a
  find_first-All P [] a h e = cc
  find_first-All P (x ∷ rows) a h e = choose x a (test x) (h.0) (find_first-All P rows a h.1) e
    where
      choose :
          (x a : A) (b : Bool)
          → (b ≡ true → P x)
          → (find_first test rows ≡ some a → P a)
          → (if b then some x else find_first test rows) ≡ some a
          → P a
      choose x a true here rest k = rw (← some-injective x a k) (here refl)
      choose x a false here rest k = rest k

-- One row among those that the test refuses.
module _ {A : Type 0} (test : A → Bool) where
  pub count_of-one :
      (before : List A) (a : A) (after : List A)
      → All (λ x. test x ≡ false) before
      → All (λ x. test x ≡ false) after
      → test a ≡ true
      → count_of test (before ++ a ∷ after) ≡ 1
  count_of-one [] a after h k e = rw e (omega (arith, count_of-none test after k))
  count_of-one (x ∷ before) a after h k e =
      rw h.0 (omega (arith, count_of-one before a after h.1 k e))

  pub update_rows-one :
      (set : A → A) (before : List A) (a : A) (after : List A)
      → All (λ x. test x ≡ false) before
      → All (λ x. test x ≡ false) after
      → test a ≡ true
      → update_rows test set (before ++ a ∷ after) ≡ before ++ set a ∷ after
  update_rows-one set [] a after h k e =
      rw e (ap (λ r. set a ∷ r) (update_rows-none test set after k))
  update_rows-one set (x ∷ before) a after h k e =
      rw h.0 (ap (λ r. x ∷ r) (update_rows-one set before a after h.1 k e))

  pub find_first-one :
      (before : List A) (a : A) (after : List A)
      → All (λ x. test x ≡ false) before
      → test a ≡ true
      → find_first test (before ++ a ∷ after) ≡ some a
  find_first-one [] a after h e = rw e refl
  find_first-one (x ∷ before) a after h e = rw h.0 (find_first-one before a after h.1 e)
