-- ===== src/Store/Evolution.antt =====
-- How the rows of a table may change: each stays in its place, moves by a relation, and new rows
-- come behind the old ones.
use enterprise_rag.Prelude.{Bool, true, false, ◌≡◌, List, [], ◌∷◌, ◌++◌, if◌then◌else◌}
use enterprise_rag.Store.{update_rows}

module _ {A : Type 0} (R : A → A → Type 0) where
  abbrev pub Evolves : List A → List A → Type 0
  Evolves [] ys = Unit
  Evolves (x ∷ xs) [] = ⊥
  Evolves (x ∷ xs) (y ∷ ys) = R x y × Evolves xs ys

module _ {A : Type 0} (R : A → A → Type 0) (R-refl : (x : A) → R x x) where
  pub Evolves-refl : (xs : List A) → Evolves R xs xs
  Evolves-refl [] = tt
  Evolves-refl (x ∷ xs) = (R-refl x, Evolves-refl xs)

  pub Evolves-append : (xs ys : List A) → Evolves R xs (xs ++ ys)
  Evolves-append [] ys = tt
  Evolves-append (x ∷ xs) ys = (R-refl x, Evolves-append xs ys)

  pub Evolves-update :
      (test : A → Bool) (set : A → A)
      → ((x : A) → test x ≡ true → R x (set x))
      → (xs : List A) → Evolves R xs (update_rows test set xs)
  Evolves-update test set step [] = tt
  Evolves-update test set step (x ∷ xs) = (row, Evolves-update test set step xs)
    where
      choose : (b : Bool) → (b ≡ true → R x (set x)) → R x (if b then set x else x)
      choose true h = h (λ i. true)
      choose false h = R-refl x

      row : R x (if test x then set x else x)
      row = choose (test x) (step x)

pub Evolves-trans :
    {A : Type 0} (R : A → A → Type 0)
    → ((x y z : A) → R x y → R y z → R x z)
    → (xs ys zs : List A) → Evolves R xs ys
    → Evolves R ys zs
    → Evolves R xs zs
Evolves-trans R tr [] ys zs p q = tt
Evolves-trans R tr (x ∷ xs) [] zs p q = absurd p
Evolves-trans R tr (x ∷ xs) (y ∷ ys) [] p q = absurd q
Evolves-trans R tr (x ∷ xs) (y ∷ ys) (z ∷ zs) p q =
    (tr x y z p.0 q.0, Evolves-trans R tr xs ys zs p.1 q.1)

-- One change of the rows after another.
pub Evolves-then :
    {A : Type 0} (R S T : A → A → Type 0)
    → ((x y z : A) → R x y → S y z → T x z)
    → (xs ys zs : List A) → Evolves R xs ys
    → Evolves S ys zs
    → Evolves T xs zs
Evolves-then R S T step [] ys zs p q = tt
Evolves-then R S T step (x ∷ xs) [] zs p q = absurd p
Evolves-then R S T step (x ∷ xs) (y ∷ ys) [] p q = absurd q
Evolves-then R S T step (x ∷ xs) (y ∷ ys) (z ∷ zs) p q =
    (step x y z p.0 q.0, Evolves-then R S T step xs ys zs p.1 q.1)

pub Evolves-weaken :
    {A : Type 0} (R S : A → A → Type 0)
    → ((x y : A) → R x y → S x y)
    → (xs ys : List A) → Evolves R xs ys
    → Evolves S xs ys
Evolves-weaken R S step [] ys p = tt
Evolves-weaken R S step (x ∷ xs) [] p = absurd p
Evolves-weaken R S step (x ∷ xs) (y ∷ ys) p = (step x y p.0, Evolves-weaken R S step xs ys p.1)

-- What an update does to each row.
pub Evolves-each :
    {A : Type 0} (R : A → A → Type 0) (test : A → Bool) (set : A → A)
    → ((x : A) → R x (if test x then set x else x))
    → (xs : List A) → Evolves R xs (update_rows test set xs)
Evolves-each R test set step [] = tt
Evolves-each R test set step (x ∷ xs) = (step x, Evolves-each R test set step xs)
