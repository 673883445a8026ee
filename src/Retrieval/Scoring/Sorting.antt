-- ===== src/Retrieval/Scoring/Sorting.antt =====
-- What sorting and cutting a list keep.
use mathlib.Core.List.Perm
use mathlib.Core.List.{Perm}
use enterprise_rag.Prelude.{
  ℕ, zero, suc, Bool, true, false, ◌||◌, List, [], ◌∷◌, All, inl, inr, ◌≡◌, length, take, leb, ◌==◌,
  Bool-cases, if◌then◌else◌,
}
use enterprise_rag.Retrieval.Scores.{Scores, RetrievalChunk}
use enterprise_rag.Retrieval.Scoring.{insert_stable, sort_stable, limit_candidates}

module _ {A : Type 0} (before : A → A → Bool) where
  insert_stable-perm : (x : A) (ys : List A) → Perm (insert_stable before x ys) (x ∷ ys)
  unfolding insert_stable
  insert_stable-perm x [] = Perm.rfl
  insert_stable-perm x (y ∷ ys) =
      let behind = Perm.trans (Perm.cons y (insert_stable-perm x ys)) (Perm.swap x y ys) in
      elim (Bool-cases (before y x)) [ inl later ↦ rw later behind | inr here ↦ rw here Perm.rfl ]

  pub sort_stable-perm : (xs : List A) → Perm (sort_stable before xs) xs
  unfolding sort_stable
  sort_stable-perm [] = Perm.rfl
  sort_stable-perm (x ∷ xs) =
      Perm.trans (insert_stable-perm x (sort_stable before xs)) (Perm.cons x (sort_stable-perm xs))

  All-insert_stable :
      (P : A → Type 0) (x : A) (ys : List A) → P x → All P ys → All P (insert_stable before x ys)
  unfolding insert_stable
  All-insert_stable P x [] px h = (px, tt)
  All-insert_stable P x (y ∷ ys) px h = elim (Bool-cases (before y x)) [
    | inl later ↦ rw later (h.0, All-insert_stable P x ys px h.1)
    | inr here ↦ rw here (px, h)
  ]

  pub All-sort_stable : (P : A → Type 0) (xs : List A) → All P xs → All P (sort_stable before xs)
  unfolding sort_stable
  All-sort_stable P [] h = tt
  All-sort_stable P (x ∷ xs) h =
      All-insert_stable P x (sort_stable before xs) h.0 (All-sort_stable P xs h.1)

  -- No item goes before the one in front of it.
  abbrev pub Sorted : List A → Type 0
  Sorted [] = Unit
  Sorted (x ∷ []) = Unit
  Sorted (x ∷ y ∷ ys) = (before y x ≡ false) × Sorted (y ∷ ys)

  module _ (asym : (a b : A) → before a b ≡ true → before b a ≡ false) where
    Sorted-insert_stable : (x : A) (ys : List A) → Sorted ys → Sorted (insert_stable before x ys)
    unfolding insert_stable
    Sorted-insert_stable x [] h = tt
    Sorted-insert_stable x (y ∷ []) h = elim (Bool-cases (before y x)) [
      | inl later ↦ rw later (asym y x later, tt)
      | inr here ↦ rw here (here, tt)
    ]
    Sorted-insert_stable x (y ∷ z ∷ ys) h =
        let rest = Sorted-insert_stable x (z ∷ ys) h.1 in
        elim (Bool-cases (before y x)) [
          | inl later ↦ rw later (behind (before z x) later rest)
          | inr here ↦ rw here (here, h)
        ]
      where
        behind :
            (b : Bool)
            → before y x ≡ true
            → Sorted (if b then z ∷ insert_stable before x ys else x ∷ z ∷ ys)
            → Sorted (y ∷ (if b then z ∷ insert_stable before x ys else x ∷ z ∷ ys))
        behind true later rest = (h.0, rest)
        behind false later rest = (asym y x later, rest)

    pub Sorted-sort_stable : (xs : List A) → Sorted (sort_stable before xs)
    unfolding sort_stable
    Sorted-sort_stable [] = tt
    Sorted-sort_stable (x ∷ xs) =
        Sorted-insert_stable x (sort_stable before xs) (Sorted-sort_stable xs)

pub All-take : {A : Type 0} (P : A → Type 0) (k : ℕ) (xs : List A) → All P xs → All P (take k xs)
All-take P zero xs h = tt
All-take P (suc k) [] h = tt
All-take P (suc k) (x ∷ xs) h = (h.0, All-take P k xs h.1)

-- Cutting the candidates keeps what holds of each.
module _ {S : Type 0} (n : Scores S) where
  pub All-limit_candidates :
      (P : RetrievalChunk S → Type 0) (chunks : List (RetrievalChunk S)) (limit : ℕ)
      → All P chunks
      → All P (limit_candidates n chunks limit)
  unfolding limit_candidates
  All-limit_candidates P chunks limit h =
      let fits = limit == 0 || leb (length chunks) limit in
      elim (Bool-cases fits) [
        | inl all ↦ rw all h
        | inr over ↦ rw over (All-take P limit _ (All-sort_stable _ P chunks h))
      ]
