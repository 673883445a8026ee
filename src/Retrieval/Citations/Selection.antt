-- ===== src/Retrieval/Citations/Selection.antt =====
-- What the loop over the sorted chunks selects, and what the joining of neighbours keeps.
use enterprise_rag.Prelude.{
  ℕ, ◌+◌, ◌≤◌, ◌<◌, String, Bool, false, ◌||◌, List, [], ◌∷◌, ◌++◌, All, All-append, Text, inl, inr,
  ◌≡◌, refl, arith, length, length-append, any_of, count_of, leb, str_eq, str_eq_iff, str_eq_apart,
  Bool-cases, if◌then◌else◌,
}
use enterprise_rag.Runes.{text_eq}
use enterprise_rag.Retrieval.Scores.{Scores, Letters, RetrievalChunk}
use enterprise_rag.Retrieval.Citations.{Counts, seen_count, increment, dedupe_signature, select}

abbrev pub of_doc : {S : Type 0} → String → RetrievalChunk S → Bool
of_doc id c = str_eq c.doc_id id

seen_count-increment :
    (id doc : String) (counts : Counts)
    → seen_count id (increment doc counts) ≡ (if str_eq doc id then 1 else 0) + seen_count id counts
unfolding seen_count increment
seen_count-increment id doc [] = ground arith
seen_count-increment id doc ((key, count) ∷ counts) = elim (Bool-cases (str_eq key doc)) [
  | inl same ↦ rw (same, (str_eq_iff key doc).0 same) (ground arith)
  | inr new ↦ elim (Bool-cases (str_eq doc id)) [
    | inl this ↦
        rw (new, str_eq_apart key doc id new this)
          (ground (arith, seen_count-increment id doc counts))
    | inr that ↦ rw new (ground (arith, seen_count-increment id doc counts))
  ]
]

count_of-append :
    {A : Type 0} (p : A → Bool) (xs ys : List A)
    → count_of p (xs ++ ys) ≡ count_of p xs + count_of p ys
count_of-append p [] ys = omega arith
count_of-append p (x ∷ xs) ys = omega (arith, count_of-append p xs ys)

-- The signature of no chunk is that of an earlier one.
module _ {S : Type 0} (l : Letters) where
  abbrev DiffersFrom : RetrievalChunk S → RetrievalChunk S → Type 0
  DiffersFrom c d = text_eq (dedupe_signature l d) (dedupe_signature l c) ≡ false

  abbrev pub Differ : List (RetrievalChunk S) → Type 0
  Differ [] = Unit
  Differ (c ∷ chunks) = All (DiffersFrom c) chunks × Differ chunks

  Differ-append :
      (chunks : List (RetrievalChunk S)) (d : RetrievalChunk S)
      → All (λ c. DiffersFrom c d) chunks
      → Differ chunks
      → Differ (chunks ++ d ∷ [])
  Differ-append [] d h k = (tt, tt)
  Differ-append (c ∷ chunks) d h k =
      (All-append _ chunks (d ∷ []) k.0 (h.0, tt), Differ-append chunks d h.1 k.1)

module _ {S : Type 0} (n : Scores S) (l : Letters) (limit per_document : ℕ) (min_score : S) where
  -- A selection: within the limits, of different signatures and good scores.
  pub record IsSelection (P : RetrievalChunk S → Type 0) (chunks : List (RetrievalChunk S))
      : Type 0 where
    pub few : length chunks ≤ limit
    pub few_each : (id : String) → count_of (of_doc id) chunks ≤ per_document
    pub differ : Differ l chunks
    pub good : All (λ (c : RetrievalChunk S). n.less c.score min_score ≡ false) chunks
    pub each : All P chunks

  -- What the loop knows of what it has selected.
  record Loop (signatures : List Text) (counts : Counts) (chunks : List (RetrievalChunk S))
      : Type 0 where
    counted : (id : String) → seen_count id counts ≡ count_of (of_doc id) chunks
    -- A signature that was not seen is that of no chunk.
    seen :
        (s : Text)
        → any_of (text_eq s) signatures ≡ false
        → All (λ c. text_eq s (dedupe_signature l c) ≡ false) chunks

  module _ (P : RetrievalChunk S → Type 0) where
    Loop-add :
        (c : RetrievalChunk S) (signatures : List Text) (counts : Counts)
        → (chunks : List (RetrievalChunk S)) → Loop signatures counts chunks
        → Loop (dedupe_signature l c ∷ signatures) (increment c.doc_id counts) (chunks ++ c ∷ [])
    Loop-add c signatures counts chunks k = record {
      counted = λ id. omega (
        arith,
        seen_count-increment id c.doc_id counts,
        k.counted id,
        count_of-append (of_doc id) chunks (c ∷ []),
      );
      seen = λ s new. All-append _ chunks (c ∷ []) (k.seen s (ground arith)) (ground arith, tt);
    }

    IsSelection-add :
        (c : RetrievalChunk S) (signatures : List Text) (counts : Counts)
        → (chunks : List (RetrievalChunk S)) → length chunks < limit
        → n.less c.score min_score ≡ false
        → seen_count c.doc_id counts < per_document
        → any_of (text_eq (dedupe_signature l c)) signatures ≡ false
        → P c
        → Loop signatures counts chunks
        → IsSelection P chunks
        → IsSelection P (chunks ++ c ∷ [])
    IsSelection-add c signatures counts chunks room good less new pc k s = record {
      few = omega (arith, length-append chunks (c ∷ []));
      few_each = λ id. room_for id;
      differ = Differ-append l chunks c (k.seen _ new) s.differ;
      good = All-append _ chunks (c ∷ []) s.good (good, tt);
      each = All-append P chunks (c ∷ []) s.each (pc, tt);
    }
      where
        room_for : (id : String) → count_of (of_doc id) (chunks ++ c ∷ []) ≤ per_document
        room_for id =
            let added = count_of-append (of_doc id) chunks (c ∷ []) in
            elim (Bool-cases (str_eq c.doc_id id)) [
              | inl this ↦
                  let e = (str_eq_iff c.doc_id id).0 this in
                  let less' : seen_count id counts < per_document = rw (← e) less in
                  ground (arith, added, k.counted id, less')
              | inr that ↦ ground (arith, added, s.few_each id)
            ]

    select-IsSelection :
        (chunks : List (RetrievalChunk S)) (signatures : List Text) (counts : Counts)
        → (filtered : List (RetrievalChunk S)) → All P chunks
        → Loop signatures counts filtered
        → IsSelection P filtered
        → IsSelection P (select n l limit per_document min_score chunks signatures counts filtered)
    unfolding select
    select-IsSelection [] signatures counts filtered h k s = s
    select-IsSelection (c ∷ chunks) signatures counts filtered h k s =
        let stop = leb limit (length filtered) || n.less c.score min_score in
        elim (Bool-cases stop) [
          | inl end ↦ rw end s
          | inr go ↦ rw go (elim (Bool-cases (leb per_document (seen_count c.doc_id counts))) [
            | inl full ↦ rw full (select-IsSelection chunks signatures counts filtered h.1 k s)
            | inr less ↦
                rw less (elim (Bool-cases (any_of (text_eq (dedupe_signature l c)) signatures)) [
                  | inl old ↦ rw old (select-IsSelection chunks signatures counts filtered h.1 k s)
                  | inr new ↦
                      let s' =
                        IsSelection-add c signatures counts filtered (ground arith) (ground arith)
                          (ground arith) new h.0 k s in
                      rw new (
                        select-IsSelection chunks (dedupe_signature l c ∷ signatures)
                          (increment c.doc_id counts) (filtered ++ c ∷ []) h.1
                          (Loop-add c signatures counts filtered k) s')
                ])
          ])
        ]

    -- From sorted chunks, the loop selects no more than the limit, no more of each document than
    -- its limit, no two of the same signature, and none whose score is below the least.
    pub select-nil-IsSelection :
        (chunks : List (RetrievalChunk S))
        → All P chunks
        → IsSelection P (select n l limit per_document min_score chunks [] [] [])
    unfolding seen_count
    select-nil-IsSelection chunks h =
        select-IsSelection chunks [] [] [] h (record { counted = λ id. refl; seen = λ s new. tt })
          (record {
            few = omega arith;
            few_each = λ id. omega arith;
            differ = tt;
            good = tt;
            each = tt;
          })
