-- ===== src/Retrieval/Scoring/Merging.antt =====
-- What the merging and the sorting of chunks keep.
use Prim.Native.Nat.{max}
use enterprise_rag.Prelude.{
  String, Bool, ◌||◌, List, [], ◌∷◌, All, inl, inr, ◌≡◌, refl, arith, any_of, count_of, str_eq,
  str_eq_iff, str_eq_apart, Bool-cases, if◌then◌else◌,
}
use enterprise_rag.Retrieval.Scores.{Scores, RetrievalChunk}
use enterprise_rag.Retrieval.Scoring.{merged_with, merge_chunk, merge_into, merge_chunks}

abbrev pub has_id : {S : Type 0} → String → RetrievalChunk S → Bool
has_id id c = str_eq c.id id

module _ {S : Type 0} (n : Scores S) (id : String) where
  count_of-merge_chunk :
      (c : RetrievalChunk S) (merged : List (RetrievalChunk S))
      → count_of (has_id id) (merge_chunk n c merged)
        ≡ (if has_id id c then max 1 (count_of (has_id id) merged) else count_of (has_id id) merged)
  unfolding merge_chunk merged_with
  count_of-merge_chunk c [] = ground arith
  count_of-merge_chunk c (old ∷ merged) = elim (Bool-cases (str_eq old.id c.id)) [
    | inl same ↦ rw (same, (str_eq_iff old.id c.id).0 same) (ground arith)
    | inr new ↦ elim (Bool-cases (str_eq c.id id)) [
      | inl this ↦
          let other = str_eq_apart old.id c.id id new this in
          let rest = count_of-merge_chunk c merged in rw (new, other) (ground (arith, rest))
      | inr that ↦ rw new (ground (arith, count_of-merge_chunk c merged))
    ]
  ]

  count_of-merge_into :
      (merged chunks : List (RetrievalChunk S))
      → count_of (has_id id) (merge_into n merged chunks) ≡ (
          if any_of (has_id id) chunks
          then max 1 (count_of (has_id id) merged)
          else count_of (has_id id) merged)
  unfolding merge_into
  count_of-merge_into merged [] = refl
  count_of-merge_into merged (c ∷ chunks) =
      ground
        (arith, count_of-merge_into (merge_chunk n c merged) chunks, count_of-merge_chunk c merged)

-- The merged list is the union of the two by id: an id of either list stands in it once, and no
-- other id stands in it.
pub count_of-merge_chunks :
    {S : Type 0} (n : Scores S) (primary secondary : List (RetrievalChunk S)) (id : String)
    → count_of (has_id id) (merge_chunks n primary secondary)
      ≡ (if any_of (has_id id) primary || any_of (has_id id) secondary then 1 else 0)
unfolding merge_chunks
count_of-merge_chunks n primary secondary id = ground (
  arith,
  count_of-merge_into n id (merge_into n [] primary) secondary,
  count_of-merge_into n id [] primary,
)

-- What holds of every chunk of both lists, and of one that is found twice, holds of the merged.
module _ {S : Type 0} (n : Scores S) (P : RetrievalChunk S → Type 0) where
  module _ (twice : (c old : RetrievalChunk S) → P old → P (merged_with n c old)) where
    All-merge_chunk :
        (c : RetrievalChunk S) (merged : List (RetrievalChunk S))
        → P c
        → All P merged
        → All P (merge_chunk n c merged)
    unfolding merge_chunk
    All-merge_chunk c [] pc h = (pc, tt)
    All-merge_chunk c (old ∷ merged) pc h = elim (Bool-cases (str_eq old.id c.id)) [
      | inl same ↦ rw same (twice c old h.0, h.1)
      | inr new ↦ rw new (h.0, All-merge_chunk c merged pc h.1)
    ]

    All-merge_into :
        (merged chunks : List (RetrievalChunk S))
        → All P merged
        → All P chunks
        → All P (merge_into n merged chunks)
    unfolding merge_into
    All-merge_into merged [] hm h = hm
    All-merge_into merged (c ∷ chunks) hm h =
        All-merge_into (merge_chunk n c merged) chunks (All-merge_chunk c merged h.0 hm) h.1

    pub All-merge_chunks :
        (primary secondary : List (RetrievalChunk S))
        → All P primary
        → All P secondary
        → All P (merge_chunks n primary secondary)
    unfolding merge_chunks
    All-merge_chunks primary secondary hp hs =
        All-merge_into (merge_into n [] primary) secondary (All-merge_into [] primary tt hp) hs
