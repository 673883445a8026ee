-- ===== src/Retrieval/Citations/Joining.antt =====
-- What the joining of neighbours keeps, and the bounds of the citations.
use enterprise_rag.Prelude.{
  suc, ◌+◌, ◌≤◌, String, List, [], ◌∷◌, All, inl, inr, ◌≡◌, refl, arith, length, count_of,
  Bool-cases,
}
use enterprise_rag.Prelude.Int.{int_less, to_ℕ}
use enterprise_rag.Retrieval.Scores.{Scores, Letters, RetrievalChunk}
use enterprise_rag.Retrieval.Scoring.{sort_stable, ranks_before}
use enterprise_rag.Retrieval.Scoring.Sorting.{All-sort_stable}
use enterprise_rag.Retrieval.Citations.{
  CitationPolicy, is_adjacent, joined, join_chunk, join_all, merge_adjacent_chunks, trim_sorted,
  normalize_citation_policy, trim_effective_chunks,
}
use enterprise_rag.Retrieval.Citations.Selection.{of_doc, select-nil-IsSelection}

module _ {S : Type 0} (n : Scores S) where
  joined-doc_id : (c old : RetrievalChunk S) → (joined n c old).doc_id ≡ old.doc_id
  unfolding joined
  joined-doc_id c old = elim (Bool-cases (int_less c.chunk_index old.chunk_index)) [
    | inl first ↦ rw first refl
    | inr later ↦ rw later refl
  ]

  module _ (id : String) where
    count_of-join_chunk :
        (c : RetrievalChunk S) (merged : List (RetrievalChunk S))
        → count_of (of_doc id) (join_chunk n c merged) ≤ count_of (of_doc id) (c ∷ merged)
    unfolding join_chunk
    count_of-join_chunk c [] = omega arith
    count_of-join_chunk c (old ∷ merged) = elim (Bool-cases (is_adjacent n c old)) [
      | inl near ↦ rw (near, joined-doc_id c old) (omega arith)
      | inr far ↦ rw far (omega (arith, count_of-join_chunk c merged))
    ]

    count_of-join_all :
        (merged chunks : List (RetrievalChunk S))
        → count_of (of_doc id) (join_all n merged chunks)
          ≤ count_of (of_doc id) merged + count_of (of_doc id) chunks
    unfolding join_all
    count_of-join_all merged [] = omega arith
    count_of-join_all merged (c ∷ chunks) =
        omega
          (arith, count_of-join_all (join_chunk n c merged) chunks, count_of-join_chunk c merged)

  length-join_chunk :
      (c : RetrievalChunk S) (merged : List (RetrievalChunk S))
      → length (join_chunk n c merged) ≤ suc (length merged)
  unfolding join_chunk
  length-join_chunk c [] = omega arith
  length-join_chunk c (old ∷ merged) = ground (arith, length-join_chunk c merged)

  length-join_all :
      (merged chunks : List (RetrievalChunk S))
      → length (join_all n merged chunks) ≤ length merged + length chunks
  unfolding join_all
  length-join_all merged [] = omega arith
  length-join_all merged (c ∷ chunks) =
      omega (arith, length-join_all (join_chunk n c merged) chunks, length-join_chunk c merged)

  module _ (P : RetrievalChunk S → Type 0) where
    module _ (join : (c old : RetrievalChunk S) → P c → P old → P (joined n c old)) where
      All-join_chunk :
          (c : RetrievalChunk S) (merged : List (RetrievalChunk S))
          → P c
          → All P merged
          → All P (join_chunk n c merged)
      unfolding join_chunk
      All-join_chunk c [] pc h = (pc, tt)
      All-join_chunk c (old ∷ merged) pc h = elim (Bool-cases (is_adjacent n c old)) [
        | inl near ↦ rw near (join c old pc h.0, h.1)
        | inr far ↦ rw far (h.0, All-join_chunk c merged pc h.1)
      ]

      All-join_all :
          (merged chunks : List (RetrievalChunk S))
          → All P merged
          → All P chunks
          → All P (join_all n merged chunks)
      unfolding join_all
      All-join_all merged [] hm h = hm
      All-join_all merged (c ∷ chunks) hm h =
          All-join_all (join_chunk n c merged) chunks (All-join_chunk c merged h.0 hm) h.1

-- Citations within a policy, of each of which `P` holds.
pub record IsCited {S : Type 0} (p : CitationPolicy S) (P : RetrievalChunk S → Type 0)
    (chunks : List (RetrievalChunk S)) : Type 0 where
  pub few : length chunks ≤ p.limit
  pub few_each : (id : String) → count_of (of_doc id) chunks ≤ to_ℕ p.max_chunks_per_document
  pub each : All P chunks

module _ {S : Type 0} (n : Scores S) (l : Letters) (P : RetrievalChunk S → Type 0) where
  module _ (join : (c old : RetrievalChunk S) → P c → P old → P (joined n c old)) where
    trim_sorted-IsCited :
        (p : CitationPolicy S) (chunks : List (RetrievalChunk S))
        → All P chunks
        → IsCited p P (trim_sorted n l p chunks)
    unfolding trim_sorted merge_adjacent_chunks
    trim_sorted-IsCited p [] h = record {
      few = omega arith;
      few_each = λ id. omega arith;
      each = tt;
    }
    trim_sorted-IsCited p (c ∷ chunks) h =
        let least = n.greater p.absolute_threshold (n.times c.score p.relative_threshold) in
        let each_limit = to_ℕ p.max_chunks_per_document in
        let s = select-nil-IsSelection n l p.limit each_limit least P (c ∷ chunks) h in
        record {
          few = omega (arith, length-join_all n [] _, s.few);
          few_each = λ id. omega (arith, count_of-join_all n id [] _, s.few_each id);
          each = All-join_all n P join [] _ tt s.each;
        }

    -- The citations are no more than the policy's limit, and of each document no more than its
    -- limit; what holds of all candidates and of two joined neighbours holds of every citation.
    pub trim_effective_chunks-IsCited :
        (p : CitationPolicy S) (chunks : List (RetrievalChunk S))
        → All P chunks
        → IsCited (normalize_citation_policy n p) P (trim_effective_chunks n l p chunks)
    unfolding trim_effective_chunks
    trim_effective_chunks-IsCited p chunks h =
        trim_sorted-IsCited (normalize_citation_policy n p) (sort_stable (ranks_before n) chunks)
          (All-sort_stable (ranks_before n) P chunks h)
