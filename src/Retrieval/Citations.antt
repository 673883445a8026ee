-- ===== src/Retrieval/Citations.antt =====
-- api/internal/service/retrieval/citations.go: the chunks that an answer cites.
pub mod Selection
pub mod Joining
use Prim.Native.Nat.{min}
use enterprise_rag.Prelude.{
  ℕ, zero, suc, ◌+◌, String, Bool, true, false, ◌&&◌, ◌||◌, not, Option, none, some, List, [], ◌∷◌,
  ◌++◌, Text, codes, ◌==◌, leb, ltb, length, take, any_of, count_of, str_eq, if◌then◌else◌, map,
  keep_if,
}
use enterprise_rag.Prelude.Int.{ℤ, int_ltb, to_ℕ, int_less}
use enterprise_rag.Runes.{trim_space, text_eq}
use enterprise_rag.Retrieval.Scores.{Scores, Letters, RetrievalChunk}
use enterprise_rag.Retrieval.Scoring.{normalize_text, sort_stable, ranks_before}

pub record CitationPolicy (S : Type 0) : Type 0 where
  pub limit : ℕ
  pub absolute_threshold : S
  pub relative_threshold : S
  pub max_chunks_per_document : ℤ

-- `map[string]int`.
abbrev pub Counts : Type 0
Counts = List (String × ℕ)

unfoldable pub seen_count : String → Counts → ℕ
seen_count id [] = 0
seen_count id ((key, count) ∷ counts) = if str_eq key id then count else seen_count id counts

unfoldable pub increment : String → Counts → Counts
increment id [] = (id, 1) ∷ []
increment id ((key, count) ∷ counts) =
    let rest = increment id counts in
    if str_eq key id then (key, count + 1) ∷ counts else (key, count) ∷ rest

-- `absInt64(a - b) == 1`.
unfoldable pub is_next_to : ℤ → ℤ → Bool
is_next_to (ℤ.pos a) (ℤ.pos b) = a == b + 1 || b == a + 1
is_next_to (ℤ.negsuc a) (ℤ.negsuc b) = a == b + 1 || b == a + 1
is_next_to (ℤ.pos a) (ℤ.negsuc b) = a == 0 && b == 0
is_next_to (ℤ.negsuc a) (ℤ.pos b) = a == 0 && b == 0

-- The document, the section and the first 80 runes of the content.
unfoldable pub dedupe_signature : {S : Type 0} → Letters → RetrievalChunk S → Text
dedupe_signature l chunk =
    codes chunk.doc_id
    ++ (codes "|"
        ++ (normalize_text l chunk.section
            ++ (codes "|" ++ take 80 (normalize_text l chunk.content))))

module _ {S : Type 0} (n : Scores S) where
  unfoldable pub normalize_citation_policy : CitationPolicy S → CitationPolicy S
  normalize_citation_policy p = record {
    limit = if p.limit == 0 then 5 else p.limit;
    absolute_threshold =
        if n.at_most p.absolute_threshold (n.of_int 0)
        then n.thousandths 350
        else p.absolute_threshold;
    relative_threshold =
        if n.at_most p.relative_threshold (n.of_int 0) || n.less (n.of_int 1) p.relative_threshold
        then n.thousandths 720
        else p.relative_threshold;
    max_chunks_per_document =
        if int_ltb p.max_chunks_per_document 1 then ℤ.pos 3 else p.max_chunks_per_document;
  }

-- The loop of `trimEffectiveChunks` over the sorted chunks.
module _ {S : Type 0} (n : Scores S) (l : Letters) (limit per_document : ℕ) (min_score : S) where
  unfoldable pub select :
      List (RetrievalChunk S)
      → List Text
      → Counts
      → List (RetrievalChunk S)
      → List (RetrievalChunk S)
  unfolding seen_count increment dedupe_signature
  select [] signatures counts filtered = filtered
  select (chunk ∷ chunks) signatures counts filtered =
      let signature = dedupe_signature l chunk in
      let skip = select chunks signatures counts filtered in
      let take_it =
        select chunks (signature ∷ signatures) (increment chunk.doc_id counts)
          (filtered ++ chunk ∷ []) in
      if leb limit (length filtered) || n.less chunk.score min_score
      then filtered
      else if leb per_document (seen_count chunk.doc_id counts)
      then skip
      else if any_of (text_eq signature) signatures
      then skip
      else take_it

module _ {S : Type 0} (n : Scores S) where
  unfoldable pub is_adjacent : RetrievalChunk S → RetrievalChunk S → Bool
  unfolding is_next_to
  is_adjacent target c =
      str_eq c.doc_id target.doc_id
      && (text_eq c.section target.section && is_next_to c.chunk_index target.chunk_index)

  abbrev lines : Text → Text → Text
  lines a b = trim_space (a ++ (codes "\n" ++ b))

  unfoldable pub joined : RetrievalChunk S → RetrievalChunk S → RetrievalChunk S
  joined chunk old =
      if int_less chunk.chunk_index old.chunk_index
      then record old {
        content = lines chunk.content old.content;
        chunk_index = chunk.chunk_index;
        score = n.greater old.score chunk.score;
      }
      else record old {
        content = lines old.content chunk.content;
        score = n.greater old.score chunk.score;
      }

  -- One round of `mergeAdjacentChunks`: the first chunk that stands next to it takes it in.
  unfoldable pub join_chunk : RetrievalChunk S → List (RetrievalChunk S) → List (RetrievalChunk S)
  unfolding is_adjacent joined
  join_chunk chunk [] = chunk ∷ []
  join_chunk chunk (old ∷ merged) =
      let rest = join_chunk chunk merged in
      if is_adjacent chunk old then joined chunk old ∷ merged else old ∷ rest

  unfoldable pub join_all :
      List (RetrievalChunk S) → List (RetrievalChunk S) → List (RetrievalChunk S)
  unfolding join_chunk
  join_all merged [] = merged
  join_all merged (chunk ∷ chunks) = join_all (join_chunk chunk merged) chunks

  unfoldable pub merge_adjacent_chunks : List (RetrievalChunk S) → List (RetrievalChunk S)
  unfolding join_all
  merge_adjacent_chunks chunks = join_all [] chunks

  -- What is left of the sorted chunks.
  unfoldable pub trim_sorted :
      Letters → CitationPolicy S → List (RetrievalChunk S) → List (RetrievalChunk S)
  unfolding select merge_adjacent_chunks
  trim_sorted l p [] = []
  trim_sorted l p (chunk ∷ chunks) =
      let min_score = n.greater p.absolute_threshold (n.times chunk.score p.relative_threshold) in
      merge_adjacent_chunks
        (select n l p.limit (to_ℕ p.max_chunks_per_document) min_score (chunk ∷ chunks) [] [] [])

  unfoldable pub trim_effective_chunks :
      Letters → CitationPolicy S → List (RetrievalChunk S) → List (RetrievalChunk S)
  unfolding trim_sorted normalize_citation_policy sort_stable ranks_before
  trim_effective_chunks l p chunks =
      trim_sorted l (normalize_citation_policy n p) (sort_stable (ranks_before n) chunks)

-- The ids of a list, trimmed, without the blank ones.
unfoldable pub normalize_id_set : List String → List Text
normalize_id_set ids = keep_if (λ id. not (text_eq id [])) (map (λ id. trim_space (codes id)) ids)

unfoldable pub normalize_top_k : ℤ → ℤ → ℕ
normalize_top_k requested fallback =
    if int_ltb requested 1 then if int_ltb fallback 1 then 5 else to_ℕ fallback else to_ℕ requested

unfoldable pub normalize_multiplier : ℤ → ℕ
normalize_multiplier value = if int_ltb value 1 then 1 else min (to_ℕ value) 10

unfoldable pub normalize_candidate_limit : ℤ → ℕ
normalize_candidate_limit value = if int_ltb value 1 then 50 else min (to_ℕ value) 200

unfoldable pub normalize_max_citations : ℤ → ℕ
normalize_max_citations value = if int_ltb value 1 then 5 else min (to_ℕ value) 10
