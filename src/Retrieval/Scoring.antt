-- ===== src/Retrieval/Scoring.antt =====
-- api/internal/service/retrieval/scoring.go: scores by keywords, the merging of two lists of
-- chunks, and their order.
pub mod Tokens
pub mod Sorting
pub mod Merging
pub mod Ranking
use enterprise_rag.Prelude.{
  ℕ, zero, suc, String, Bool, true, false, ◌&&◌, ◌||◌, not, Option, none, some, List, [], ◌∷◌, ◌++◌,
  map, Text, codes, ◌==◌, leb, ltb, length, take, any_of, str_eq, if◌then◌else◌,
}
use enterprise_rag.Prelude.Int.{ℤ, int_ltb, to_ℕ, int_less}
use enterprise_rag.Store.{DocumentChunk, ChunkMetadata}
use enterprise_rag.Runes.{trim_space, text_eq, contains, fields_func, join}
use enterprise_rag.Retrieval.Scores.{
  Scores, Letters, Source, vector, keyword, hybrid, RetrievalChunk,
}

-- The punctuation that `strings.NewReplacer` takes out.
unfoldable pub is_dropped : ℕ → Bool
is_dropped c =
    c == 0xff1f
    || (c == b'?'
        || (c == 0x3002
            || (c == b'.' || (c == 0xff0c || (c == b',' || (c == 0xff1a || c == b':'))))))

unfoldable pub without_dropped : Text → Text
unfolding is_dropped
without_dropped [] = []
without_dropped (c ∷ s) = let rest = without_dropped s in if is_dropped c then rest else c ∷ rest

unfoldable pub normalize_text : Letters → Text → Text
unfolding without_dropped
normalize_text l text = without_dropped (map l.lower (trim_space text))

unfoldable pub contains_han : Letters → Text → Bool
contains_han l = any_of l.is_han

-- Each two runes that stand side by side.
unfoldable pub pairs : Text → List Text
pairs [] = []
pairs (c ∷ []) = []
pairs (c ∷ d ∷ s) = (c ∷ d ∷ []) ∷ pairs (d ∷ s)

unfoldable pub append_token : Letters → List Text → Text → List Text
unfolding contains_han pairs
append_token l tokens token =
    if ltb (length token) 2
    then tokens
    else if contains_han l token
    then tokens ++ (pairs token ++ (if leb (length token) 12 then token ∷ [] else []))
    else tokens ++ token ∷ []

unfoldable pub append_tokens : Letters → List Text → List Text → List Text
unfolding append_token
append_tokens l tokens [] = tokens
append_tokens l tokens (token ∷ rest) = append_tokens l (append_token l tokens token) rest

-- The builder of the loop collects the runs of letters and digits.
unfoldable pub keyword_tokens : Letters → Text → List Text
unfolding normalize_text append_tokens
keyword_tokens l text =
    append_tokens l [] (fields_func (λ c. not (l.is_letter_or_digit c)) (normalize_text l text))

unfoldable pub chunk_metadata_text : Option ChunkMetadata → Text
chunk_metadata_text none = []
chunk_metadata_text (some m) = join (m.heading_path ++ (m.keywords ++ m.summary ∷ [])) (codes " ")

abbrev is_empty : Text → Bool
is_empty [] = true
is_empty (c ∷ s) = false

-- The tokens that were not seen before.
unfoldable pub distinct_from : List Text → List Text → List Text
distinct_from seen [] = []
distinct_from seen (token ∷ tokens) =
    let skip = distinct_from seen tokens in
    let keep = token ∷ distinct_from (token ∷ seen) tokens in
    if any_of (text_eq token) seen then skip else keep

abbrev hits_in : Text → List Text → ℕ
hits_in content [] = 0
hits_in content (token ∷ tokens) =
    let rest = hits_in content tokens in if contains content token then suc rest else rest

module _ {S : Type 0} (n : Scores S) where
  abbrev add_if : Bool → S → S → S
  add_if b more score = if b then n.plus score more else score

  -- The loop over the tokens of the query.
  unfoldable pub token_score : Text → Text → Text → List Text → S → S
  token_score section content metadata [] score = score
  token_score section content metadata (token ∷ tokens) score =
      token_score section content metadata tokens (
        add_if (contains metadata token) (n.thousandths 1500) (
          add_if (contains content token) (n.of_int 1)
            (add_if (contains section token) (n.of_int 3) score)))

  unfoldable pub keyword_score : Letters → Text → DocumentChunk → S
  unfolding token_score keyword_tokens chunk_metadata_text normalize_text
  keyword_score l query chunk =
      let q = normalize_text l query in
      let section = normalize_text l chunk.section in
      let content = normalize_text l chunk.content in
      let metadata = normalize_text l (chunk_metadata_text chunk.metadata) in
      let has_section = not (is_empty section) in
      let start =
        add_if (has_section && contains content section) (n.of_int 1)
          (add_if (has_section && contains section q) (n.of_int 5) (n.of_int 0)) in
      if is_empty q
      then n.of_int 0
      else token_score section content metadata (keyword_tokens l q) start

  unfoldable pub clamp01 : S → S
  clamp01 value = n.greater (n.of_int 0) (n.smaller (n.of_int 1) value)

  -- A chunk that is found twice.
  unfoldable pub merged_with : RetrievalChunk S → RetrievalChunk S → RetrievalChunk S
  unfolding clamp01
  merged_with chunk old = record old {
    score = clamp01 (n.plus (n.greater old.score chunk.score) (n.thousandths 100));
    raw_score = n.greater old.raw_score chunk.raw_score;
    source = hybrid;
  }

  -- One round of the loop: the entry of the chunk's id, or a new one at the end.
  unfoldable pub merge_chunk : RetrievalChunk S → List (RetrievalChunk S) → List (RetrievalChunk S)
  unfolding merged_with
  merge_chunk chunk [] = chunk ∷ []
  merge_chunk chunk (old ∷ merged) =
      let rest = merge_chunk chunk merged in
      if str_eq old.id chunk.id then merged_with chunk old ∷ merged else old ∷ rest

  unfoldable pub merge_into :
      List (RetrievalChunk S) → List (RetrievalChunk S) → List (RetrievalChunk S)
  unfolding merge_chunk
  merge_into merged [] = merged
  merge_into merged (chunk ∷ chunks) = merge_into (merge_chunk chunk merged) chunks

  unfoldable pub merge_chunks :
      List (RetrievalChunk S) → List (RetrievalChunk S) → List (RetrievalChunk S)
  unfolding merge_into
  merge_chunks primary secondary = merge_into (merge_into [] primary) secondary

module _ {ℓ} {A : Type ℓ} (before : A → A → Bool) where
  -- `sort.SliceStable`: an item goes behind those that it is not before.
  unfoldable pub insert_stable : A → List A → List A
  insert_stable x [] = x ∷ []
  insert_stable x (y ∷ ys) =
      let later = insert_stable x ys in if before y x then y ∷ later else x ∷ y ∷ ys

  unfoldable pub sort_stable : List A → List A
  unfolding insert_stable
  sort_stable [] = []
  sort_stable (x ∷ xs) = insert_stable x (sort_stable xs)

module _ {S : Type 0} (n : Scores S) where
  unfoldable pub limit_candidates : List (RetrievalChunk S) → ℕ → List (RetrievalChunk S)
  unfolding sort_stable
  limit_candidates chunks limit =
      if limit == 0 || leb (length chunks) limit
      then chunks
      else take limit (sort_stable (λ a b. n.less b.score a.score) chunks)

  -- The greatest and the smallest raw score.
  abbrev extremes : List (RetrievalChunk S) → S × S → S × S
  extremes [] m = m
  extremes (c ∷ chunks) (high, low) =
      extremes chunks (n.greater high c.raw_score, n.smaller low c.raw_score)

  abbrev normalized : S × S → RetrievalChunk S → RetrievalChunk S
  normalized (high, low) c = record c {
    score =
        if n.same high low then n.of_int 1 else n.over (n.minus c.raw_score low) (n.minus high low);
  }

  -- One group of `normalizeScores`.
  unfoldable pub normalize_scores : List (RetrievalChunk S) → List (RetrievalChunk S)
  normalize_scores [] = []
  normalize_scores (c ∷ chunks) =
      map (normalized (extremes chunks (c.raw_score, c.raw_score))) (c ∷ chunks)

  unfoldable pub token_overlap_score : Letters → Text → Text → S
  unfolding keyword_tokens distinct_from normalize_text
  token_overlap_score l query content =
      let seen = distinct_from [] (keyword_tokens l query) in
      if length seen == 0
      then n.of_int 0
      else n.over (n.of_int (hits_in (normalize_text l content) seen)) (n.of_int (length seen))

  abbrev source_boost : Source → S
  source_boost keyword = n.thousandths 50
  source_boost _ = n.of_int 0

  unfoldable pub rescored : Letters → Text → RetrievalChunk S → RetrievalChunk S
  unfolding token_overlap_score clamp01
  rescored l query c =
      let overlap = token_overlap_score l query (c.section ++ (codes " " ++ c.content)) in
      let section_overlap = token_overlap_score l query c.section in
      record c {
        score = clamp01 n (
            n.plus
              (n.plus
                (n.plus (n.times c.score (n.thousandths 300)) (n.times overlap (n.thousandths 500)))
                (n.times section_overlap (n.thousandths 150)))
              (source_boost c.source));
      }

  -- By score from the greatest down, and by index where the scores are the same.
  unfoldable pub ranks_before : RetrievalChunk S → RetrievalChunk S → Bool
  ranks_before a b =
      if n.same a.score b.score
      then int_less a.chunk_index b.chunk_index
      else n.less b.score a.score

  unfoldable pub rerank_chunks : Letters → Text → List (RetrievalChunk S) → List (RetrievalChunk S)
  unfolding rescored sort_stable ranks_before
  rerank_chunks l query chunks = sort_stable ranks_before (map (rescored l query) chunks)
