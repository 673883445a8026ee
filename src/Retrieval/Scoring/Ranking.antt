-- ===== src/Retrieval/Scoring/Ranking.antt =====
-- The order of the chunks after they are ranked.
use mathlib.Core.List.{Perm}
use enterprise_rag.Prelude.{
  Bool, true, false, not, ◌&&◌, ◌||◌, List, [], ◌∷◌, ◌++◌, Text, codes, ◌≡◌, refl, arith, map,
  if◌then◌else◌,
}
use enterprise_rag.Prelude.Int.{ℤ, int_less}
use enterprise_rag.Retrieval.Scores.{
  Scores, Letters, Source, vector, keyword, hybrid, RetrievalChunk,
}
use enterprise_rag.Retrieval.Scoring.{
  token_overlap_score, clamp01, rescored, ranks_before, rerank_chunks,
}
use enterprise_rag.Retrieval.Scoring.Sorting.{Sorted, Sorted-sort_stable, sort_stable-perm}

-- What the order of scores has to be: no two are each less than the other, and it does not matter
-- which of two is compared with which.
pub record Ordered {S : Type 0} (n : Scores S) : Type 0 where
  pub asym : (a b : S) → n.less a b ≡ true → n.less b a ≡ false
  pub same_comm : (a b : S) → n.same a b ≡ n.same b a

module _ {S : Type 0} (n : Scores S) where
  -- Of two chunks that stand side by side, the second has no greater score, and no smaller index
  -- where the scores are the same.
  abbrev pub InOrder : List (RetrievalChunk S) → Type 0
  InOrder [] = Unit
  InOrder (x ∷ []) = Unit
  InOrder (x ∷ y ∷ chunks) =
      ((n.same x.score y.score && int_less y.chunk_index x.chunk_index
          || not (n.same x.score y.score) && n.less x.score y.score)
        ≡ false)
      × InOrder (y ∷ chunks)

  abbrev pub keyword_bonus : Source → S
  keyword_bonus vector = n.of_int 0
  keyword_bonus keyword = n.thousandths 50
  keyword_bonus hybrid = n.of_int 0

  -- The score that a chunk is ranked by.
  abbrev pub weighed : Letters → Text → RetrievalChunk S → S
  weighed l query c =
      let whole = token_overlap_score n l query (c.section ++ (codes " " ++ c.content)) in
      let section = token_overlap_score n l query c.section in
      let old = n.times c.score (n.thousandths 300) in
      let more = n.times whole (n.thousandths 500) in
      let most = n.times section (n.thousandths 150) in
      n.greater (n.of_int 0)
        (n.smaller (n.of_int 1) (n.plus (n.plus (n.plus old more) most) (keyword_bonus c.source)))

int_less_asym : (a b : ℤ) → int_less a b ≡ true → int_less b a ≡ false
int_less_asym (ℤ.pos a) (ℤ.pos b) h = ground arith
int_less_asym (ℤ.pos a) (ℤ.negsuc b) h = cc
int_less_asym (ℤ.negsuc a) (ℤ.pos b) h = refl
int_less_asym (ℤ.negsuc a) (ℤ.negsuc b) h = ground arith

module _ {S : Type 0} (n : Scores S) (o : Ordered n) where
  ranks_before_asym :
      (a b : RetrievalChunk S) → ranks_before n a b ≡ true → ranks_before n b a ≡ false
  unfolding ranks_before
  ranks_before_asym a b =
      go (n.same a.score b.score) (n.same b.score a.score) (o.same_comm a.score b.score)
    where
      go :
          (x y : Bool)
          → x ≡ y
          → (if x then int_less a.chunk_index b.chunk_index else n.less b.score a.score) ≡ true
          → (if y then int_less b.chunk_index a.chunk_index else n.less a.score b.score) ≡ false
      go true true e h = int_less_asym a.chunk_index b.chunk_index h
      go true false e h = cc
      go false true e h = cc
      go false false e h = o.asym b.score a.score h

  in_order : (chunks : List (RetrievalChunk S)) → Sorted (ranks_before n) chunks → InOrder n chunks
  unfolding ranks_before
  in_order [] h = tt
  in_order (x ∷ []) h = tt
  in_order (x ∷ y ∷ chunks) h = (
    go (n.same x.score y.score) (n.same y.score x.score) (o.same_comm x.score y.score) h.0,
    in_order (y ∷ chunks) h.1,
  )
    where
      go :
          (same same' : Bool)
          → same ≡ same'
          → (if same' then int_less y.chunk_index x.chunk_index else n.less x.score y.score) ≡ false
          → (same && int_less y.chunk_index x.chunk_index || not same && n.less x.score y.score)
            ≡ false
      go same same' e h = ground arith

  -- If the order of scores is one, the chunks that ranking returns are a permutation of those that
  -- it is given, with the score of 0.3 of the old one, 0.5 of the overlap of the query with section
  -- and content, 0.15 of that with the section, and 0.05 for one that only the keywords found, cut
  -- to between 0 and 1; and of two that stand side by side, the second has no greater score, and no
  -- smaller index where the scores are the same.
  pub rerank_chunks-InOrder :
      (l : Letters) (query : Text) (chunks : List (RetrievalChunk S))
      → InOrder n (rerank_chunks n l query chunks)
        × Perm
            (rerank_chunks n l query chunks)
            (map (λ (c : RetrievalChunk S). record c { score = weighed n l query c }) chunks)
  unfolding rerank_chunks rescored clamp01
  rerank_chunks-InOrder l query chunks =
      let scored = map (rescored n l query) chunks in
      (
        in_order _ (Sorted-sort_stable (ranks_before n) ranks_before_asym scored),
        sort_stable-perm (ranks_before n) scored,
      )
