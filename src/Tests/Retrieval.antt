-- ===== src/Tests/Retrieval.antt =====
-- The theorems about the search at concrete inputs.
use mathlib.Core.List.{Perm}
use enterprise_rag.Prelude.{
  ℕ, true, List, [], ◌∷◌, All, codes, ◌≡◌, refl, ap, arith, map, count_of, any_of,
}
use enterprise_rag.Prelude.Int.{ℤ}
use enterprise_rag.Exec.{World, quiet}
use enterprise_rag.Runes.{trim_space, trim_id, is_space, text_eq}
use enterprise_rag.Repository.Subjects
use enterprise_rag.Retrieval.Scores.{RetrievalChunk}
use enterprise_rag.Retrieval.Plan.{at_least_one, build_query_plan}
use enterprise_rag.Retrieval.Plan.Bounds.{IsPlan, build_query_plan-IsPlan}
use enterprise_rag.Retrieval.Scoring.{merge_chunks, rerank_chunks, keyword_tokens}
use enterprise_rag.Retrieval.Scoring.Tokens.{Long, keyword_tokens-Long}
use enterprise_rag.Retrieval.Scoring.Merging.{has_id, count_of-merge_chunks}
use enterprise_rag.Retrieval.Scoring.Ranking.{Ordered, InOrder, weighed, rerank_chunks-InOrder}
use enterprise_rag.Retrieval.Citations.{normalize_citation_policy, select, trim_effective_chunks}
use enterprise_rag.Retrieval.Citations.Selection.{IsSelection, select-nil-IsSelection}
use enterprise_rag.Retrieval.Citations.Joining.{IsCited, trim_effective_chunks-IsCited}
use enterprise_rag.Retrieval.Search.{search_with_options}
use enterprise_rag.Retrieval.Search.Origin.{From}
use enterprise_rag.Retrieval.Search.Candidates.{joined-From}
use enterprise_rag.Retrieval.Search.Results.{IsResult, search_with_options-IsResult}
use enterprise_rag.Retrieval.Search.Refusals.{Given}
use enterprise_rag.Retrieval.Search.Answers.{Working, search-Answers}
use enterprise_rag.Exec.Returns.{Answers}
use enterprise_rag.Tests.Samples.{world, empty_db, uploaded_document}
use enterprise_rag.Tests.Searches.{
  scores, letters, chunk, engine, engine-Trusted, policy, conf, options, user, subject,
}

build_query_plan-IsPlan_example :
    IsPlan letters
      (at_least_one (ℤ.pos 9) 500)
      (at_least_one (ℤ.pos 2) 4)
      (build_query_plan letters (codes "why? how") (codes "why") (ℤ.pos 9) (ℤ.pos 2))
build_query_plan-IsPlan_example =
    build_query_plan-IsPlan letters (codes "why? how") (codes "why") (ℤ.pos 9) (ℤ.pos 2)

keyword_tokens-Long_example : All Long (keyword_tokens letters (codes "why is it so?"))
keyword_tokens-Long_example = keyword_tokens-Long letters (codes "why is it so?")

abbrev first_list : List (RetrievalChunk ℕ)
first_list = chunk "a" (ℤ.pos 0) 900 ∷ chunk "b" (ℤ.pos 1) 800 ∷ []

abbrev second_list : List (RetrievalChunk ℕ)
second_list = chunk "b" (ℤ.pos 1) 700 ∷ chunk "c" (ℤ.pos 5) 600 ∷ []

count_of-merge_chunks_example :
    count_of (has_id "b") (merge_chunks scores first_list second_list) ≡ 1
count_of-merge_chunks_example = count_of-merge_chunks scores first_list second_list "b"

scores-Ordered : Ordered scores
scores-Ordered = record { asym = λ a b h. ground arith; same_comm = λ a b. ground arith }

rerank_chunks-InOrder_example :
    InOrder scores (rerank_chunks scores letters (codes "why") second_list)
    × Perm (rerank_chunks scores letters (codes "why") second_list) (
        map
          (λ (c : RetrievalChunk ℕ). record c { score = weighed scores letters (codes "why") c })
          second_list)
rerank_chunks-InOrder_example =
    rerank_chunks-InOrder scores scores-Ordered letters (codes "why") second_list

abbrev OfTenant : RetrievalChunk ℕ → Type 0
OfTenant c = c.tenant_id ≡ "tenant"

select-nil-IsSelection_example :
    IsSelection scores letters 2 3 350 OfTenant (select scores letters 2 3 350 first_list [] [] [])
select-nil-IsSelection_example =
    select-nil-IsSelection scores letters 2 3 350 OfTenant first_list (refl, (refl, tt))

trim_effective_chunks-IsCited_example :
    IsCited
      (normalize_citation_policy scores policy)
      (From engine "tenant" "subject")
      (trim_effective_chunks scores letters policy first_list)
trim_effective_chunks-IsCited_example =
    trim_effective_chunks-IsCited scores letters (From engine "tenant" "subject")
      (joined-From engine "tenant" "subject") policy first_list (refl, (refl, tt))

abbrev search_world : World
search_world =
    world (record empty_db { documents = uploaded_document ∷ []; subjects = subject ∷ [] }) []

engine-Working : Working engine options
engine-Working = record {
  embeds = λ tenant queries. (1, ([], refl));
  finds = λ tenant place v limit. (_, refl);
  missing = refl;
  notified = λ f message h. cc;
}

given : Given engine conf options "subject" (codes "why?")
unfolding trim_id trim_space is_space text_eq
given = refl

may_read : any_of (Subjects.accessible user (trim_id "subject")) search_world.db.subjects ≡ true
unfolding Subjects.accessible trim_id is_space
may_read = refl

answer :
    Answers search_world (search_with_options engine conf options user "subject" (codes "why?"))
answer =
    search-Answers engine conf options search_world engine-Working user "subject" (codes "why?")
      given may_read

search_with_options-IsResult_example :
    IsResult engine conf options "tenant" (trim_id "subject") answer.0
search_with_options-IsResult_example =
    search_with_options-IsResult engine conf options engine-Trusted user "subject" (codes "why?")
      (quiet search_world) answer.0 (ap (λ p. p.0) answer.1)
