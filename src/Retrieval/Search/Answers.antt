-- ===== src/Retrieval/Search/Answers.antt =====
-- A search that nothing disturbs is answered.
use enterprise_rag.Prelude.{
  ℕ, String, Bool, true, false, Option, none, some, List, [], ◌∷◌, Text, codes, ◌≡◌, refl, ap, ◌∙◌,
  any_of, length, ltb, find_first, if◌then◌else◌,
}
use enterprise_rag.Runes.{trim_space, trim_id, join}
use enterprise_rag.Store.{Document, DocumentChunk}
use enterprise_rag.Exec.{no_rows, Result, ok, World, quiet, Exec, lift, attempt, statement, ◌>>=◌}
use enterprise_rag.Exec.Atomic.{bind_eq}
use enterprise_rag.Exec.Returns.{Answers, Answers-pure, Answers-lift, Answers-bind}
use enterprise_rag.Repository.Rows.{or_no_rows}
use enterprise_rag.Repository.Documents
use enterprise_rag.Repository.Chunks
use enterprise_rag.Repository.Subjects
use enterprise_rag.Repository.Subjects.{User}
use enterprise_rag.Retrieval.Scores.{RetrievalChunk}
use enterprise_rag.Retrieval.Plan.{QueryPlan}
use enterprise_rag.Retrieval.Matches.{
  Match, Engine, add_matches, match_vectors, from_match, join_document, too_low, vector_chunks,
  from_chunk, keyword_chunks, keyword_search,
}
use enterprise_rag.Retrieval.Search.{
  RetrievalConf, SearchOptions, notify_stage, plan_of, candidates, ranked, search_vectors,
  search_subject, search_if, search_present, search_with_options,
}
use enterprise_rag.Retrieval.Search.Refusals.{Given, exists-quiet}

-- The embedding model and Milvus answer, the callback does not fail, and that no row was found is
-- known as such.
pub record Working {S : Type 0} (e : Engine S) (options : SearchOptions) : Type 0 where
  pub embeds :
      (tenant : String) (queries : List Text)
      → (v : ℕ) × ((vs : List ℕ) × (e.embed tenant queries ≡ ok (v ∷ vs)))
  pub finds :
      (tenant subject : String) (v limit : ℕ)
      → (ms : List (Match S)) × (e.search_vectors tenant subject v limit ≡ ok ms)
  pub missing : e.is_sql_no_rows no_rows ≡ true
  pub notified :
      (f : String → Result (Unit {0})) (message : String)
      → options.on_stage ≡ some f
      → f message ≡ ok tt

module _ {S : Type 0} (e : Engine S) (conf : RetrievalConf S) (options : SearchOptions)
    (w : World) where
  module _ (works : Working e options) where
    notify-Answers :
        (o : Option (String → Result (Unit {0}))) (message : String)
        → ((f : String → Result (Unit {0})) → o ≡ some f → f message ≡ ok tt)
        → Answers w (notify_stage o message)
    unfolding notify_stage
    notify-Answers none message h = Answers-pure w tt
    notify-Answers (some f) message h = Answers-lift w (f message) tt (h f refl)

    told : (message : String) → Answers w (notify_stage options.on_stage message)
    told message = notify-Answers options.on_stage message (λ f k. works.notified f message k)

    found_all :
        (tenant subject : String) (limit : ℕ) (vs : List ℕ) (ms : List (Match S))
        → (all : List (Match S)) × (match_vectors e tenant subject limit vs ms ≡ ok all)
    unfolding match_vectors
    found_all tenant subject limit [] ms = (ms, refl)
    found_all tenant subject limit (v ∷ vs) ms =
        let (cs, h) = works.finds tenant subject v limit in
        let (all, k) = found_all tenant subject limit vs (add_matches e ms cs) in (all, rw h k)

    get-quiet :
        (id : String)
        → attempt (Documents.get_by_id id) (quiet w)
          ≡ (ok (or_no_rows (find_first (Documents.is_live id) w.db.documents)), quiet w)
    unfolding attempt Documents.get_by_id statement
    get-quiet id = refl

    join_document-Answers :
        {A : Type 0} (make : A → Document → RetrievalChunk S) (m : A)
        (rest : Exec (List (RetrievalChunk S))) (o : Option Document)
        → Answers w rest
        → Answers w (join_document e make m rest (or_no_rows o))
    join_document-Answers make m rest (some d) h =
        Answers-bind w rest _ h (λ cs. Answers-pure w (make m d ∷ cs))
    join_document-Answers make m rest none h = rw works.missing h

    each-Answers :
        {A : Type 0} (make : A → Document → RetrievalChunk S) (m : A) (id : String)
        (rest : Exec (List (RetrievalChunk S)))
        → Answers w rest
        → Answers w (attempt (Documents.get_by_id id) >>= join_document e make m rest)
    each-Answers make m id rest h =
        let found = find_first (Documents.is_live id) w.db.documents in
        let next = join_document-Answers make m rest found h in
        (
          next.0,
          bind_eq (attempt (Documents.get_by_id id)) (join_document e make m rest)
                (or_no_rows found) (quiet w) (quiet w) (get-quiet id)
              ∙ next.1,
        )

    if-Answers :
        {A : Type 0} (b : Bool) (m n : Exec A)
        → Answers w m
        → Answers w n
        → Answers w (if b then m else n)
    if-Answers true m n h k = h
    if-Answers false m n h k = k

    vector_chunks-Answers :
        (threshold : S) (ms : List (Match S)) → Answers w (vector_chunks e threshold ms)
    unfolding vector_chunks
    vector_chunks-Answers threshold [] = Answers-pure w []
    vector_chunks-Answers threshold (m ∷ ms) =
        let rest = vector_chunks-Answers threshold ms in
        if-Answers (too_low e threshold m) _ _ rest
          (each-Answers (from_match e) m m.doc_id (vector_chunks e threshold ms) rest)

    keyword_chunks-Answers : (items : List (DocumentChunk × S)) → Answers w (keyword_chunks e items)
    unfolding keyword_chunks
    keyword_chunks-Answers [] = Answers-pure w []
    keyword_chunks-Answers (item ∷ items) =
        each-Answers (from_chunk e) item item.0.doc_id (keyword_chunks e items)
          (keyword_chunks-Answers items)

    list-Answers : (tenant subject : String) → Answers w (Chunks.list_by_subject tenant subject)
    unfolding Chunks.list_by_subject statement
    list-Answers tenant subject = (_, refl)

    keyword_search-Answers :
        (tenant subject : String) (query : Text) (limit : ℕ)
        → Answers w (keyword_search e tenant subject query limit)
    unfolding keyword_search
    keyword_search-Answers tenant subject query limit =
        Answers-bind w (Chunks.list_by_subject tenant subject) _ (list-Answers tenant subject)
          (λ cs. keyword_chunks-Answers _)

    candidates-Answers :
        (user : User) (subject : String) (plan : QueryPlan) (vectors : List ℕ)
        → Answers w (candidates e conf options user subject plan vectors)
    unfolding candidates
    candidates-Answers user subject plan vectors =
        Answers-bind w _ _ (told "retrieval.vector.start") (λ u.
          let all = found_all user.tenant_id subject _ vectors [] in
          Answers-bind w _ _ (Answers-lift w _ all.0 all.1) (λ ms.
            Answers-bind w _ _ (vector_chunks-Answers conf.similarity_threshold (e.map_order ms))
              (λ found. Answers-bind w _ _ (told "retrieval.keyword.start") (λ v.
                Answers-bind w _ _
                  (keyword_search-Answers user.tenant_id subject (join plan.queries (codes " ")) _)
                  (λ keywords.
                    Answers-bind w _ _ (told "retrieval.merge.start") (λ x. Answers-pure w _))))))

    ranked-Answers :
        (query : Text) (merged : List (RetrievalChunk S))
        → Answers w (ranked e conf options query merged)
    unfolding ranked
    ranked-Answers query merged =
        if-Answers conf.rerank _ _
          (Answers-bind w _ _ (told "retrieval.rerank.start") (λ u. Answers-pure w _))
          (Answers-bind w _ _ (told "retrieval.rerank.skipped") (λ u. Answers-pure w merged))

    search_vectors-Answers :
        (user : User) (subject : String) (query : Text) (plan : QueryPlan) (v : ℕ) (vs : List ℕ)
        → Answers w (search_vectors e conf options user subject query plan (v ∷ vs))
    unfolding search_vectors
    search_vectors-Answers user subject query plan v vs =
        Answers-bind w _ _ (candidates-Answers user subject plan (v ∷ vs)) (λ merged.
          Answers-bind w _ _ (ranked-Answers query merged) (λ chunks.
            Answers-bind w _ _ (told "retrieval.citations.trim") (λ u. Answers-pure w _)))

    search_subject-Answers :
        (user : User) (subject : String) (query : Text)
        → Answers w (search_subject e conf options user subject query)
    unfolding search_subject
    search_subject-Answers user subject query =
        let plan = plan_of e conf options query in
        let (v, (vs, h)) = works.embeds user.tenant_id plan.queries in
        let last = search_vectors-Answers user subject query plan v vs in
        Answers-bind w _ _ (told _) (λ u.
          Answers-bind w _ _
            (if-Answers (ltb 1 (length plan.queries)) _ _ (told "retrieval.query.split")
              (Answers-pure w tt))
            (λ x. Answers-bind w _ _ (told "retrieval.embedding.start") (λ y. (
              last.0,
              bind_eq (lift (e.embed user.tenant_id plan.queries)) _ (v ∷ vs) (quiet w) (quiet w)
                    (unfold lift in ap (λ r. (r, quiet w)) h)
                  ∙ last.1,
            ))))

    present-Answers :
        (user : User) (subject : String) (query : Text)
        → any_of (Subjects.accessible user subject) w.db.subjects ≡ true
        → Answers w (search_present e conf options user subject query)
    present-Answers user subject query h =
        let last = search_subject-Answers user subject query in
        (
          last.0,
          bind_eq (Subjects.exists_accessible user subject)
                (search_if e conf options user subject query) true (quiet w) (quiet w)
                (exists-quiet e conf options user subject w ∙ ap (λ b. (ok b, quiet w)) h)
              ∙ last.1,
        )

  -- When nothing fails, the embedding model gives a vector and Milvus answers, the callback does
  -- not fail, and the error of a missing row is known as such, a search of a knowledge base that
  -- the user may read returns chunks and metrics, and changes nothing.
  pub search-Answers :
      Working e options
      → (user : User) (subject : String) (query : Text) → Given e conf options subject query
      → any_of (Subjects.accessible user (trim_id subject)) w.db.subjects ≡ true
      → Answers w (search_with_options e conf options user subject query)
  unfolding search_with_options
  search-Answers works user subject query given h =
      rw given (present-Answers works user (trim_id subject) (trim_space query) h)
