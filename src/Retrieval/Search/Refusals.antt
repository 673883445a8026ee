-- ===== src/Retrieval/Search/Refusals.antt =====
-- Searches that are refused, and searches that are answered.
use enterprise_rag.Prelude.{
  String, true, false, ◌||◌, List, [], ◌∷◌, ◌++◌, Text, codes, ◌≡◌, refl, ap, ◌∙◌, str_eq, any_of,
}
use enterprise_rag.Runes.{trim_space, trim_id, text_eq}
use enterprise_rag.Store.{Subject}
use enterprise_rag.Exec.{other, ok, err, World, quiet, raise, statement}
use enterprise_rag.Exec.Atomic.{bind_eq}
use enterprise_rag.Repository.Subjects
use enterprise_rag.Repository.Subjects.{User}
use enterprise_rag.Subjects.{Surroundings}
use enterprise_rag.Subjects.Deletion.{Others, after_delete, subject_delete-IsGone}
use enterprise_rag.Retrieval.Matches.{Engine}
use enterprise_rag.Retrieval.Search.{
  RetrievalConf, SearchOptions, search_if, search_present, search_with_options,
}

module _ {S : Type 0} (e : Engine S) (conf : RetrievalConf S) (options : SearchOptions) where
  pub exists-quiet :
      (user : User) (id : String) (w : World)
      → Subjects.exists_accessible user id (quiet w)
        ≡ (ok (any_of (Subjects.accessible user id) w.db.subjects), quiet w)
  unfolding Subjects.exists_accessible statement
  exists-quiet user id w = refl

  present-refused :
      (user : User) (subject : String) (query : Text) (w : World)
      → any_of (Subjects.accessible user subject) w.db.subjects ≡ false
      → search_present e conf options user subject query (quiet w)
        ≡ (err (other (codes "knowledge base not found")), quiet w)
  present-refused user subject query w h =
      bind_eq (Subjects.exists_accessible user subject)
        (search_if e conf options user subject query) false (quiet w) (quiet w)
        (exists-quiet user subject w ∙ ap (λ b. (ok b, quiet w)) h)
      ∙ (unfold raise in refl)

  -- Both the knowledge base and the query are given.
  abbrev pub Given : String → Text → Type 0
  Given subject query = (str_eq (trim_id subject) "" || text_eq (trim_space query) []) ≡ false

  search-refused :
      (user : User) (subject : String) (query : Text) (w : World)
      → Given subject query
      → any_of (Subjects.accessible user (trim_id subject)) w.db.subjects ≡ false
      → search_with_options e conf options user subject query (quiet w)
        ≡ (err (other (codes "knowledge base not found")), quiet w)
  unfolding search_with_options
  search-refused user subject query w given h =
      rw given (present-refused user (trim_id subject) (trim_space query) w h)

  -- When nothing fails, a search of a knowledge base that its owner has deleted, whose id no other
  -- row has, is refused to every user as not found, and changes nothing.
  pub deleted-refused :
      (env : Surroundings) (owner other_user : User) (id : String) (query : Text) (w : World)
      (before : List Subject) (s : Subject) (after : List Subject)
      → env.current_user ≡ ok owner
      → env.delete_by_subject owner.id (trim_id id) ≡ ok tt
      → str_eq (trim_id id) "" ≡ false
      → text_eq (trim_space query) [] ≡ false
      → w.db.subjects ≡ before ++ s ∷ after
      → Others (trim_id id) before
      → Others (trim_id id) after
      → Subjects.owned owner (trim_id id) s ≡ true
      → search_with_options e conf options other_user id query (quiet (after_delete env id w))
        ≡ (err (other (codes "knowledge base not found")), quiet (after_delete env id w))
  deleted-refused env owner other_user id query w before s after asks milvus named asked rows h k
        own =
      let gone =
        subject_delete-IsGone env owner id w before s after asks milvus named rows h k own in
      search-refused other_user id query (after_delete env id w) (rw (named, asked) refl)
        (gone.1.unread other_user)
