-- ===== src/Worker/Embedding.antt =====
-- The last stage of indexing, when nothing fails: a chunked document is indexed.
use enterprise_rag.Prelude.{
  ℕ, String, ◌&&◌, true, false, some, none, List, [], ◌∷◌, ◌++◌, map, ◌≡◌, refl, ap, ◌∙◌, ◌==◌,
  ==_iff, keep_if, length, str_eq, str_eq_iff, All,
}
use enterprise_rag.Status.{
  DocumentStatus, chunked, embedding, indexed, document_any, document_previous_statuses,
  same_document,
}
use enterprise_rag.Store.{Db, Document, DocumentChunk, Message}
use enterprise_rag.Store.Lookup.{count_of-one, update_rows-one, find_first-one}
use enterprise_rag.Exec.{ok, World, quiet, lift, statement}
use enterprise_rag.Exec.Atomic.{bind_eq}
use enterprise_rag.Repository.Rows.{is_null}
use enterprise_rag.Repository.Documents
use enterprise_rag.Repository.Chunks
use enterprise_rag.Worker.Services.{Services}
use enterprise_rag.Worker.Handlers.{
  build_embedding_text, begin_stage, embed_chunks, embed_stage, embed_document,
  document_at_or_beyond,
}

-- The document is the only row with its id, and is not deleted.
pub record IsOnly (d : Document) (before after : List Document) : Type 0 where
  pub live : d.deleted_at ≡ none
  pub first : All (λ (x : Document). str_eq x.id d.id ≡ false) before
  pub last : All (λ (x : Document). str_eq x.id d.id ≡ false) after

other_ids :
    (id : String) (previous : List DocumentStatus) (rows : List Document)
    → All (λ (x : Document). str_eq x.id id ≡ false) rows
    → All (λ x. Documents.live_with_status id previous x ≡ false) rows
unfolding Documents.live_with_status
other_ids id previous [] h = tt
other_ids id previous (x ∷ rows) h = (rw h.0 refl, other_ids id previous rows h.1)

not_live :
    (id : String) (rows : List Document)
    → All (λ (x : Document). str_eq x.id id ≡ false) rows
    → All (λ x. Documents.is_live id x ≡ false) rows
unfolding Documents.is_live
not_live id [] h = tt
not_live id (x ∷ rows) h = (rw h.0 refl, not_live id rows h.1)

-- The document with another status and no error, in its place.
abbrev pub set_in : Document → DocumentStatus → List Document → List Document → List Document
set_in d s before after = before ++ Documents.status_set s none d ∷ after

get-only :
    (d : Document) (before after : List Document) (w : World)
    → IsOnly d before after
    → w.db.documents ≡ before ++ d ∷ after
    → Documents.get_by_id d.id (quiet w) ≡ (ok d, quiet w)
unfolding Documents.get_by_id statement
get-only d before after w only e =
    let is_own : Documents.is_live d.id d ≡ true = own d only.live in
    let found =
      find_first-one (Documents.is_live d.id) before d after (not_live d.id before only.first)
        is_own in
    rw (e, found) refl
  where
    own : (d : Document) → d.deleted_at ≡ none → Documents.is_live d.id d ≡ true
    own d live = unfold Documents.is_live in rw ((str_eq_iff d.id d.id).1 refl, live) refl

set-only :
    (d : Document) (next : DocumentStatus) (previous : List DocumentStatus)
    (before after : List Document) (w : World)
    → IsOnly d before after
    → document_previous_statuses next ≡ some previous
    → document_any d.status previous ≡ true
    → w.db.documents ≡ before ++ d ∷ after
    → Documents.update_status d.id next [] (quiet w)
      ≡ (ok tt, quiet (record w { db = record w.db { documents = set_in d next before after } }))
unfolding Documents.update_status Documents.write_status statement
set-only d next previous before after w only prev any e =
    let test = Documents.live_with_status d.id previous in
    let own : test d ≡ true =
      unfold Documents.live_with_status in
      rw ((str_eq_iff d.id d.id).1 refl, only.live, any) refl in
    let first = other_ids d.id previous before only.first in
    let last = other_ids d.id previous after only.last in
    let one = count_of-one test before d after first last own in
    let rows =
      update_rows-one test (Documents.status_set next none) before d after first last own in
    rw (prev, e, one, rows) refl

-- The world with the document's status set.
abbrev pub stage : Document → DocumentStatus → List Document → List Document → World → World
stage d s before after w = record w { db = record w.db { documents = set_in d s before after } }

-- What the stage needs: the document's chunks in the order of their index, of which there is one
-- at least, and answers from the embedding model, one vector for each chunk, and from Milvus.
pub record IsEmbeddable (svc : Services) (d : Document) (db : Db) : Type 0 where
  pub chunk : DocumentChunk
  pub chunks : List DocumentChunk
  pub vectors : List ℕ
  pub listed :
      Chunks.by_index (keep_if (λ row. str_eq row.doc_id d.id && is_null row.deleted_at) db.chunks)
      ≡ chunk ∷ chunks
  pub embedded : svc.embed d.tenant_id (map build_embedding_text (chunk ∷ chunks)) ≡ ok vectors
  pub same_length : length vectors ≡ length (chunk ∷ chunks)
  pub upserted : svc.upsert_chunks (chunk ∷ chunks) vectors ≡ ok tt

list-quiet :
    (id : String) (w : World) (cs : List DocumentChunk)
    → Chunks.by_index (keep_if (λ row. str_eq row.doc_id id && is_null row.deleted_at) w.db.chunks)
      ≡ cs
    → Chunks.list_by_document id (quiet w) ≡ (ok cs, quiet w)
unfolding Chunks.list_by_document statement
list-quiet id w cs h = rw h refl

begin-quiet :
    (d : Document) (before after : List Document) (w : World)
    → d.status ≡ chunked
    → IsOnly d before after
    → w.db.documents ≡ before ++ d ∷ after
    → begin_stage d embedding (quiet w) ≡ (ok tt, quiet (stage d embedding before after w))
unfolding begin_stage
begin-quiet d before after w s only e =
    let fresh : same_document d.status embedding ≡ false =
      ap (λ x. same_document x embedding) s ∙ (unfold same_document in refl) in
    let any : document_any d.status (chunked ∷ []) ≡ true =
      ap (λ x. document_any x (chunked ∷ [])) s ∙ (unfold document_any in refl) in
    let prev : document_previous_statuses embedding ≡ some (chunked ∷ []) =
      unfold document_previous_statuses in refl in
    rw fresh (set-only d embedding (chunked ∷ []) before after w only prev any e)

chunks-quiet :
    (svc : Services) (d : Document) (before after : List Document) (w : World)
    (x : IsEmbeddable svc d w.db)
    → IsOnly d before after
    → embed_chunks svc d (x.chunk ∷ x.chunks) (quiet (stage d embedding before after w))
      ≡ (ok tt, quiet (stage d indexed before after w))
unfolding embed_chunks lift Documents.status_set
chunks-quiet svc d before after w x only =
    let d1 = Documents.status_set embedding none d in
    let w1 = stage d embedding before after w in
    let even : (length x.vectors == length (x.chunk ∷ x.chunks)) ≡ true =
      (==_iff _ _).1 x.same_length in
    let only1 : IsOnly d1 before after = record {
      live = only.live;
      first = only.first;
      last = only.last;
    } in
    let prev : document_previous_statuses indexed ≡ some (embedding ∷ []) =
      unfold document_previous_statuses in refl in
    let any : document_any embedding (embedding ∷ []) ≡ true = unfold document_any in refl in
    let set = set-only d1 indexed (embedding ∷ []) before after w1 only1 prev any refl in
    bind_eq (lift (svc.embed d.tenant_id (map build_embedding_text (x.chunk ∷ x.chunks)))) _
      x.vectors (quiet w1) (quiet w1) (ap (λ r. (r, quiet w1)) x.embedded)
    ∙ rw even (
        bind_eq (lift (svc.upsert_chunks (x.chunk ∷ x.chunks) x.vectors))
          (λ _. Documents.update_status d.id indexed []) tt (quiet w1) (quiet w1)
          (ap (λ r. (r, quiet w1)) x.upserted)
        ∙ set)

-- When nothing fails, the handler that embeds a chunked document whose id no other row has indexes
-- it, if it has chunks, the model gives a vector for each of their texts, in the order of their
-- index, and Milvus takes both: the document's status is set to indexed and its error removed, and
-- no other row of any table changes.
pub embed_document-indexed :
    (svc : Services) (m : Message) (d : Document) (before after : List Document) (w : World)
    → m.doc_id ≡ d.id
    → d.status ≡ chunked
    → IsOnly d before after
    → w.db.documents ≡ before ++ d ∷ after
    → IsEmbeddable svc d w.db
    → embed_document svc m (quiet w) ≡ (
      ok tt,
      quiet (record w {
        db = record w.db {
          documents = before ++ record d { status = indexed; error_message = none } ∷ after;
        };
      }),
    )
unfolding embed_document embed_stage Documents.status_set
embed_document-indexed svc m d before after w same s only e x =
    let w1 = stage d embedding before after w in
    let early : document_at_or_beyond d.status indexed ≡ false =
      ap (λ y. document_at_or_beyond y indexed) s ∙ (unfold document_at_or_beyond in refl) in
    let got : Documents.get_by_id m.doc_id (quiet w) ≡ (ok d, quiet w) =
      ap (λ id. Documents.get_by_id id (quiet w)) same ∙ get-only d before after w only e in
    let begun = begin-quiet d before after w s only e in
    let listed = list-quiet d.id w1 (x.chunk ∷ x.chunks) x.listed in
    bind_eq (Documents.get_by_id m.doc_id) _ d (quiet w) (quiet w) got
    ∙ rw early (
        bind_eq _ _ tt (quiet w) (quiet w1) begun
        ∙ bind_eq _ _ (x.chunk ∷ x.chunks) (quiet w1) (quiet w1) listed
        ∙ chunks-quiet svc d before after w x only)
