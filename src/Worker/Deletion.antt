-- ===== src/Worker/Deletion.antt =====
-- The deletion of a document, and the answers of the vector store and MinIO that it waits for.
use enterprise_rag.Prelude.{
  String, Bool, true, false, some, none, List, [], ◌∷◌, All, Text, codes, if◌then◌else◌, ◌≡◌, ◌≢◌,
  refl, sym, ap, ◌∙◌, ◌⊎◌, inl, inr, arith, find_first, str_eq_iff,
}
use enterprise_rag.Status.{TaskType}
use enterprise_rag.Store.{Db, Document, DocumentChunk, Message}
use enterprise_rag.Store.Evolution.{Evolves, Evolves-refl, Evolves-trans}
use enterprise_rag.Exec.{other, Result, ok, err, no_rows, World, Exec, raise, lift, wrapped, ◌>>=◌}
use enterprise_rag.Exec.Guards.{
  IsPreorder, Rely, Guards, Guards-pure, Guards-raise, Guards-bind_attempt, statement-All,
  Guards-statement,
}
use enterprise_rag.Exec.Returns.{ok-injective}
use enterprise_rag.Repository.Rows.{or_no_rows}
use enterprise_rag.Repository.Documents
use enterprise_rag.Worker.Services.{Services}
use enterprise_rag.Worker.Handlers.{
  remove_document, delete_stage, delete_found, delete_document, handle,
}

-- A document that is not deleted stays so.
abbrev pub StaysLive : Document → Document → Type 0
StaysLive x x' = x.deleted_at ≡ none → x'.deleted_at ≡ none

-- The same of a chunk.
abbrev pub ChunkStaysLive : DocumentChunk → DocumentChunk → Type 0
ChunkStaysLive c c' = c.deleted_at ≡ none → c'.deleted_at ≡ none

-- Every document and every chunk keeps its row, and one that is not deleted stays so.
abbrev pub KeepsLive : Db → Db → Type 0
KeepsLive d d' =
    Evolves StaysLive d.documents d'.documents × Evolves ChunkStaysLive d.chunks d'.chunks

pub KeepsLive-order : IsPreorder KeepsLive
KeepsLive-order = record {
  reflexive = λ d. (
    Evolves-refl StaysLive (λ x h. h) d.documents,
    Evolves-refl ChunkStaysLive (λ c h. h) d.chunks,
  );
  transitive = λ a b c p q. (
    Evolves-trans StaysLive (λ x y z f g h. g (f h)) _ _ _ p.0 q.0,
    Evolves-trans ChunkStaysLive (λ x y z f g h. g (f h)) _ _ _ p.1 q.1,
  );
}

-- One of the two answers that the code waits for never comes: that no vector of this document is
-- left, or that the file is removed.
abbrev pub Withheld : Services → String → Type 0
Withheld svc doc_id =
    ((user_id : String) → svc.has_doc_vectors user_id doc_id ≢ ok false)
    ⊎ ((bucket object : Text) → svc.remove_object bucket object ≢ ok tt)

-- A call that does not touch the tables, and what follows where it answers.
Guards-answer :
    {A B : Type 0} (prefix : Text) (r : Result A) (f : A → Exec B)
    → ((a : A) → r ≡ ok a → Guards KeepsLive KeepsLive-order (f a))
    → Guards KeepsLive KeepsLive-order (lift (wrapped prefix r) >>= f)
unfolding ◌>>=◌ lift wrapped
Guards-answer prefix (ok a) f g = record { at = λ w h. (g a refl).at w h }
Guards-answer prefix (err e) f g = record { at = λ w h. (KeepsLive-order.reflexive w.db, h) }

Guards-place :
    {A B : Type 0} (r : Result A) (f : A → Exec B)
    → ((a : A) → Guards KeepsLive KeepsLive-order (f a))
    → Guards KeepsLive KeepsLive-order (lift r >>= f)
unfolding ◌>>=◌ lift
Guards-place (ok a) f g = record { at = λ w h. (g a).at w h }
Guards-place (err e) f g = record { at = λ w h. (KeepsLive-order.reflexive w.db, h) }

Guards-kept :
    (svc : Services) (d : Document)
    → ((bucket object : Text) → svc.remove_object bucket object ≢ ok tt)
    → Guards KeepsLive KeepsLive-order (remove_document svc d)
unfolding remove_document
Guards-kept svc d h =
    Guards-place _ _ (λ place. Guards-answer _ _ _ (λ u e. absurd (h place.0 place.1 e)))

Guards-removed :
    (svc : Services) (d : Document) (residual : Bool)
    → Withheld svc d.id
    → svc.has_doc_vectors d.user_id d.id ≡ ok residual
    → Guards KeepsLive KeepsLive-order (
        if residual
        then raise (other (codes "milvus vectors still exist after delete"))
        else remove_document svc d)
Guards-removed svc d true h e = Guards-raise _
Guards-removed svc d false (inl h) e = absurd (h _ e)
Guards-removed svc d false (inr h) e = Guards-kept svc d h

Guards-deletion :
    (svc : Services) (d : Document)
    → Withheld svc d.id
    → Guards KeepsLive KeepsLive-order (delete_stage svc d)
unfolding delete_stage
Guards-deletion svc d h =
    Guards-answer _ _ _
      (λ u e. Guards-answer _ _ _ (λ residual k. Guards-removed svc d residual h k))

-- The document that is read has the id that is asked for.
HasId : String → Result Document → Type 0
HasId id r = (d : Document) → r ≡ ok d → d.id ≡ id

found-HasId :
    (id : String) (rows : List Document)
    → HasId id (or_no_rows (find_first (Documents.is_live id) rows))
unfolding HasId Documents.is_live
found-HasId id [] d h = cc
found-HasId id (x ∷ rows) d h = go (Documents.is_live id x) refl h (found-HasId id rows d)
  where
    go :
        (own : Bool)
        → Documents.is_live id x ≡ own
        → or_no_rows (if own then some x else find_first (Documents.is_live id) rows) ≡ ok d
        → (or_no_rows (find_first (Documents.is_live id) rows) ≡ ok d → d.id ≡ id)
        → d.id ≡ id
    go true e k rest =
        ap (λ (y : Document). y.id) (sym (ok-injective x d k))
        ∙ (str_eq_iff x.id id).0 (ground arith)
    go false e k rest = rest k

get_by_id-HasId : (id : String) (w : World) → HasId id (Documents.get_by_id id w).0
unfolding HasId Documents.get_by_id
get_by_id-HasId id w =
    statement-All (HasId id) (λ e d h. cc) _ w (λ now d. found-HasId id d.documents)

Guards-found :
    (svc : Services) (id : String) (r : Result Document)
    → Withheld svc id
    → HasId id r
    → Guards KeepsLive KeepsLive-order (delete_found svc r)
unfolding delete_found HasId
Guards-found svc id (ok d) h e = Guards-deletion svc d (rw (e d refl) h)
Guards-found svc id (err no_rows) h e = Guards-pure _
Guards-found svc id (err error) h e = Guards-raise _

-- If the vector store never answers that no vector of the document of the message is left, or no
-- file is ever removed, then the handler of its deletion deletes no document and no chunk and
-- removes no row of theirs, whatever fails, as long as the other processes do neither.
pub delete_document-KeepsLive :
    (svc : Services) (m : Message) (w : World)
    → Withheld svc m.doc_id
    → All (Rely KeepsLive) w.turns
    → KeepsLive w.db (handle TaskType.delete svc m w).1.db
unfolding handle delete_document Documents.get_by_id
delete_document-KeepsLive svc m w h rely =
    ((Guards-bind_attempt _ _ (HasId m.doc_id)
        (Guards-statement _ _ _ (λ now. KeepsLive-order.reflexive)) (get_by_id-HasId m.doc_id)
        (λ r. Guards-found svc m.doc_id r h)).at
      w rely).0
