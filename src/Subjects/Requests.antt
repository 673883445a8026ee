-- ===== src/Subjects/Requests.antt =====
-- A request about a knowledge base, call by call.
use enterprise_rag.Prelude.{ℕ, zero, suc, String, Bool, true, false, ◌||◌, All, Text, ◌≡◌, str_eq}
use enterprise_rag.Runes.{trim_space, trim_id}
use enterprise_rag.Store.{Subject}
use enterprise_rag.Exec.{Result, ok, err, subject_not_found, World, Exec}
use enterprise_rag.Exec.Guards.{
  Rely, Guards, Guards-pure, Guards-raise, Guards-lift, Guards-attempt, Guards-if, Guards-bind,
  Guards-bind_lift, Guards-statement, Guards-inside, Guards-transaction,
}
use enterprise_rag.Repository.Subjects
use enterprise_rag.Repository.Subjects.{User}
use enterprise_rag.Subjects.{
  Surroundings, subject_create, subject_update, subject_delete, create_new, update_named,
  delete_present, is_blank, create_error, update_error,
}
use enterprise_rag.Subjects.Isolation.{
  Isolated, Isolated-refl, Isolated-order, Asks, insert_subject-Isolated, update_subject-Isolated,
  mark_subject_deleted-Isolated, mark_documents_deleted-Isolated, mark_chunks_deleted-Isolated,
}

abbrev Safe : {A : Type 0} → Result User → Exec A → Type 0
Safe who m = Guards (Isolated who) (Isolated-order who) m

module _ (who : Result User) where
  Guards-create :
      (lower : Text → Text) (subject : Subject) → Safe who (Subjects.create lower subject)
  unfolding Subjects.create
  Guards-create lower subject = Guards-statement _ _ _ (insert_subject-Isolated who lower subject)

  Guards-get : (user : User) (id : String) → Safe who (Subjects.get_accessible_by_id user id)
  unfolding Subjects.get_accessible_by_id
  Guards-get user id = Guards-statement _ _ _ (λ now d. Isolated-refl who d)

  Guards-after_rollback : (r : Result Bool) → Safe who (Subjects.after_rollback r)
  Guards-after_rollback (ok b) = Guards-pure b
  Guards-after_rollback (err subject_not_found) = Guards-pure false
  Guards-after_rollback (err e) = Guards-raise e

  module _ (user : User) (asks : who ≡ ok user) where
    Guards-after_mark : (id : String) (n : ℕ) → Safe who (Subjects.after_mark user id n)
    Guards-after_mark id zero = Guards-raise _
    Guards-after_mark id (suc n) =
        Guards-bind _ _ (Guards-inside _ _ _ (mark_documents_deleted-Isolated who user asks id))
          (λ u.
            Guards-bind _ _ (Guards-inside _ _ _ (mark_chunks_deleted-Isolated who user asks id))
              (λ v. Guards-pure true))

    Guards-soft_delete : (id : String) → Safe who (Subjects.soft_delete_by_owner user id)
    unfolding Subjects.soft_delete_by_owner Subjects.delete_rows
    Guards-soft_delete id =
        Guards-bind _ _
          (Guards-attempt _ (
            Guards-transaction _ _ _ (
              Guards-bind _ _ (Guards-inside _ _ _ (mark_subject_deleted-Isolated who user asks id))
                (Guards-after_mark id))))
          Guards-after_rollback

  Guards-update :
      (lower : Text → Text) (subject : Subject)
      → Asks who subject.owner_id subject.tenant_id
      → Safe who (Subjects.update_by_owner lower subject)
  unfolding Subjects.update_by_owner
  Guards-update lower subject asks =
      let user : User = record { id = subject.owner_id; tenant_id = subject.tenant_id } in
      Guards-statement _ _ _ (update_subject-Isolated who user asks lower subject.id subject)

-- A request that changes knowledge bases.
pub data SubjectRequest : Type 0 where
  -- The name, the description and the visibility.
  create : Text → Text → Text → SubjectRequest
  update : String → Text → Text → Text → SubjectRequest
  delete : String → SubjectRequest

-- The tables after it.
abbrev pub request : Surroundings → SubjectRequest → World → World
request env (SubjectRequest.create name description visibility) w =
    (subject_create env name description visibility w).1
request env (SubjectRequest.update id name description visibility) w =
    (subject_update env id name description visibility w).1
request env (SubjectRequest.delete id) w = (subject_delete env id w).1

module _ (env : Surroundings) where
  Guards-create_new :
      (name description visibility : Text)
      → Safe env.current_user (create_new env name description visibility)
  Guards-create_new name description visibility =
      Guards-bind _ _ (Guards-lift env.current_user) (λ user.
        Guards-bind _ _ (Guards-attempt _ (Guards-create env.current_user env.lower _))
          (λ r. Guards-bind _ _ (Guards-lift (create_error r)) (λ u. Guards-pure _)))

  Guards-update_named :
      (id : String) (name description visibility : Text)
      → Safe env.current_user (update_named env id name description visibility)
  Guards-update_named id name description visibility =
      Guards-bind_lift env.current_user _ (λ user asks.
        Guards-bind _ _ (Guards-attempt _ (Guards-update env.current_user env.lower _ asks)) (λ r.
          Guards-bind _ _ (Guards-lift (update_error r))
            (λ u. Guards-get env.current_user user id)))

  Guards-delete_present : (id : String) → Safe env.current_user (delete_present env id)
  Guards-delete_present id = Guards-bind_lift env.current_user _ (λ user asks.
      Guards-bind _ _ (Guards-lift (env.delete_by_subject user.id id))
        (λ u. Guards-soft_delete env.current_user user asks id))

  -- A request to create, update or delete a knowledge base changes no subject, document or chunk
  -- but those of the user who asks, in the user's tenant, which are not deleted; whatever fails,
  -- as long as the other processes keep to the same. It loses no row, and leaves tasks, events and
  -- runs as they are.
  pub request-Isolated :
      (r : SubjectRequest) (w : World)
      → All (Rely (Isolated env.current_user)) w.turns
      → Isolated env.current_user w.db (request env r w).db
  unfolding subject_create subject_update subject_delete
  request-Isolated (SubjectRequest.create name description visibility) w h =
      let blank = is_blank (trim_space name) in
      let m = create_new env (trim_space name) description visibility in
      ((Guards-if blank _ m (λ e. Guards-raise _)
          (λ e. Guards-create_new (trim_space name) description visibility)).at
        w h).0
  request-Isolated (SubjectRequest.update id name description visibility) w h =
      let blank = str_eq (trim_id id) "" || is_blank (trim_space name) in
      let m = update_named env (trim_id id) (trim_space name) description visibility in
      ((Guards-if blank _ m (λ e. Guards-raise _)
          (λ e. Guards-update_named (trim_id id) (trim_space name) description visibility)).at
        w h).0
  request-Isolated (SubjectRequest.delete id) w h =
      let m = delete_present env (trim_id id) in
      ((Guards-if (str_eq (trim_id id) "") _ m (λ e. Guards-raise _)
          (λ e. Guards-delete_present (trim_id id))).at
        w h).0
