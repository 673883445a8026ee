-- ===== src/Tests/Subjects.antt =====
-- The requests about knowledge bases at concrete inputs.
use enterprise_rag.Prelude.{true, false, [], ◌∷◌, ◌≡◌, refl, codes}
use enterprise_rag.Prelude.Int.{ℤ}
use enterprise_rag.Exec.{World, quiet, ok, err, other, Outcome}
use enterprise_rag.Runes.{trim_id, is_space, trim_space, text_eq}
use enterprise_rag.Repository.Subjects
use enterprise_rag.Store.{Subject}
use enterprise_rag.Subjects.{subject_delete, normalize}
use enterprise_rag.Subjects.Isolation.{Isolated, Isolated-refl}
use enterprise_rag.Subjects.Requests.{SubjectRequest, request, request-Isolated}
use enterprise_rag.Subjects.Deletion.{IsGone, Others, after_delete, subject_delete-IsGone}
use enterprise_rag.Subjects.Pages.{IsPage, normalize-IsPage}
use enterprise_rag.Retrieval.Search.{search_with_options}
use enterprise_rag.Retrieval.Search.Refusals.{deleted-refused}
use enterprise_rag.Tests.Samples.{world, empty_db, uploaded_document, turn}
use enterprise_rag.Tests.Searches.{engine, conf, options, user, subject, surroundings}

abbrev public_subject : Subject
public_subject = record subject { id = "other"; owner_id = "somebody"; visibility = codes "public" }

abbrev start : World
start =
    world
      (record empty_db {
        documents = uploaded_document ∷ [];
        subjects = public_subject ∷ subject ∷ [];
      })
      (turn Outcome.done ∷ turn Outcome.unheard ∷ [])

request-Isolated_example :
    Isolated surroundings.current_user start.db
      (request surroundings (SubjectRequest.delete " subject") start).db
request-Isolated_example =
    request-Isolated surroundings (SubjectRequest.delete " subject") start
      (Isolated-refl surroundings.current_user, (Isolated-refl surroundings.current_user, tt))

named : (trim_id "subject") ≡ "subject"
unfolding trim_id is_space
named = refl

others : Others (trim_id "subject") (public_subject ∷ [])
others = rw named (refl, tt)

own : Subjects.owned user (trim_id "subject") subject ≡ true
unfolding Subjects.owned
own = rw named refl

asked : text_eq (trim_space (codes "why?")) [] ≡ false
unfolding trim_space is_space text_eq
asked = refl

subject_delete-IsGone_example :
    ((subject_delete surroundings "subject" (quiet start)).0 ≡ ok true)
    × IsGone user (trim_id "subject") (after_delete surroundings "subject" start).db
subject_delete-IsGone_example =
    subject_delete-IsGone surroundings user "subject" start (public_subject ∷ []) subject [] refl
      refl (rw named refl) refl others tt own

deleted-refused_example :
    search_with_options engine conf options user "subject"
      (codes "why?")
      (quiet (after_delete surroundings "subject" start))
    ≡ (
      err (other (codes "knowledge base not found")),
      quiet (after_delete surroundings "subject" start),
    )
deleted-refused_example =
    deleted-refused engine conf options surroundings user user "subject" (codes "why?") start
      (public_subject ∷ []) subject [] refl refl (rw named refl) asked refl others tt own

normalize-IsPage_example : IsPage (normalize (ℤ.negsuc 3) (ℤ.pos 1000))
normalize-IsPage_example = normalize-IsPage (ℤ.negsuc 3) (ℤ.pos 1000)
