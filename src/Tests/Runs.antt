-- ===== src/Tests/Runs.antt =====
-- Requests to ask and to resume, with faults, beside a run of another user.
use enterprise_rag.Prelude.{[], ◌∷◌, none, some, true, ◌≡◌, refl, codes, false, ◌||◌, arith}
use enterprise_rag.Exec.{done, unheard, World, quiet, ok}
use enterprise_rag.Runes.{trim_space, is_space, text_eq}
use enterprise_rag.Store.{Db, ChatRun, completed, failed, run_running, run_failed}
use enterprise_rag.Chat.Lifecycle.{ask, is_blank}
use enterprise_rag.Chat.Answers.{answered_db, ask-quiet}
use enterprise_rag.Chat.Moves.{RunProgress, RunProgress-order}
use enterprise_rag.Chat.Diagram.{Action, perform, perform-RunProgress}
use enterprise_rag.Chat.Events.{Numbered, KeepsNumbered-order, perform-Numbered}
use enterprise_rag.Chat.Soundness.{IsSound, KeepsSound-order, perform-Sound}
use enterprise_rag.Prelude.{All}
use enterprise_rag.Tests.Samples.{empty_db, turn, world, request}

abbrev other_run : ChatRun
other_run = record {
  id = "other";
  tenant_id = "tenant";
  user_id = "other";
  status = completed;
  request = codes "{}";
  result = some (codes "42");
  error_message = none;
  cancel_requested = false;
  completed_at = some 7;
}

abbrev failed_run : ChatRun
failed_run = record {
  id = "run";
  tenant_id = "tenant";
  user_id = "user";
  status = failed;
  request = codes "{}";
  result = none;
  error_message = some (codes "timeout");
  cancel_requested = true;
  completed_at = some 8;
}

-- The run that failed has two events.
abbrev failed_db : Db
failed_db = record empty_db {
  runs = other_run ∷ failed_run ∷ [];
  run_events =
      record { run_id = "run"; sequence = 1; tenant_id = "tenant"; event_type = run_running }
      ∷ record { run_id = "run"; sequence = 2; tenant_id = "tenant"; event_type = run_failed }
      ∷ [];
}

-- The resumed run is completed, and the reply to that statement is lost.
abbrev resumed : World
resumed = world failed_db (
    turn done
    ∷ turn done
    ∷ turn done
    ∷ turn done
    ∷ turn done
    ∷ turn done
    ∷ turn done
    ∷ turn unheard
    ∷ [])

perform-RunProgress_example : RunProgress failed_db (perform Action.resume request resumed).db
perform-RunProgress_example =
    let same = RunProgress-order.reflexive in
    perform-RunProgress Action.resume request resumed
      (same, (same, (same, (same, (same, (same, (same, (same, tt))))))))

perform-Sound_example : All IsSound (perform Action.resume request resumed).db.runs
perform-Sound_example =
    let same = KeepsSound-order.reflexive in
    perform-Sound Action.resume request resumed
      (same, (same, (same, (same, (same, (same, (same, (same, tt))))))))
      ((refl, (refl, λ e. cc)), ((refl, λ e. cc), tt))

numbered : Numbered failed_db.run_events
numbered id = ground arith

perform-Numbered_example : Numbered (perform Action.resume request resumed).db.run_events
perform-Numbered_example =
    let same = KeepsNumbered-order.reflexive in
    perform-Numbered Action.resume request resumed
      (same, (same, (same, (same, (same, (same, (same, (same, tt)))))))) numbered

filled : (is_blank request.subject_id || is_blank request.query) ≡ false
unfolding trim_space is_space text_eq
filled = refl

abbrev start : World
start = world (record empty_db { runs = other_run ∷ [] }) []

ask-quiet_example : ask request (quiet start) ≡ (
  ok (codes "because"),
  quiet (record start { db = answered_db request (codes "because") 100 start.db }),
)
ask-quiet_example = ask-quiet request (codes "because") start filled refl refl refl refl refl refl
