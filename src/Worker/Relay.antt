-- ===== src/Worker/Relay.antt =====
-- api/internal/worker/manager.go: `publishOutbox`, one tick of it. `send` is the publishing of an
-- event by api/internal/service/taskqueue, as JetStream answers it.
pub mod Published
pub mod Delivered
use enterprise_rag.Prelude.{String, List, [], ◌∷◌}
use enterprise_rag.Prelude.Int.{ℤ}
use enterprise_rag.Store.{TaskOutbox}
use enterprise_rag.Exec.{Error, error_text, Result, ok, err, Exec, pure, attempt, ◌>>=◌, ◌>>◌}
use enterprise_rag.Repository.Outbox

abbrev pub Send : Type 0
Send = TaskOutbox → Result (Unit {0})

-- The errors of both statements are dropped.
abbrev pub after_send : TaskOutbox → Result (Unit {0}) → Exec (Unit {0})
after_send event (ok u) = Outbox.mark_published event.id
after_send event (err e) = Outbox.mark_failed event.id (error_text e)

unfoldable pub relay_events : Send → List TaskOutbox → Exec (Unit {0})
relay_events send [] = pure tt
relay_events send (event ∷ events) = do
  attempt (after_send event (send event))
  relay_events send events

abbrev pub relay_claimed : Send → Result (List TaskOutbox) → Exec (Unit {0})
relay_claimed send (ok events) = relay_events send events
relay_claimed send (err e) = pure tt

unfoldable pub publish_outbox : Send → Exec (Unit {0})
publish_outbox send = do
  claimed ← attempt (Outbox.claim_batch (ℤ.pos 50))
  relay_claimed send claimed
