-- ===== src/Tests/Relay.antt =====
-- The relay at concrete inputs.
use enterprise_rag.Prelude.{none, [], ◌∷◌, codes, refl, arith, ◌≤◌, count_of}
use enterprise_rag.Status.{TaskType}
use enterprise_rag.Store.{TaskOutbox}
use enterprise_rag.Store.Evolution.{Evolves}
use enterprise_rag.Exec.{World, quiet, Outcome, ok, err, other}
use enterprise_rag.Repository.Outbox
use enterprise_rag.Worker.Relay.{Send, publish_outbox}
use enterprise_rag.Worker.Relay.Published.{OutboxMoves, OutboxMoves-refl, publish_outbox-Moves}
use enterprise_rag.Worker.Relay.Delivered.{Delivered, publish_outbox-Delivered}
use enterprise_rag.Tests.Samples.{world, empty_db, turn}

abbrev event : TaskOutbox
event = record {
  id = "event";
  task_id = "task";
  subject = TaskType.parse;
  payload = record { task_id = "task"; doc_id = "doc"; processing_mode = "standard" };
  attempts = 0;
  next_attempt_at = 50;
  locked_at = none;
  published_at = none;
  last_error = none;
}

abbrev refuses : Send
refuses e = err (other (codes "no responders"))

abbrev takes : Send
takes e = ok tt

abbrev start : World
start =
    world (record empty_db { outbox = event ∷ [] }) (turn Outcome.done ∷ turn Outcome.unheard ∷ [])

publish_outbox-Moves_example : OutboxMoves refuses start.db (publish_outbox refuses start).1.db
publish_outbox-Moves_example =
    publish_outbox-Moves refuses start (OutboxMoves-refl refuses, (OutboxMoves-refl refuses, tt))

few : count_of (Outbox.claimable 100) (event ∷ []) ≤ 50
unfolding Outbox.claimable
few = omega arith

publish_outbox-Delivered_example :
    Evolves (Delivered 100) (event ∷ []) (publish_outbox takes (quiet start)).1.db.outbox
publish_outbox-Delivered_example = publish_outbox-Delivered takes (λ e. refl) start few
