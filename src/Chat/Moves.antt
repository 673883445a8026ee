-- ===== src/Chat/Moves.antt =====
-- The diagram of a run's status, and the steps of a run along it.
use enterprise_rag.Prelude.{ℕ, Bool, true, false, Text, ◌≡◌, ◌≢◌, refl, ap, ◌∙◌, ◌⊎◌, arith}
use enterprise_rag.Store.{Db, RunStatus, created, running, completed, failed, cancelled, ChatRun}
use enterprise_rag.Store.Evolution.{Evolves, Evolves-refl, Evolves-trans}
use enterprise_rag.Exec.Guards.{IsPreorder}
use enterprise_rag.Repository.Runs
use enterprise_rag.Repository.Runs.{RunKey}

infix 40 ◌⇝◌ ◌⇝*◌
pub data ◌⇝◌ : RunStatus → RunStatus → Type 0 where
  start : created ⇝ running
  again : running ⇝ running
  complete : running ⇝ completed
  reject : created ⇝ failed
  fail : running ⇝ failed
  withdraw : created ⇝ cancelled
  cancel : running ⇝ cancelled
  resume_failed : failed ⇝ created
  resume_cancelled : cancelled ⇝ created

pub data ◌⇝*◌ : RunStatus → RunStatus → Type 0 where
  here : {s : RunStatus} → s ⇝* s
  next : {s t u : RunStatus} → s ⇝* t → t ⇝ u → s ⇝* u

⇝*-trans : {s t u : RunStatus} → s ⇝* t → t ⇝* u → s ⇝* u
⇝*-trans p here = p
⇝*-trans p (next q e) = next (⇝*-trans p q) e

ruleset edges =
    (start, again, complete, reject, fail, withdraw, cancel, resume_failed, resume_cancelled)

-- A run that is completed is one whose cancellation was not requested.
abbrev pub CancelRespected : ChatRun → Type 0
CancelRespected r = r.status ≡ completed → r.cancel_requested ≡ false

-- A run keeps its id, its owner and its request, its status follows the diagram, a completed run
-- does not change, and no run is completed against a request to cancel it.
pub record RunMoves (r r' : ChatRun) : Type 0 where
  pub same_id : r'.id ≡ r.id
  pub same_tenant : r'.tenant_id ≡ r.tenant_id
  pub same_user : r'.user_id ≡ r.user_id
  pub same_request : r'.request ≡ r.request
  pub path : r.status ⇝* r'.status
  pub completed_stays : r.status ≡ completed → r' ≡ r
  pub respects : CancelRespected r → CancelRespected r'

pub RunMoves-refl : (r : ChatRun) → RunMoves r r
RunMoves-refl r = record {
  same_id = refl;
  same_tenant = refl;
  same_user = refl;
  same_request = refl;
  path = ◌⇝*◌.here;
  completed_stays = λ h. refl;
  respects = λ h. h;
}

RunMoves-trans : (a b c : ChatRun) → RunMoves a b → RunMoves b c → RunMoves a c
RunMoves-trans a b c p q = record {
  same_id = q.same_id ∙ p.same_id;
  same_tenant = q.same_tenant ∙ p.same_tenant;
  same_user = q.same_user ∙ p.same_user;
  same_request = q.same_request ∙ p.same_request;
  path = ⇝*-trans p.path q.path;
  completed_stays = λ h.
      let e = p.completed_stays h in q.completed_stays (ap (λ (x : ChatRun). x.status) e ∙ h) ∙ e;
  respects = λ h. q.respects (p.respects h);
}

abbrev pub RunProgress : Db → Db → Type 0
RunProgress d d' = Evolves RunMoves d.runs d'.runs

pub RunProgress-order : IsPreorder RunProgress
RunProgress-order = record {
  reflexive = λ d. Evolves-refl RunMoves RunMoves-refl d.runs;
  transitive = λ a b c p q. Evolves-trans RunMoves RunMoves-trans _ _ _ p q;
}

-- One edge, from a run that is not completed.
move :
    (r r' : ChatRun)
    → r.status ⇝ r'.status
    → r.status ≢ completed
    → (r'.status ≡ completed → r'.cancel_requested ≡ false)
    → r'.id ≡ r.id
    → r'.tenant_id ≡ r.tenant_id
    → r'.user_id ≡ r.user_id
    → r'.request ≡ r.request
    → RunMoves r r'
move r r' e ne c i t u q = record {
  same_id = i;
  same_tenant = t;
  same_user = u;
  same_request = q;
  path = ◌⇝*◌.next ◌⇝*◌.here e;
  completed_stays = λ h. absurd (ne h);
  respects = λ h. c;
}

active_open :
    (k : RunKey) (r : ChatRun)
    → Runs.active k r ≡ true
    → (r.status ≡ created) ⊎ (r.status ≡ running)
unfolding Runs.active
active_open k r h = ground arith

pub write_status_moves :
    (k : RunKey) (s : RunStatus) (message : Text) (terminal : Bool) (now : ℕ) (r : ChatRun)
    → (s ≡ running) ⊎ ((s ≡ failed) ⊎ (s ≡ cancelled))
    → Runs.active k r ≡ true
    → RunMoves r (Runs.status_set s message terminal now r)
unfolding Runs.status_set
write_status_moves k s message terminal now r c h =
    move r _ (edge r.status s (active_open k r h) c) (closed (active_open k r h)) ended refl refl
      refl refl
  where
    edge :
        (a b : RunStatus)
        → (a ≡ created) ⊎ (a ≡ running)
        → (b ≡ running) ⊎ ((b ≡ failed) ⊎ (b ≡ cancelled))
        → a ⇝ b
    edge a b p q = grind (arith, edges)

    closed : (r.status ≡ created) ⊎ (r.status ≡ running) → r.status ≢ completed
    closed p = ground arith

    ended : s ≡ completed → r.cancel_requested ≡ false
    ended e = ground arith

pub complete_moves :
    (k : RunKey) (result : Text) (now : ℕ) (r : ChatRun)
    → Runs.completable k r ≡ true
    → RunMoves r (Runs.completed_with result now r)
unfolding Runs.completable Runs.completed_with
complete_moves k result now r h =
    let was : r.status ≡ running = ground arith in
    move r _ (rw was ◌⇝◌.complete) (λ e. cc (was, e)) (λ e. ground arith) refl refl refl refl

pub cancel_moves :
    (k : RunKey) (now : ℕ) (r : ChatRun)
    → Runs.cancellable k r ≡ true
    → RunMoves r (Runs.cancelled_at now r)
unfolding Runs.cancellable Runs.cancelled_at
cancel_moves k now r h =
    move r _ (edge r.status (active_open k r (ground arith)))
      (closed (active_open k r (ground arith))) (λ e. cc) refl refl refl refl
  where
    edge : (a : RunStatus) → (a ≡ created) ⊎ (a ≡ running) → a ⇝ cancelled
    edge a p = grind (arith, edges)

    closed : (r.status ≡ created) ⊎ (r.status ≡ running) → r.status ≢ completed
    closed p = ground arith

pub request_moves :
    (k : RunKey) (r : ChatRun)
    → Runs.active k r ≡ true
    → RunMoves r (record r { cancel_requested = true })
request_moves k r h = record {
  same_id = refl;
  same_tenant = refl;
  same_user = refl;
  same_request = refl;
  path = ◌⇝*◌.here;
  completed_stays = λ e. absurd (closed (active_open k r h) e);
  respects = λ c e. absurd (closed (active_open k r h) e);
}
  where
    closed : (r.status ≡ created) ⊎ (r.status ≡ running) → r.status ≢ completed
    closed p = ground arith

pub reset_moves : (k : RunKey) (r : ChatRun) → Runs.resumable k r ≡ true → RunMoves r (Runs.reset r)
unfolding Runs.resumable Runs.reset
reset_moves k r h = move r _ (edge r.status over) (closed over) (λ e. refl) refl refl refl refl
  where
    over : (r.status ≡ failed) ⊎ (r.status ≡ cancelled)
    over = ground arith

    edge : (a : RunStatus) → (a ≡ failed) ⊎ (a ≡ cancelled) → a ⇝ created
    edge a p = grind (arith, edges)

    closed : (r.status ≡ failed) ⊎ (r.status ≡ cancelled) → r.status ≢ completed
    closed p = ground arith
