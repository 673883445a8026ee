-- ===== src/Chat/Soundness.antt =====
-- The columns of a run that go together, and that a request keeps them so.
use enterprise_rag.Prelude.{
  ℕ, zero, suc, String, Bool, true, false, Option, none, List, [], ◌∷◌, ◌++◌, All, All-append, Text,
  ◌≡◌, ◌≢◌, refl, ◌⊎◌, inl, inr, arith, any_of, str_eq, if◌then◌else◌,
}
use enterprise_rag.Store.{
  RunEventType, Db, RunStatus, created, running, completed, failed, cancelled, ChatRun, update_rows,
}
use enterprise_rag.Exec.{Result, ok, err, World}
use enterprise_rag.Exec.Guards.{
  IsPreorder, Rely, Guards, Guards-pure, Guards-raise, Guards-bind, Guards-statement, Guards-inside,
  Guards-transaction,
}
use enterprise_rag.Repository.Rows.{duplicate_key}
use enterprise_rag.Repository.Runs
use enterprise_rag.Repository.Runs.{RunKey}
use enterprise_rag.Chat.Lifecycle.{Request}
use enterprise_rag.Chat.Conduct.{RunConduct, Guards-ask, Guards-resume, Guards-cancel}
use enterprise_rag.Chat.Diagram.{Action, perform}

-- By the status: the request to cancel, the result, the error and the time of the end.
abbrev pub SoundAt : RunStatus → Bool → Option Text → Option Text → Option ℕ → Type 0
SoundAt created c result error at = (result ≡ none) × ((error ≡ none) × (at ≡ none))
SoundAt running c result error at = (result ≡ none) × ((error ≡ none) × (at ≡ none))
SoundAt completed c result error at = (c ≡ false) × ((error ≡ none) × (at ≢ none))
SoundAt failed c result error at = (result ≡ none) × (at ≢ none)
SoundAt cancelled c result error at = (result ≡ none) × (at ≢ none)

-- A run that has not ended has no result, no error and no time of its end. One that has ended has
-- that time. Only a completed one has a result, and it has no error and was not to be cancelled.
abbrev pub IsSound : ChatRun → Type 0
IsSound r = SoundAt r.status r.cancel_requested r.result r.error_message r.completed_at

abbrev pub KeepsSound : Db → Db → Type 0
KeepsSound d d' = All IsSound d.runs → All IsSound d'.runs

pub KeepsSound-order : IsPreorder KeepsSound
KeepsSound-order = record { reflexive = λ d h. h; transitive = λ a b c f g h. g (f h) }

-- A run that has not ended.
Open : ChatRun → Type 0
Open r = (r.result ≡ none) × ((r.error_message ≡ none) × (r.completed_at ≡ none))

active-Open : (k : RunKey) (r : ChatRun) → Runs.active k r ≡ true → IsSound r → Open r
unfolding Runs.active Open
active-Open k r h sound = go r.status (ground arith) sound
  where
    go :
        (s : RunStatus)
        → (s ≡ created) ⊎ (s ≡ running)
        → SoundAt s r.cancel_requested r.result r.error_message r.completed_at
        → (r.result ≡ none) × ((r.error_message ≡ none) × (r.completed_at ≡ none))
    go created e p = p
    go running e p = p
    go s (inl e) p = cc
    go s (inr e) p = cc

runs_updated :
    (test : ChatRun → Bool) (set : ChatRun → ChatRun)
    → ((r : ChatRun) → test r ≡ true → IsSound r → IsSound (set r))
    → (rows : List ChatRun) → All IsSound rows
    → All IsSound (update_rows test set rows)
runs_updated test set keep [] h = tt
runs_updated test set keep (r ∷ rows) h =
    (choose (test r) (λ e. keep r e h.0), runs_updated test set keep rows h.1)
  where
    choose : (b : Bool) → (b ≡ true → IsSound (set r)) → IsSound (if b then set r else r)
    choose true f = f refl
    choose false f = h.0

step :
    (test : ChatRun → Bool) (set : ChatRun → ChatRun)
    → ((r : ChatRun) → test r ≡ true → IsSound r → IsSound (set r))
    → (d : Db) → KeepsSound d (Runs.update_runs test set d)
unfolding Runs.update_runs
step test set keep d h = runs_updated test set keep d.runs h

inserted :
    (k : RunKey) (q : Text) (now : ℕ) (d : Db)
    → KeepsSound d (Runs.insert_run (Runs.new_run k q) now d).1
unfolding Runs.insert_run Runs.new_run
inserted k q now d = go (any_of (λ row. str_eq row.id k.id) d.runs)
  where
    go :
        (known : Bool)
        → let r : Result (Unit {0}) × Db =
            if known
            then (err duplicate_key, d)
            else (ok tt, record d { runs = d.runs ++ Runs.new_run k q ∷ [] }) in
          KeepsSound d r.1
    go true h = h
    go false h = All-append _ d.runs _ h ((refl, (refl, refl)), tt)

failed-IsSound :
    (k : RunKey) (s : RunStatus) (message : Text) (now : ℕ) (r : ChatRun)
    → Runs.active k r ≡ true
    → IsSound r
    → IsSound (Runs.status_set (Runs.terminal_status s) message true now r)
unfolding Runs.status_set Runs.terminal_status Open
failed-IsSound k cancelled message now r h sound = ((active-Open k r h sound).0, λ e. cc)
failed-IsSound k created message now r h sound = ((active-Open k r h sound).0, λ e. cc)
failed-IsSound k running message now r h sound = ((active-Open k r h sound).0, λ e. cc)
failed-IsSound k completed message now r h sound = ((active-Open k r h sound).0, λ e. cc)
failed-IsSound k failed message now r h sound = ((active-Open k r h sound).0, λ e. cc)

Guards-write_status :
    (k : RunKey) (s : RunStatus) (message : Text) (terminal : Bool)
    → ((now : ℕ) (r : ChatRun)
        → Runs.active k r ≡ true
        → IsSound r
        → IsSound (Runs.status_set s message terminal now r))
    → Guards KeepsSound KeepsSound-order (Runs.write_status k s message terminal)
unfolding Runs.write_status
Guards-write_status k s message terminal keep = Guards-statement _ _ _ (λ now. step _ _ (keep now))

Guards-mark_running : (k : RunKey) → Guards KeepsSound KeepsSound-order (Runs.mark_running k)
unfolding Runs.mark_running Runs.status_set Open
Guards-mark_running k =
    Guards-write_status k running [] false
      (λ now r h sound. ((active-Open k r h sound).0, (refl, refl)))

Guards-fail :
    (k : RunKey) (s : RunStatus) (message : Text)
    → Guards KeepsSound KeepsSound-order (Runs.fail k s message)
unfolding Runs.fail
Guards-fail k s message = Guards-write_status k _ message true (failed-IsSound k s message)

completed-IsSound :
    (k : RunKey) (result : Text) (now : ℕ) (r : ChatRun)
    → Runs.completable k r ≡ true
    → IsSound (Runs.completed_with result now r)
unfolding Runs.completable Runs.completed_with
completed-IsSound k result now r h = (ground arith, (refl, λ e. cc))

cancelled-IsSound :
    (k : RunKey) (now : ℕ) (r : ChatRun)
    → Runs.cancellable k r ≡ true
    → IsSound r
    → IsSound (Runs.cancelled_at now r)
unfolding Runs.cancellable Runs.cancelled_at Open
cancelled-IsSound k now r h sound = ((active-Open k r (ground arith) sound).0, λ e. cc)

Guards-complete :
    (k : RunKey) (result : Text) → Guards KeepsSound KeepsSound-order (Runs.complete k result)
unfolding Runs.complete Runs.complete_rows
Guards-complete k result =
    Guards-bind _ _
      (Guards-statement _ _ _ (λ now. step _ _ (λ r h sound. completed-IsSound k result now r h)))
      rest
  where
    ended : (n : ℕ) → Guards KeepsSound KeepsSound-order (Runs.after_cancel n)
    ended zero = unfold Runs.after_cancel in Guards-raise _
    ended (suc n) = unfold Runs.after_cancel in Guards-raise _

    rest : (n : ℕ) → Guards KeepsSound KeepsSound-order (Runs.after_complete k n)
    rest zero =
        unfold Runs.after_complete Runs.cancel_rows in
        Guards-bind _ _ (Guards-statement _ _ _ (λ now. step _ _ (cancelled-IsSound k now))) ended
    rest (suc n) = unfold Runs.after_complete in Guards-pure _

requested-IsSound :
    (k : RunKey) (r : ChatRun)
    → Runs.active k r ≡ true
    → IsSound r
    → IsSound (record r { cancel_requested = true })
unfolding Runs.active
requested-IsSound k r h sound = go r.status (ground arith) sound
  where
    go :
        (s : RunStatus)
        → (s ≡ created) ⊎ (s ≡ running)
        → SoundAt s r.cancel_requested r.result r.error_message r.completed_at
        → SoundAt s true r.result r.error_message r.completed_at
    go created e p = p
    go running e p = p
    go s (inl e) p = cc
    go s (inr e) p = cc

Guards-append :
    (id tenant : String) (t : RunEventType)
    → Guards KeepsSound KeepsSound-order (Runs.append_event id tenant t)
unfolding Runs.append_event Runs.insert_event
Guards-append id tenant t = Guards-transaction _ _ _ (
    Guards-bind _ _ (Guards-inside _ _ _ (λ now. KeepsSound-order.reflexive))
      (λ u. Guards-inside _ _ _ (λ now d h. h)))

pub KeepsSound-Conduct : RunConduct KeepsSound KeepsSound-order
unfolding Runs.create Runs.request_cancel Runs.reset_for_resume Runs.reset Runs.get_for_user
KeepsSound-Conduct = record {
  create = λ k q. Guards-statement _ _ _ (inserted k q);
  mark_running = Guards-mark_running;
  fail = Guards-fail;
  complete = Guards-complete;
  request_cancel = λ k. Guards-statement _ _ _ (λ now. step _ _ (requested-IsSound k));
  reset = λ k.
      Guards-statement _ _ _
        (λ now. step (Runs.resumable k) Runs.reset (λ r h sound. (refl, (refl, refl))));
  get = λ k. Guards-statement _ _ _ (λ now. KeepsSound-order.reflexive);
  append = Guards-append;
}

-- If every run is sound, every run is so after a request to ask, resume or cancel, the one that is
-- added included, whatever fails in it, as long as the other processes keep this: a run that has
-- not ended has no result, no error and no time of its end; one that has ended has that time; and
-- only a completed one has a result, while it has no error and no request to cancel it.
pub perform-Sound :
    (a : Action) (q : Request) (w : World)
    → All (Rely KeepsSound) w.turns
    → All IsSound w.db.runs
    → All IsSound (perform a q w).db.runs
perform-Sound Action.ask q w h = ((Guards-ask KeepsSound-Conduct q).at w h).0
perform-Sound Action.resume q w h = ((Guards-resume KeepsSound-Conduct q).at w h).0
perform-Sound Action.cancel q w h = ((Guards-cancel KeepsSound-Conduct q).at w h).0
