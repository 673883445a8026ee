-- ===== src/Chat/Events.antt =====
-- The numbers that the events of a run have.
use Prim.Native.Nat.{max}
use enterprise_rag.Prelude.{
  ℕ, zero, suc, ◌+◌, ◌<◌, String, Bool, true, false, List, [], ◌∷◌, ◌++◌, All, ◌≡◌, refl, sym, ap,
  ◌∙◌, arith, str_eq, str_eq_iff, length, if◌then◌else◌, Bool-cases, inl, inr, append-nil,
}
use enterprise_rag.Store.{Db, RunEventType, ChatRun, ChatRunEvent}
use enterprise_rag.Exec.{Result, World}
use enterprise_rag.Exec.Guards.{
  IsPreorder, Rely, Guards, Guards-pure, Guards-raise, Guards-bind, Guards-statement, Guards-inside,
  Guards-transaction,
}
use enterprise_rag.Repository.Runs
use enterprise_rag.Repository.Runs.{RunKey}
use enterprise_rag.Chat.Lifecycle.{Request}
use enterprise_rag.Chat.Conduct.{RunConduct, Guards-ask, Guards-resume, Guards-cancel}
use enterprise_rag.Chat.Diagram.{Action, perform}

-- The numbers of a run's events, in the order of their insertion.
abbrev pub sequences : String → List ChatRunEvent → List ℕ
sequences id [] = []
sequences id (e ∷ es) =
    let rest = sequences id es in if str_eq e.run_id id then e.sequence ∷ rest else rest

-- `n` numbers from `start`.
abbrev pub count_up : ℕ → ℕ → List ℕ
count_up start zero = []
count_up start (suc n) = start ∷ count_up (start + 1) n

abbrev pub Numbered : List ChatRunEvent → Type 0
Numbered es = (id : String) → sequences id es ≡ count_up 1 (length (sequences id es))

abbrev max_of : List ℕ → ℕ
max_of [] = 0
max_of (n ∷ ns) = max n (max_of ns)

last_sequence-max_of :
    (id : String) (es : List ChatRunEvent) → Runs.last_sequence id es ≡ max_of (sequences id es)
unfolding Runs.last_sequence
last_sequence-max_of id [] = refl
last_sequence-max_of id (e ∷ es) = elim (Bool-cases (str_eq e.run_id id)) [
  | inl same ↦ rw same (ap (max e.sequence) (last_sequence-max_of id es))
  | inr other ↦ rw other (last_sequence-max_of id es)
]

max_of-count_up : (start n : ℕ) → 0 < n → max_of (count_up start n) + 1 ≡ start + n
max_of-count_up start zero h = absurd (omega arith)
max_of-count_up start (suc zero) h = omega arith
max_of-count_up start (suc (suc n)) h = omega (arith, max_of-count_up (start + 1) (suc n))

next_number : (n : ℕ) → max_of (count_up 1 n) + 1 ≡ 1 + n
next_number zero = refl
next_number (suc n) = max_of-count_up 1 (suc n) (omega arith)

count_up-suc : (start n : ℕ) → count_up start (suc n) ≡ count_up start n ++ (start + n) ∷ []
count_up-suc start zero = ap (λ (k : ℕ). k ∷ []) (omega arith)
count_up-suc start (suc n) =
    let shift : start + 1 + n ≡ start + suc n = omega arith in
    ap (λ r. start ∷ r)
      (count_up-suc (start + 1) n ∙ ap (λ (k : ℕ). count_up (start + 1) n ++ k ∷ []) shift)

length-count_up : (start n : ℕ) → length (count_up start n) ≡ n
length-count_up start zero = refl
length-count_up start (suc n) = ap suc (length-count_up (start + 1) n)

sequences-append :
    (id : String) (xs ys : List ChatRunEvent)
    → sequences id (xs ++ ys) ≡ sequences id xs ++ sequences id ys
sequences-append id [] ys = refl
sequences-append id (x ∷ xs) ys = elim (Bool-cases (str_eq x.run_id id)) [
  | inl same ↦ rw same (ap (λ r. x.sequence ∷ r) (sequences-append id xs ys))
  | inr other ↦ rw other (sequences-append id xs ys)
]

-- An event behind numbered ones, with the number that the insertion computes.
insert-Numbered :
    (es : List ChatRunEvent) (e : ChatRunEvent)
    → e.sequence ≡ Runs.last_sequence e.run_id es + 1
    → Numbered es
    → Numbered (es ++ e ∷ [])
insert-Numbered es e own h id = elim (Bool-cases (str_eq e.run_id id)) [
  | inl same ↦ extend same
  | inr other ↦ keep other
]
  where
    added :
        (k : ℕ)
        → sequences id (e ∷ []) ≡ k ∷ []
        → k ≡ 1 + length (sequences id es)
        → sequences id (es ++ e ∷ []) ≡ count_up 1 (length (sequences id (es ++ e ∷ [])))
    added k one number =
        let seqs = sequences id es in
        let whole : sequences id (es ++ e ∷ []) ≡ count_up 1 (suc (length seqs)) =
          sequences-append id es (e ∷ [])
          ∙ ap (λ r. seqs ++ r) one
          ∙ ap (λ (n : ℕ). seqs ++ n ∷ []) number
          ∙ ap (λ r. r ++ (1 + length seqs) ∷ []) (h id)
          ∙ sym (count_up-suc 1 (length seqs)) in
        whole ∙ ap (count_up 1) (sym (ap length whole ∙ length-count_up 1 (suc (length seqs))))

    extend :
        str_eq e.run_id id ≡ true
        → sequences id (es ++ e ∷ []) ≡ count_up 1 (length (sequences id (es ++ e ∷ [])))
    extend same = added e.sequence (rw same) (
        own
        ∙ ap (λ i. Runs.last_sequence i es + 1) ((str_eq_iff e.run_id id).0 same)
        ∙ ap (λ n. n + 1) (last_sequence-max_of id es ∙ ap max_of (h id))
        ∙ next_number (length (sequences id es)))

    keep :
        str_eq e.run_id id ≡ false
        → sequences id (es ++ e ∷ []) ≡ count_up 1 (length (sequences id (es ++ e ∷ [])))
    keep other =
        let same : sequences id (es ++ e ∷ []) ≡ sequences id es =
          sequences-append id es (e ∷ [])
          ∙ ap (λ r. sequences id es ++ r) (rw other)
          ∙ append-nil (sequences id es) in
        same ∙ h id ∙ ap (λ r. count_up 1 (length r)) (sym same)

abbrev pub KeepsNumbered : Db → Db → Type 0
KeepsNumbered d d' = Numbered d.run_events → Numbered d'.run_events

pub KeepsNumbered-order : IsPreorder KeepsNumbered
KeepsNumbered-order = record { reflexive = λ d h. h; transitive = λ a b c f g h. g (f h) }

Guards-append :
    (id tenant : String) (t : RunEventType)
    → Guards KeepsNumbered KeepsNumbered-order (Runs.append_event id tenant t)
unfolding Runs.append_event Runs.insert_event
Guards-append id tenant t = Guards-transaction _ _ _ (
    Guards-bind _ _ (Guards-inside _ _ _ (λ now d h. h))
      (λ u. Guards-inside _ _ _ (λ now d h. insert-Numbered d.run_events _ refl h)))

unless_known :
    (known : Bool) (d : Db) (rows : List ChatRun) (a b : Result (Unit {0}))
    → let r : Result (Unit {0}) × Db = if known then (a, d) else (b, record d { runs = rows }) in
      KeepsNumbered d r.1
unless_known true d rows a b h = h
unless_known false d rows a b h = h

after_cancel_keeps : (n : ℕ) → Guards KeepsNumbered KeepsNumbered-order (Runs.after_cancel n)
unfolding Runs.after_cancel
after_cancel_keeps zero = Guards-raise _
after_cancel_keeps (suc n) = Guards-raise _

after_complete_keeps :
    (k : RunKey) (n : ℕ) → Guards KeepsNumbered KeepsNumbered-order (Runs.after_complete k n)
unfolding Runs.after_complete Runs.cancel_rows
after_complete_keeps k zero =
    Guards-bind _ _ (Guards-statement _ _ _ (λ now d h. h)) after_cancel_keeps
after_complete_keeps k (suc n) = Guards-pure _

pub KeepsNumbered-Conduct : RunConduct KeepsNumbered KeepsNumbered-order
unfolding Runs.create Runs.insert_run Runs.mark_running Runs.fail Runs.write_status Runs.complete
    Runs.complete_rows Runs.request_cancel Runs.reset_for_resume Runs.get_for_user
KeepsNumbered-Conduct = record {
  create = λ k q. Guards-statement _ _ _ (λ now d. unless_known _ d _ _ _);
  mark_running = λ k. Guards-statement _ _ _ (λ now d h. h);
  fail = λ k s m. Guards-statement _ _ _ (λ now d h. h);
  complete =
      λ k r. Guards-bind _ _ (Guards-statement _ _ _ (λ now d h. h)) (after_complete_keeps k);
  request_cancel = λ k. Guards-statement _ _ _ (λ now d h. h);
  reset = λ k. Guards-statement _ _ _ (λ now d h. h);
  get = λ k. Guards-statement _ _ _ (λ now d h. h);
  append = Guards-append;
}

-- If the events of every run are numbered 1, 2, 3, … in the order of their insertion, they are so
-- after a request to ask, resume or cancel, whatever fails in it, as long as the other processes
-- keep this.
pub perform-Numbered :
    (a : Action) (q : Request) (w : World)
    → All (Rely KeepsNumbered) w.turns
    → Numbered w.db.run_events
    → Numbered (perform a q w).db.run_events
perform-Numbered Action.ask q w h = ((Guards-ask KeepsNumbered-Conduct q).at w h).0
perform-Numbered Action.resume q w h = ((Guards-resume KeepsNumbered-Conduct q).at w h).0
perform-Numbered Action.cancel q w h = ((Guards-cancel KeepsNumbered-Conduct q).at w h).0
