-- ===== src/Worker/Relay/Delivered.antt =====
-- When nothing fails, a tick of the relay publishes every event that is due.
use enterprise_rag.Prelude.{
  ℕ, zero, suc, ◌≤◌, Bool, true, false, some, List, [], ◌∷◌, ◌≡◌, ◌⊎◌, inl, inr, refl, ap, ◌∙◌,
  arith, str_eq, str_eq_refl, any_of, count_of, Bool-cases, if◌then◌else◌,
}
use enterprise_rag.Prelude.Int.{ℤ}
use enterprise_rag.Store.{TaskOutbox, update_rows}
use enterprise_rag.Store.Evolution.{
  Evolves, Evolves-refl, Evolves-then, Evolves-weaken, Evolves-each,
}
use enterprise_rag.Exec.{Result, ok, World, quiet, attempt, statement, ◌>>=◌}
use enterprise_rag.Exec.Atomic.{bind_eq}
use enterprise_rag.Repository.Outbox
use enterprise_rag.Worker.Relay.{Send, after_send, relay_events, relay_claimed, publish_outbox}

-- The rows when each of the events was marked published.
abbrev publish_all : ℕ → List TaskOutbox → List TaskOutbox → List TaskOutbox
publish_all now [] rows = rows
publish_all now (event ∷ events) rows =
    publish_all now events (update_rows (λ row. str_eq row.id event.id) (Outbox.published now) rows)

abbrev with_outbox : List TaskOutbox → World → World
with_outbox rows w = record w { db = record w.db { outbox = rows } }

mark-quiet :
    (event : TaskOutbox) (w : World)
    → attempt (Outbox.mark_published event.id) (quiet w) ≡ (
      ok (ok tt),
      quiet (
          with_outbox
            (update_rows (λ row. str_eq row.id event.id) (Outbox.published w.now) w.db.outbox)
            w),
    )
unfolding attempt Outbox.mark_published statement
mark-quiet event w = refl

relay-quiet :
    (send : Send)
    → ((event : TaskOutbox) → send event ≡ ok tt)
    → (events : List TaskOutbox) (w : World)
    → relay_events send events (quiet w)
      ≡ (ok tt, quiet (with_outbox (publish_all w.now events w.db.outbox) w))
unfolding relay_events
relay-quiet send takes [] w = unfold enterprise_rag.Exec.pure in refl
relay-quiet send takes (event ∷ events) w =
    let rows = update_rows (λ row. str_eq row.id event.id) (Outbox.published w.now) w.db.outbox in
    bind_eq (attempt (after_send event (send event))) (λ u. relay_events send events) (ok tt)
      (quiet w) (quiet (with_outbox rows w))
      (ap (λ r. attempt (after_send event r) (quiet w)) (takes event) ∙ mark-quiet event w)
    ∙ relay-quiet send takes events (with_outbox rows w)

-- The claimed events have the row's id.
abbrev among : List TaskOutbox → TaskOutbox → Bool
among events row = any_of (λ event. str_eq row.id event.id) events

-- A row and the row after it was claimed.
abbrev Claimed : ℕ → List TaskOutbox → TaskOutbox → TaskOutbox → Type 0
Claimed now events a b =
    (b.id ≡ a.id) × ((Outbox.claimable now a ≡ false) ⊎ (among events a ≡ true))

none_due :
    (now : ℕ) (events rows : List TaskOutbox)
    → count_of (Outbox.claimable now) rows ≤ 0
    → Evolves (Claimed now events) rows rows
none_due now events [] h = tt
none_due now events (row ∷ rows) h =
    ((refl, inl (ground arith)), none_due now events rows (omega arith))

-- One more event is claimed.
Claimed-more :
    (now : ℕ) (event : TaskOutbox) (events : List TaskOutbox) (a b : TaskOutbox)
    → Claimed now events a b
    → Claimed now (event ∷ events) a b
Claimed-more now event events a b (e, inl h) = (e, inl h)
Claimed-more now event events a b (e, inr h) = (e, inr (ground arith))

claim_rows-Claimed :
    (now limit : ℕ) (rows : List TaskOutbox)
    → count_of (Outbox.claimable now) rows ≤ limit
    → let claimed = Outbox.claim_rows now limit rows in
      Evolves (Claimed now claimed.0) rows claimed.1
unfolding Outbox.claim_rows
claim_rows-Claimed now limit [] h = tt
claim_rows-Claimed now zero (row ∷ rows) h = none_due now [] (row ∷ rows) h
claim_rows-Claimed now (suc limit) (row ∷ rows) h = elim (Bool-cases (Outbox.claimable now row)) [
  | inl due ↦
      let locked = record row { locked_at = some now } in
      let taken = Outbox.claim_rows now limit rows in
      let few : count_of (Outbox.claimable now) rows ≤ limit = ground arith in
      rw due (
        (refl, inr (rw (str_eq_refl row.id) refl)),
        Evolves-weaken _ _ (Claimed-more now locked taken.0) rows taken.1
            (claim_rows-Claimed now limit rows few),
      )
  | inr later ↦
      let few : count_of (Outbox.claimable now) rows ≤ suc limit = ground arith in
      rw later ((refl, inl later), claim_rows-Claimed now (suc limit) rows few)
]

-- A row and the row after the events were published.
abbrev Marked : ℕ → List TaskOutbox → TaskOutbox → TaskOutbox → Type 0
Marked now events a b =
    (among events a ≡ true → b.published_at ≡ some now)
    × (a.published_at ≡ some now → b.published_at ≡ some now)

-- A row and the row after one event was published.
abbrev MarkedBy : ℕ → TaskOutbox → TaskOutbox → TaskOutbox → Type 0
MarkedBy now event a b =
    (b.id ≡ a.id)
    × (str_eq a.id event.id ≡ true → b.published_at ≡ some now)
    × (a.published_at ≡ some now → b.published_at ≡ some now)

published-MarkedBy :
    (now : ℕ) (event row : TaskOutbox)
    → MarkedBy now event row (if str_eq row.id event.id then Outbox.published now row else row)
unfolding Outbox.published
published-MarkedBy now event row = elim (Bool-cases (str_eq row.id event.id)) [
  | inl this ↦ rw this (refl, (λ h. refl), (λ h. refl))
  | inr other ↦ rw other (refl, (λ h. cc), (λ h. h))
]

MarkedBy-then :
    (now : ℕ) (event : TaskOutbox) (events : List TaskOutbox) (a b c : TaskOutbox)
    → MarkedBy now event a b
    → Marked now events b c
    → Marked now (event ∷ events) a c
MarkedBy-then now event events a b c (e, f, g) (h, k) = (all, λ p. k (g p))
  where
    all : among (event ∷ events) a ≡ true → c.published_at ≡ some now
    all m = elim (Bool-cases (str_eq a.id event.id)) [
      | inl this ↦ k (f this)
      | inr other ↦ h (rw e (ground arith))
    ]

publish_all-Marked :
    (now : ℕ) (events rows : List TaskOutbox)
    → Evolves (Marked now events) rows (publish_all now events rows)
publish_all-Marked now [] rows = Evolves-refl (Marked now []) (λ a. ((λ h. cc), (λ h. h))) rows
publish_all-Marked now (event ∷ events) rows =
    Evolves-then (MarkedBy now event) (Marked now events) _ (MarkedBy-then now event events) rows _
      _
      (Evolves-each (MarkedBy now event) (λ row. str_eq row.id event.id) (Outbox.published now)
        (published-MarkedBy now event) rows)
      (publish_all-Marked now events _)

-- A row that is due is published.
abbrev pub Delivered : ℕ → TaskOutbox → TaskOutbox → Type 0
Delivered now a b = (Outbox.claimable now a ≡ false) ⊎ (b.published_at ≡ some now)

Claimed-then :
    (now : ℕ) (events : List TaskOutbox) (a b c : TaskOutbox)
    → Claimed now events a b
    → Marked now events b c
    → Delivered now a c
Claimed-then now events a b c (e, inl h) k = inl h
Claimed-then now events a b c (e, inr h) k = inr (k.0 (rw e h))

outbox-quiet :
    (send : Send)
    → ((event : TaskOutbox) → send event ≡ ok tt)
    → (w : World)
    → let claimed = Outbox.claim_rows w.now 50 w.db.outbox in
      publish_outbox send (quiet w)
      ≡ (ok tt, quiet (with_outbox (publish_all w.now claimed.0 claimed.1) w))
unfolding publish_outbox
outbox-quiet send takes w =
    let claimed = Outbox.claim_rows w.now 50 w.db.outbox in
    bind_eq (attempt (Outbox.claim_batch (ℤ.pos 50))) (relay_claimed send) (ok claimed.0) (quiet w)
      (quiet (with_outbox claimed.1 w))
      (unfold Outbox.claim_batch in unfold attempt in unfold statement in refl)
    ∙ relay-quiet send takes claimed.0 (with_outbox claimed.1 w)

-- When nothing fails, JetStream takes every event, and no more than fifty events are due, a tick of
-- the relay marks every event that is due as published, and loses none.
pub publish_outbox-Delivered :
    (send : Send)
    → ((event : TaskOutbox) → send event ≡ ok tt)
    → (w : World) → count_of (Outbox.claimable w.now) w.db.outbox ≤ 50
    → Evolves (Delivered w.now) w.db.outbox (publish_outbox send (quiet w)).1.db.outbox
publish_outbox-Delivered send takes w few =
    let claimed = Outbox.claim_rows w.now 50 w.db.outbox in
    rw (outbox-quiet send takes w) (
      Evolves-then (Claimed w.now claimed.0) (Marked w.now claimed.0) (Delivered w.now)
        (Claimed-then w.now claimed.0) w.db.outbox claimed.1 (publish_all w.now claimed.0 claimed.1)
        (claim_rows-Claimed w.now 50 w.db.outbox few)
        (publish_all-Marked w.now claimed.0 claimed.1))
