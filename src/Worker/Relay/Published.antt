-- ===== src/Worker/Relay/Published.antt =====
-- An event counts as published only when JetStream took one with its id.
use enterprise_rag.Prelude.{
  ℕ, zero, suc, String, none, List, [], ◌∷◌, All, ◌≡◌, ◌⊎◌, inl, inr, refl, sym, ◌∙◌, Text,
  str_eq_iff, Bool-cases,
}
use enterprise_rag.Prelude.Int.{ℤ}
use enterprise_rag.Store.{Db, TaskOutbox}
use enterprise_rag.Store.Evolution.{Evolves, Evolves-refl, Evolves-update, Evolves-trans}
use enterprise_rag.Exec.{error_text, Result, ok, err, World, Exec}
use enterprise_rag.Exec.Guards.{
  IsPreorder, Rely, Guards, Guards-pure, Guards-attempt, Guards-bind, Guards-statement,
}
use enterprise_rag.Repository.Outbox
use enterprise_rag.Worker.Relay.{Send, after_send, relay_events, relay_claimed, publish_outbox}

-- JetStream takes an event with this id.
abbrev pub Taken : Send → String → Type 0
Taken send id = (event : TaskOutbox) × (event.id ≡ id) × (send event ≡ ok tt)

-- How a row may change: it keeps its id, and is marked published only if JetStream takes it.
abbrev pub RowMoves : Send → TaskOutbox → TaskOutbox → Type 0
RowMoves send a b =
    (b.id ≡ a.id) × ((b.published_at ≡ a.published_at) ⊎ (b.published_at ≡ none) ⊎ Taken send a.id)

abbrev pub OutboxMoves : Send → Db → Db → Type 0
OutboxMoves send d d' = Evolves (RowMoves send) d.outbox d'.outbox

module _ (send : Send) where
  RowMoves-refl : (a : TaskOutbox) → RowMoves send a a
  RowMoves-refl a = (refl, inl refl)

  RowMoves-trans : (a b c : TaskOutbox) → RowMoves send a b → RowMoves send b c → RowMoves send a c
  RowMoves-trans a b c (e, h) (f, inl k) = (f ∙ e, step h)
    where
      step :
          (b.published_at ≡ a.published_at) ⊎ (b.published_at ≡ none) ⊎ Taken send a.id
          → (c.published_at ≡ a.published_at) ⊎ (c.published_at ≡ none) ⊎ Taken send a.id
      step (inl x) = inl (k ∙ x)
      step (inr (inl x)) = inr (inl (k ∙ x))
      step (inr (inr x)) = inr (inr x)
  RowMoves-trans a b c (e, h) (f, inr (inl k)) = (f ∙ e, inr (inl k))
  RowMoves-trans a b c (e, h) (f, inr (inr (x, g, s))) = (f ∙ e, inr (inr (x, g ∙ e, s)))

  pub OutboxMoves-refl : (d : Db) → OutboxMoves send d d
  OutboxMoves-refl d = Evolves-refl (RowMoves send) RowMoves-refl d.outbox

  pub OutboxMoves-trans :
      (a b c : Db) → OutboxMoves send a b → OutboxMoves send b c → OutboxMoves send a c
  OutboxMoves-trans a b c h k =
      Evolves-trans (RowMoves send) RowMoves-trans a.outbox b.outbox c.outbox h k

  abbrev pub OutboxMoves-order : IsPreorder (OutboxMoves send)
  OutboxMoves-order = record { reflexive = OutboxMoves-refl; transitive = OutboxMoves-trans }

  claim_rows-Moves :
      (now limit : ℕ) (rows : List TaskOutbox)
      → Evolves (RowMoves send) rows (Outbox.claim_rows now limit rows).1
  unfolding Outbox.claim_rows
  claim_rows-Moves now limit [] = tt
  claim_rows-Moves now zero (row ∷ rows) = Evolves-refl (RowMoves send) RowMoves-refl (row ∷ rows)
  claim_rows-Moves now (suc limit) (row ∷ rows) = elim (Bool-cases (Outbox.claimable now row)) [
    | inl due ↦ rw due ((refl, inl refl), claim_rows-Moves now limit rows)
    | inr later ↦ rw later ((refl, inl refl), claim_rows-Moves now (suc limit) rows)
  ]

  abbrev Keeps : {A : Type 0} → Exec A → Type 0
  Keeps m = Guards (OutboxMoves send) OutboxMoves-order m

  Guards-claim_batch : (limit : ℤ) → Keeps (Outbox.claim_batch limit)
  unfolding Outbox.claim_batch
  Guards-claim_batch limit =
      Guards-statement _ _ _ (λ now d. claim_rows-Moves now (Outbox.batch_limit limit) d.outbox)

  Guards-mark_published : (id : String) → Taken send id → Keeps (Outbox.mark_published id)
  unfolding Outbox.mark_published Outbox.published
  Guards-mark_published id (x, e, s) = Guards-statement _ _ _ (λ now d.
      Evolves-update (RowMoves send) RowMoves-refl _ _
        (λ row h. (refl, inr (inr (x, e ∙ sym ((str_eq_iff row.id id).0 h), s)))) d.outbox)

  Guards-mark_failed : (id : String) (message : Text) → Keeps (Outbox.mark_failed id message)
  unfolding Outbox.mark_failed Outbox.put_off
  Guards-mark_failed id message = Guards-statement _ _ _ (λ now d.
      Evolves-update (RowMoves send) RowMoves-refl _ _ (λ row h. (refl, inl refl)) d.outbox)

  Guards-after_send :
      (event : TaskOutbox) (r : Result (Unit {0}))
      → (r ≡ ok tt → Taken send event.id)
      → Keeps (after_send event r)
  Guards-after_send event (ok u) h = Guards-mark_published event.id (h refl)
  Guards-after_send event (err e) h = Guards-mark_failed event.id (error_text e)

  Guards-relay_events : (events : List TaskOutbox) → Keeps (relay_events send events)
  unfolding relay_events
  Guards-relay_events [] = Guards-pure tt
  Guards-relay_events (event ∷ events) =
      Guards-bind _ _
        (Guards-attempt _ (Guards-after_send event (send event) (λ h. (event, refl, h))))
        (λ u. Guards-relay_events events)

  Guards-relay_claimed : (r : Result (List TaskOutbox)) → Keeps (relay_claimed send r)
  Guards-relay_claimed (ok events) = Guards-relay_events events
  Guards-relay_claimed (err e) = Guards-pure tt

  Guards-publish_outbox : Keeps (publish_outbox send)
  unfolding publish_outbox
  Guards-publish_outbox =
      Guards-bind _ _ (Guards-attempt _ (Guards-claim_batch (ℤ.pos 50))) Guards-relay_claimed

  -- In a tick of the relay, whatever fails, every event keeps its id and its place, and an event is
  -- marked published only if JetStream takes an event with its id; as long as the other processes
  -- keep to the same.
  pub publish_outbox-Moves :
      (w : World)
      → All (Rely (OutboxMoves send)) w.turns
      → OutboxMoves send w.db (publish_outbox send w).1.db
  publish_outbox-Moves w h = (Guards-publish_outbox.at w h).0
