-- ===== src/Exec/Atomic.antt =====
-- A transaction that keeps a relation only as a whole: what its statements do when all of them
-- succeed, since after a failure the tables are as before.
use enterprise_rag.Prelude.{ℕ, ◌+◌, ◌≡◌, refl, List, [], ◌∷◌, All}
use enterprise_rag.Store.{Db}
use enterprise_rag.Exec.{
  Result, ok, err, Outcome, done, refused, unheard, Turn, World, Exec, pure, ◌>>=◌, conclude,
  at_turn, still_first, inside, finish, begun, statement, transaction,
}
use enterprise_rag.Exec.Guards.{IsPreorder, Guards, Rely, Guards-statement, finish_keeps}

module _ {A : Type 0} where
  conclude_ok :
      (o : Outcome) (p : Result A × Db) (w : World) (a : A)
      → (conclude o p w).0 ≡ ok a
      → p ≡ (ok a, (conclude o p w).1.db)
  unfolding conclude
  conclude_ok done (r, d) w a h = λ i. (h i, d)
  conclude_ok refused (r, d) w a h = cc
  conclude_ok unheard (r, d) w a h = cc

  at_turn_ok :
      (ts : List Turn) (f : ℕ → Db → Result A × Db) (w : World) (a : A)
      → (at_turn (still_first ts) f w).0 ≡ ok a
      → (now : ℕ) × (f now w.db ≡ (ok a, (at_turn (still_first ts) f w).1.db))
  unfolding at_turn
  at_turn_ok [] f w a h = (w.now, λ i. (h i, (f w.now w.db).1))
  at_turn_ok (t ∷ ts) f w a h =
      (w.now + t.elapsed, conclude_ok t.outcome (f (w.now + t.elapsed) w.db) _ a h)

  -- A statement inside a transaction that succeeds was carried out on the tables as they were.
  pub inside_ok :
      (f : ℕ → Db → Result A × Db) (w : World) (a : A)
      → (inside f w).0 ≡ ok a
      → (now : ℕ) × (f now w.db ≡ (ok a, (inside f w).1.db))
  unfolding inside
  inside_ok f w a h = at_turn_ok w.turns f w a h

  -- Whatever holds of the turns to come holds of those that `m` leaves.
  pub record LeavesTurns (P : Turn → Type 0) (m : Exec A) : Type 0 where
    pub at : (w : World) → All P w.turns → All P (m w).1.turns

module _ (P : Turn → Type 0) {A : Type 0} where
  conclude_leaves :
      (o : Outcome) (p : Result A × Db) (w : World) → All P w.turns → All P (conclude o p w).1.turns
  unfolding conclude
  conclude_leaves done p w h = h
  conclude_leaves refused p w h = h
  conclude_leaves unheard p w h = h

  at_turn_leaves :
      (ts : List Turn) (f : ℕ → Db → Result A × Db) (w : World)
      → All P ts
      → All P w.turns
      → All P (at_turn (still_first ts) f w).1.turns
  unfolding at_turn
  at_turn_leaves [] f w hs h = h
  at_turn_leaves (t ∷ ts) f w hs h = conclude_leaves t.outcome _ _ hs.1

  pub LeavesTurns-inside : (f : ℕ → Db → Result A × Db) → LeavesTurns P (inside f)
  unfolding inside
  LeavesTurns-inside f = record { at = λ w h. at_turn_leaves w.turns f w h h }

  pub LeavesTurns-pure : (a : A) → LeavesTurns P (pure a)
  unfolding pure
  LeavesTurns-pure a = record { at = λ w h. h }

module _ (P : Turn → Type 0) {A B : Type 0} where
  bind_leaves :
      (f : A → Exec B) (r : Result A) (w : World)
      → ((a : A) → LeavesTurns P (f a))
      → All P w.turns
      → All P (◌>>=◌ (λ v. (r, v)) f w).1.turns
  unfolding ◌>>=◌
  bind_leaves f (ok a) w g h = (g a).at w h
  bind_leaves f (err e) w g h = h

  pub LeavesTurns-bind :
      (m : Exec A) (f : A → Exec B)
      → LeavesTurns P m
      → ((a : A) → LeavesTurns P (f a))
      → LeavesTurns P (m >>= f)
  unfolding ◌>>=◌
  LeavesTurns-bind m f gm gf = record { at = λ w h. bind_leaves f (m w).0 (m w).1 gf (gm.at w h) }

module _ {A B : Type 0} where
  bind_result_ok :
      (f : A → Exec B) (r : Result A) (w : World) (b : B)
      → (◌>>=◌ (λ v. (r, v)) f w).0 ≡ ok b
      → (a : A) × (r ≡ ok a) × ((f a w).0 ≡ ok b) × ((◌>>=◌ (λ v. (r, v)) f w).1.db ≡ (f a w).1.db)
  unfolding ◌>>=◌
  bind_result_ok f (ok a) w b h = (a, refl, h, refl)
  bind_result_ok f (err e) w b h = cc

  -- A chain that succeeds: each part succeeded.
  pub >>=_ok :
      (m : Exec A) (f : A → Exec B) (w : World) (b : B)
      → ((m >>= f) w).0 ≡ ok b
      → (a : A) × ((m w).0 ≡ ok a)
        × ((f a (m w).1).0 ≡ ok b)
        × (((m >>= f) w).1.db ≡ (f a (m w).1).1.db)
  unfolding ◌>>=◌
  >>=_ok m f w b h = bind_result_ok f (m w).0 (m w).1 b h

-- A call that succeeds, and what follows.
pub bind_eq :
    {A B : Type 0} (m : Exec A) (f : A → Exec B) (a : A) (w w' : World)
    → m w ≡ (ok a, w')
    → (m >>= f) w ≡ f a w'
unfolding ◌>>=◌
bind_eq m f a w w' h = rw h refl

module _ (R : Db → Db → Type 0) (order : IsPreorder R) {A : Type 0} where
  finish_whole :
      (start before : Db) (r : Result A) (w : World)
      → R start before
      → ((a : A) → r ≡ ok a → R before w.db)
      → All (Rely R) w.turns
      → R start (finish before r w).1.db × All (Rely R) (finish before r w).1.turns
  finish_whole start before (ok a) w s g h =
      finish_keeps R order start before (ok a) w s (g a refl) h
  finish_whole start before (err e) w s g h = unfold finish in (s, h)

  begun_whole :
      (start : Db) (m : Exec A) (r : Result (Unit {0})) (w : World)
      → LeavesTurns (Rely R) m
      → ((w : World) (a : A) → (m w).0 ≡ ok a → R w.db (m w).1.db)
      → R start w.db
      → All (Rely R) w.turns
      → R start (begun m r w).1.db × All (Rely R) (begun m r w).1.turns
  unfolding begun
  begun_whole start m (ok u) w leaves g s h =
      finish_whole start w.db (m w).0 (m w).1 s (g w) (leaves.at w h)
  begun_whole start m (err e) w leaves g s h = (s, h)

  -- The rule: `R` has to hold between the tables before and after a run that succeeds.
  pub Guards-whole :
      (m : Exec A)
      → LeavesTurns (Rely R) m
      → ((w : World) (a : A) → (m w).0 ≡ ok a → R w.db (m w).1.db)
      → Guards R order (transaction m)
  unfolding transaction
  Guards-whole m leaves g = record {
    at = λ w h.
        let begin = statement {A = Unit {0}} (λ now d. (ok tt, d)) in
        let kept =
          (Guards-statement R order {A = Unit {0}} (λ now d. (ok tt, d))
              (λ now. order.reflexive)).at
            w h in
        begun_whole w.db m (begin w).0 (begin w).1 leaves g kept.0 kept.1;
  }
