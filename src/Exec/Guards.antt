-- ===== src/Exec/Guards.antt =====
-- What the tables may undergo while code runs, whatever fails and whatever other processes do.
--
-- `R` is a reflexive and transitive relation on the tables, and the other processes keep to it at
-- each turn of the schedule. `Guards m` says that `m` keeps to it too. There is one rule for each
-- way to build code, so the rules of a component's calls give those of its handlers.
use enterprise_rag.Prelude.{ℕ, ◌+◌, ◌≡◌, refl, Bool, true, false, List, [], ◌∷◌, All, if◌then◌else◌}
use enterprise_rag.Store.{Db}
use enterprise_rag.Exec.{
  Error, Result, ok, err, Outcome, done, refused, unheard, Turn, World, Exec, pure, raise, lift,
  attempt, ◌>>=◌, conclude, at_turn, still_first, statement, inside, finish, begun, transaction,
}

pub record IsPreorder (R : Db → Db → Type 0) : Type 0 where
  pub reflexive : (d : Db) → R d d
  pub transitive : (a b c : Db) → R a b → R b c → R a c

-- The other processes keep to `R` at a turn.
abbrev pub Rely : (Db → Db → Type 0) → Turn → Type 0
Rely R t = (d : Db) → R d (t.others d)

module _ (R : Db → Db → Type 0) (order : IsPreorder R) where
  pub record Guards {A : Type 0} (m : Exec A) : Type 0 where
    pub at : (w : World) → All (Rely R) w.turns → R w.db (m w).1.db × All (Rely R) (m w).1.turns

module _ {R : Db → Db → Type 0} {order : IsPreorder R} {A : Type 0} where
  pub Guards-pure : (a : A) → Guards R order (pure a)
  unfolding pure
  Guards-pure a = record { at = λ w h. (order.reflexive w.db, h) }

  pub Guards-raise : (e : Error) → Guards R order (raise {A = A} e)
  unfolding raise
  Guards-raise e = record { at = λ w h. (order.reflexive w.db, h) }

  pub Guards-lift : (r : Result A) → Guards R order (lift r)
  unfolding lift
  Guards-lift r = record { at = λ w h. (order.reflexive w.db, h) }

  pub Guards-attempt : (m : Exec A) → Guards R order m → Guards R order (attempt m)
  unfolding attempt
  Guards-attempt m g = record { at = λ w h. g.at w h }

  pub Guards-if :
      (b : Bool) (m n : Exec A)
      → (b ≡ true → Guards R order m)
      → (b ≡ false → Guards R order n)
      → Guards R order (if b then m else n)
  Guards-if true m n gm gn = gm refl
  Guards-if false m n gm gn = gn refl

module _ {R : Db → Db → Type 0} {order : IsPreorder R} {A B : Type 0} where
  bind_result :
      (f : A → Exec B) (start : Db) (r : Result A) (w : World)
      → ((a : A) → Guards R order (f a))
      → R start w.db
      → All (Rely R) w.turns
      → R start (◌>>=◌ (λ v. (r, v)) f w).1.db × All (Rely R) (◌>>=◌ (λ v. (r, v)) f w).1.turns
  unfolding ◌>>=◌
  bind_result f start (ok a) w g s h = (order.transitive _ _ _ s ((g a).at w h).0, ((g a).at w h).1)
  bind_result f start (err e) w g s h = (s, h)

  pub Guards-bind :
      (m : Exec A) (f : A → Exec B)
      → Guards R order m
      → ((a : A) → Guards R order (f a))
      → Guards R order (m >>= f)
  unfolding ◌>>=◌
  Guards-bind m f gm gf = record {
    at = λ w h. bind_result f w.db (m w).0 (m w).1 gf (gm.at w h).0 (gm.at w h).1;
  }

  -- What a call answers is known behind it.
  pub Guards-bind_lift :
      (r : Result A) (f : A → Exec B)
      → ((a : A) → r ≡ ok a → Guards R order (f a))
      → Guards R order (lift r >>= f)
  unfolding ◌>>=◌ lift
  Guards-bind_lift (ok a) f g = record { at = λ w h. (g a refl).at w h }
  Guards-bind_lift (err e) f g = record { at = λ w h. (order.reflexive w.db, h) }

  -- What every outcome of a call satisfies is known behind it.
  pub Guards-bind_attempt :
      (m : Exec A) (f : Result A → Exec B) (Q : Result A → Type 0)
      → Guards R order m
      → ((w : World) → Q (m w).0)
      → ((r : Result A) → Q r → Guards R order (f r))
      → Guards R order (attempt m >>= f)
  unfolding ◌>>=◌ attempt
  Guards-bind_attempt m f Q gm q gf = record {
    at = λ w h.
        let first = gm.at w h in
        let rest = (gf (m w).0 (q w)).at (m w).1 first.1 in
        (order.transitive _ _ _ first.0 rest.0, rest.1);
  }

module _ {A : Type 0} (Q : Result A → Type 0) (failed : (e : Error) → Q (err e)) where
  conclude-All : (o : Outcome) (p : Result A × Db) (w : World) → Q p.0 → Q (conclude o p w).0
  unfolding conclude
  conclude-All done p w h = h
  conclude-All refused p w h = failed _
  conclude-All unheard p w h = failed _

  at_turn-All :
      (ts : List Turn) (f : ℕ → Db → Result A × Db) (w : World)
      → ((now : ℕ) (d : Db) → Q (f now d).0)
      → Q (at_turn ts f w).0
  unfolding at_turn
  at_turn-All [] f w h = h _ _
  at_turn-All (t ∷ ts) f w h = conclude-All t.outcome _ _ (h _ _)

  -- What a statement answers, when every error is allowed.
  pub statement-All :
      (f : ℕ → Db → Result A × Db) (w : World)
      → ((now : ℕ) (d : Db) → Q (f now d).0)
      → Q (statement f w).0
  unfolding statement
  statement-All f w h = at_turn-All w.turns f w h

module _ (R : Db → Db → Type 0) (order : IsPreorder R) {A : Type 0} where
  conclude_keeps :
      (o : Outcome) (p : Result A × Db) (start : Db) (w : World)
      → R start w.db
      → R w.db p.1
      → R start (conclude o p w).1.db
  unfolding conclude
  conclude_keeps done p start w s h = order.transitive _ _ _ s h
  conclude_keeps refused p start w s h = s
  conclude_keeps unheard p start w s h = order.transitive _ _ _ s h

  conclude-turns :
      (o : Outcome) (p : Result A × Db) (w : World) → (conclude o p w).1.turns ≡ w.turns
  unfolding conclude
  conclude-turns done p w = refl
  conclude-turns refused p w = refl
  conclude-turns unheard p w = refl

  at_turn_keeps :
      (ts : List Turn) (f : ℕ → Db → Result A × Db) (w : World)
      → ((now : ℕ) (d : Db) → R d (f now d).1)
      → All (Rely R) ts
      → All (Rely R) w.turns
      → R w.db (at_turn ts f w).1.db × All (Rely R) (at_turn ts f w).1.turns
  unfolding at_turn
  at_turn_keeps [] f w g hs h = (g w.now w.db, h)
  at_turn_keeps (t ∷ ts) f w g hs h =
      let now = w.now + t.elapsed in
      let seen = t.others w.db in
      let w' : World = record w { db = seen; now = now; turns = ts } in
      (
        conclude_keeps t.outcome (f now seen) w.db w' (hs.0 w.db) (g now seen),
        rw (conclude-turns t.outcome (f now seen) w') hs.1,
      )

  pub Guards-statement :
      (f : ℕ → Db → Result A × Db)
      → ((now : ℕ) (d : Db) → R d (f now d).1)
      → Guards R order (statement f)
  unfolding statement
  Guards-statement f g = record { at = λ w h. at_turn_keeps w.turns f w g h h }

  -- A statement inside a transaction reads the tables as the one before it left them.
  inside_keeps :
      (ts : List Turn) (f : ℕ → Db → Result A × Db) (w : World)
      → ((now : ℕ) → R w.db (f now w.db).1)
      → All (Rely R) ts
      → All (Rely R) w.turns
      → R w.db (at_turn (still_first ts) f w).1.db
        × All (Rely R) (at_turn (still_first ts) f w).1.turns
  unfolding at_turn
  inside_keeps [] f w g hs h = (g w.now, h)
  inside_keeps (t ∷ ts) f w g hs h =
      let now = w.now + t.elapsed in
      let w' : World = record w { now = now; turns = ts } in
      (
        conclude_keeps t.outcome (f now w.db) w.db w' (order.reflexive w.db) (g now),
        rw (conclude-turns t.outcome (f now w.db) w') hs.1,
      )

  pub Guards-inside :
      (f : ℕ → Db → Result A × Db)
      → ((now : ℕ) (d : Db) → R d (f now d).1)
      → Guards R order (inside f)
  unfolding inside
  Guards-inside f g = record { at = λ w h. inside_keeps w.turns f w (λ now. g now w.db) h h }

  pub finish_keeps :
      (start before : Db) (r : Result A) (w : World)
      → R start before
      → R before w.db
      → All (Rely R) w.turns
      → R start (finish before r w).1.db × All (Rely R) (finish before r w).1.turns
  unfolding finish inside
  finish_keeps start before (ok a) w s g h =
      let commit = λ (now : ℕ) (d : Db). let x : Result A × Db = (ok a, w.db) in x in
      let kept = inside_keeps w.turns commit (record w { db = before }) (λ now. g) h h in
      (order.transitive _ _ _ s kept.0, kept.1)
  finish_keeps start before (err e) w s g h = (s, h)

  begun_keeps :
      (start : Db) (m : Exec A) (r : Result (Unit {0})) (w : World)
      → Guards R order m
      → R start w.db
      → All (Rely R) w.turns
      → R start (begun m r w).1.db × All (Rely R) (begun m r w).1.turns
  unfolding begun
  begun_keeps start m (ok u) w g s h =
      finish_keeps start w.db (m w).0 (m w).1 s (g.at w h).0 (g.at w h).1
  begun_keeps start m (err e) w g s h = (s, h)

module _ (R : Db → Db → Type 0) (order : IsPreorder R) {A : Type 0} where
  pub Guards-transaction : (m : Exec A) → Guards R order m → Guards R order (transaction m)
  unfolding transaction
  Guards-transaction m g = record {
    at = λ w h.
        let begin = statement {A = Unit {0}} (λ now d. (ok tt, d)) in
        let kept =
          (Guards-statement R order {A = Unit {0}} (λ now d. (ok tt, d))
              (λ now. order.reflexive)).at
            w h in
        begun_keeps R order w.db m (begin w).0 (begin w).1 g kept.0 kept.1;
  }
