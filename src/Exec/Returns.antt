-- ===== src/Exec/Returns.antt =====
-- What code that calls other systems returns: `Returns Q m` says that whatever fails and whatever
-- other processes do, a value that `m` returns meets `Q`; `Answers w m` says that `m` returns a value
-- and changes nothing when nothing fails.
use enterprise_rag.Prelude.{ℕ, ◌≡◌, refl, ◌∙◌, ap, Bool, true, false, List, [], ◌∷◌, if◌then◌else◌}
use enterprise_rag.Store.{Db}
use enterprise_rag.Exec.{
  Error, Result, ok, err, Outcome, done, refused, unheard, Turn, World, quiet, Exec, pure, raise,
  lift, ◌>>=◌, conclude, at_turn, statement,
}
use enterprise_rag.Exec.Atomic.{>>=_ok, bind_eq}

module _ {A : Type 0} where
  abbrev value_or : A → Result A → A
  value_or a (ok x) = x
  value_or a (err e) = a

  pub ok-injective : (a b : A) → ok a ≡ ok b → a ≡ b
  ok-injective a b h = ap (value_or a) h

module _ {A : Type 0} (Q : A → Type 0) where
  abbrev pub Returns : Exec A → Type 0
  Returns m = (w : World) (a : A) → (m w).0 ≡ ok a → Q a

  abbrev pub Holds : Result A → Type 0
  Holds r = (a : A) → r ≡ ok a → Q a

  pub Returns-pure : (a : A) → Q a → Returns (pure a)
  unfolding pure
  Returns-pure a q w b h = rw (← ok-injective a b h) q

  pub Returns-raise : (e : Error) → Returns (raise e)
  unfolding raise
  Returns-raise e w a h = cc

  pub Returns-lift : (r : Result A) → Holds r → Returns (lift r)
  unfolding lift
  Returns-lift r q w a h = q a h

  conclude_returns :
      (o : Outcome) (p : Result A × Db) (w : World) → Holds p.0 → Holds (conclude o p w).0
  unfolding conclude
  conclude_returns done p w q a h = q a h
  conclude_returns refused p w q a h = cc
  conclude_returns unheard p w q a h = cc

  at_turn_returns :
      (ts : List Turn) (f : ℕ → Db → Result A × Db) (w : World)
      → ((now : ℕ) (d : Db) → Holds (f now d).0)
      → Holds (at_turn ts f w).0
  unfolding at_turn
  at_turn_returns [] f w q = q w.now w.db
  at_turn_returns (t ∷ ts) f w q = conclude_returns t.outcome _ _ (q _ _)

  pub Returns-statement :
      (f : ℕ → Db → Result A × Db)
      → ((now : ℕ) (d : Db) → Holds (f now d).0)
      → Returns (statement f)
  unfolding statement
  Returns-statement f q w = at_turn_returns w.turns f w q

  pub Returns-if : (b : Bool) (m n : Exec A) → Returns m → Returns n → Returns (if b then m else n)
  Returns-if true m n hm hn = hm
  Returns-if false m n hm hn = hn

-- What is returned by a chain.
pub Returns-bind :
    {A B : Type 0} (P : A → Type 0) (Q : B → Type 0) (m : Exec A) (f : A → Exec B)
    → Returns P m
    → ((a : A) → P a → Returns Q (f a))
    → Returns Q (m >>= f)
Returns-bind P Q m f hm hf w b h = let r = >>=_ok m f w b h in hf r.0 (hm w r.0 r.1) (m w).1 b r.2

abbrev pub Any : {A : Type 0} → A → Type 0
Any a = Unit

-- Code that returns nothing that matters.
pub Returns-then :
    {A B : Type 0} (Q : B → Type 0) (m : Exec A) (f : A → Exec B)
    → ((a : A) → Returns Q (f a))
    → Returns Q (m >>= f)
Returns-then Q m f hf = Returns-bind Any Q m f (λ w a h. tt) (λ a u. hf a)

abbrev pub Answers : {A : Type 0} → World → Exec A → Type 0
Answers {A = A} w m = (a : A) × (m (quiet w) ≡ (ok a, quiet w))

pub Answers-pure : {A : Type 0} (w : World) (a : A) → Answers w (pure a)
unfolding pure
Answers-pure w a = (a, refl)

pub Answers-lift : {A : Type 0} (w : World) (r : Result A) (a : A) → r ≡ ok a → Answers w (lift r)
unfolding lift
Answers-lift w r a h = (a, λ i. (h i, quiet w))

pub Answers-bind :
    {A B : Type 0} (w : World) (m : Exec A) (f : A → Exec B)
    → Answers w m
    → ((a : A) → Answers w (f a))
    → Answers w (m >>= f)
Answers-bind w m f hm hf =
    let rest = hf hm.0 in (rest.0, bind_eq m f hm.0 (quiet w) (quiet w) hm.1 ∙ rest.1)
