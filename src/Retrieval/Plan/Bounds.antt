-- ===== src/Retrieval/Plan/Bounds.antt =====
-- The bounds of a query plan: how many queries it has, how long they are, and that they differ.
use Prim.Native.Nat.{max}
use mathlib.Core.List.{cons-ne-nil}
use enterprise_rag.Prelude.{
  ℕ, zero, suc, ◌-◌, ◌*◌, ◌/◌, ◌≤◌, ◌<◌, false, List, [], ◌∷◌, ◌++◌, All, All-append, Text, ◌≡◌,
  ◌≢◌, ◌⊎◌, inl, inr, refl, arith, leb, length, length-append, length-take, take, Bool-cases,
}
use enterprise_rag.Prelude.Int.{ℤ}
use enterprise_rag.Runes.{trim_space, length-trim_space}
use enterprise_rag.Retrieval.Scores.{Letters}
use enterprise_rag.Retrieval.Plan.{
  QueryPlan, squeeze, at_least_one, cut_back, compact_query, known, append_new, append_unique_query,
  add_parts, question_parts, or_original, build_query_plan,
}

cut_back_bound :
    (l : Letters) (runes : Text) (rounds index limit : ℕ)
    → index ≤ limit
    → cut_back l runes rounds index limit ≤ limit
unfolding cut_back
cut_back_bound l runes zero index limit h = omega arith
cut_back_bound l runes (suc rounds) index limit h =
    ground (arith, cut_back_bound l runes rounds (index - 1) limit (omega arith))

compact_query_bound :
    (l : Letters) (query : Text) (limit : ℕ) → length (compact_query l query limit) ≤ limit
unfolding compact_query
compact_query_bound l query limit = elim (Bool-cases (leb (length (squeeze query)) limit)) [
  | inl fits ↦ rw fits (ground arith)
  | inr long ↦
      let runes = squeeze query in
      let cut = cut_back l runes (limit - limit * 3 / 4) limit limit in
      let le : cut ≤ limit = cut_back_bound l runes _ limit limit (omega arith) in
      rw long (omega (arith, length-trim_space (take cut runes), length-take cut runes))
]

-- No query is another one's, but for the case of its letters.
abbrev pub Distinct : Letters → List Text → Type 0
Distinct l [] = Unit
Distinct l (q ∷ queries) = All (λ r. l.equal_fold q r ≡ false) queries × Distinct l queries

not_known :
    (l : Letters) (queries : List Text) (q : Text)
    → known l queries q ≡ false
    → All (λ r. l.equal_fold r q ≡ false) queries
not_known l [] q h = tt
not_known l (r ∷ queries) q h = (ground arith, not_known l queries q (ground arith))

Distinct-append :
    (l : Letters) (queries : List Text) (q : Text)
    → All (λ r. l.equal_fold r q ≡ false) queries
    → Distinct l queries
    → Distinct l (queries ++ q ∷ [])
Distinct-append l [] q h d = (tt, tt)
Distinct-append l (r ∷ queries) q h d =
    (All-append _ queries (q ∷ []) d.0 (h.0, tt), Distinct-append l queries q h.1 d.1)

-- A query of the plan: not empty, and not longer than the limit.
abbrev pub Short : ℕ → Text → Type 0
Short limit q = (q ≢ []) × (length q ≤ limit)

record Sound (l : Letters) (limit : ℕ) (queries : List Text) : Type 0 where
  distinct : Distinct l queries
  short : All (Short limit) queries

append_new-Sound :
    (l : Letters) (limit : ℕ) (queries : List Text) (q : Text)
    → length q ≤ limit
    → Sound l limit queries
    → Sound l limit (append_new l queries q)
      × (length (append_new l queries q) ≤ suc (length queries))
append_new-Sound l limit queries [] h s = (s, omega arith)
append_new-Sound l limit queries (c ∷ q) h s = elim (Bool-cases (known l queries (c ∷ q))) [
  | inl old ↦ rw old (s, omega arith)
  | inr new ↦ rw new (
    record {
      distinct = Distinct-append l queries (c ∷ q) (not_known l queries (c ∷ q) new) s.distinct;
      short = All-append _ queries ((c ∷ q) ∷ []) s.short ((cons-ne-nil c q, h), tt);
    },
    omega (arith, length-append queries ((c ∷ q) ∷ [])),
  )
]

append_unique_query-Sound :
    (l : Letters) (limit : ℕ) (queries : List Text) (q : Text)
    → length q ≤ limit
    → Sound l limit queries
    → Sound l limit (append_unique_query l queries q)
      × (length (append_unique_query l queries q) ≤ suc (length queries))
unfolding append_unique_query
append_unique_query-Sound l limit queries q h s =
    append_new-Sound l limit queries (trim_space q) (omega (arith, length-trim_space q)) s

add_parts-Sound :
    (l : Letters) (limit subs : ℕ) (parts queries : List Text)
    → Sound l limit queries
    → Sound l limit (add_parts l limit subs parts queries)
      × (length (add_parts l limit subs parts queries) ≤ max subs (suc (length queries)))
unfolding add_parts
add_parts-Sound l limit subs [] queries s = (s, omega arith)
add_parts-Sound l limit subs (part ∷ parts) queries s =
    let added = append_unique_query l queries (compact_query l part limit) in
    let (sound, longer) =
      append_unique_query-Sound l limit queries _ (compact_query_bound l part limit) s in
    let rest = add_parts-Sound l limit subs parts added sound in
    elim (Bool-cases (leb subs (length added))) [
      | inl enough ↦ rw enough (sound, omega arith)
      | inr few ↦
          let below : length added < subs = ground arith in rw few (rest.0, omega (arith, rest.1))
    ]

-- A plan for a question.
pub record IsPlan (l : Letters) (limit subs : ℕ) (plan : QueryPlan) : Type 0 where
  pub some_query : plan.queries ≢ []
  pub few : length plan.queries ≤ max subs 2
  pub distinct : Distinct l plan.queries
  pub short : All (Short limit) plan.queries ⊎ (plan.queries ≡ plan.original ∷ [])

or_original-IsPlan :
    (l : Letters) (limit subs : ℕ) (original : Text) (queries : List Text)
    → Sound l limit queries
    → length queries ≤ max subs 2
    → IsPlan l limit subs (record { original = original; queries = or_original original queries })
or_original-IsPlan l limit subs original [] s h = record {
  some_query = cons-ne-nil original [];
  few = omega arith;
  distinct = (tt, tt);
  short = inr refl;
}
or_original-IsPlan l limit subs original (q ∷ queries) s h = record {
  some_query = cons-ne-nil q queries;
  few = h;
  distinct = s.distinct;
  short = inl s.short;
}

-- Every question gets a plan of one query at least, and at most as many as the bound, or two where
-- the bound is one; no two are the same but for case, and each is neither empty nor longer than
-- the limit, unless the plan is the question alone.
pub build_query_plan-IsPlan :
    (l : Letters) (original rewritten : Text) (max_runes max_sub_queries : ℤ)
    → IsPlan l
        (at_least_one max_runes 500)
        (at_least_one max_sub_queries 4)
        (build_query_plan l original rewritten max_runes max_sub_queries)
unfolding build_query_plan
build_query_plan-IsPlan l original rewritten max_runes max_sub_queries =
    let limit = at_least_one max_runes 500 in
    let subs = at_least_one max_sub_queries 4 in
    let empty : Sound l limit [] = record { distinct = tt; short = tt } in
    let first = append_unique_query l [] (compact_query l rewritten limit) in
    let (sound, one) =
      append_unique_query-Sound l limit [] _ (compact_query_bound l rewritten limit) empty in
    let all = add_parts-Sound l limit subs (question_parts (squeeze original) limit) first sound in
    or_original-IsPlan l limit subs (squeeze original) _ all.0 (omega (arith, all.1, one))
