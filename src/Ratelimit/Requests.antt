-- ===== src/Ratelimit/Requests.antt =====
-- The requests of one key, and what the key holds between them.
use mathlib.Core.Option.{some-injective}
use enterprise_rag.Prelude.{
  ℕ, suc, ◌+◌, ◌≤◌, ◌<◌, String, Bool, true, false, ◌&&◌, not, Option, none, some, List, [], ◌∷◌,
  All, ◌≡◌, refl, ap, sym, ◌∙◌, arith, ltb, leb, ◌==◌, str_eq, length, count_of, keep_if,
  if◌then◌else◌, Bool-cases, All-map, All-keep_if, length-keep_if, count_of-keep_if, count_of_none,
  keep_if_whole, inl, inr,
}
use enterprise_rag.Prelude.Int.{ℤ}
use enterprise_rag.Ratelimit.{
  Entry, SortedSet, live_entries, is_recent, insert_entry, zadd, sliding_window,
}

-- A request: when it comes, and the member that stands for it.
pub record Attempt : Type 0 where
  pub at : ℕ
  pub member : String

abbrev pub let_in : (ℕ × ℕ) × SortedSet → Bool
let_in answer = answer.0.0 == 1

-- The times of the requests that are let in.
abbrev pub admitted : ℕ → ℕ → List Attempt → SortedSet → List ℕ
admitted window quota [] set = []
admitted window quota (a ∷ attempts) set =
    let answer = sliding_window window (ℤ.pos quota) a.member a.at set in
    let rest = admitted window quota attempts answer.1 in
    if let_in answer then a.at ∷ rest else rest

-- `s` is one of the times in the window that ends at `t`.
abbrev pub in_window : ℕ → ℕ → ℕ → Bool
in_window window t s = leb s t && ltb t (s + window)

-- The requests come in order, none before `last`, and their members differ.
abbrev pub InOrder : ℕ → List Attempt → Type 0
InOrder last [] = Unit
InOrder last (a ∷ attempts) =
    (last ≤ a.at)
    × All (λ (b : Attempt). str_eq a.member b.member ≡ false) attempts
    × InOrder a.at attempts

pub count_of-insert_entry :
    (p : Entry → Bool) (e : Entry) (xs : List Entry)
    → count_of p (insert_entry e xs) ≡ (if p e then 1 else 0) + count_of p xs
unfolding insert_entry
count_of-insert_entry p e [] = omega arith
count_of-insert_entry p e (x ∷ xs) = elim (Bool-cases (leb x.score e.score)) [
  | inl later ↦ rw later (omega (arith, count_of-insert_entry p e xs))
  | inr here ↦ rw here (omega arith)
]

pub length-insert_entry :
    (e : Entry) (xs : List Entry) → length (insert_entry e xs) ≡ suc (length xs)
unfolding insert_entry
length-insert_entry e [] = refl
length-insert_entry e (x ∷ xs) = ground (arith, length-insert_entry e xs)

pub All-insert_entry :
    (P : Entry → Type 0) (e : Entry) (xs : List Entry) → P e → All P xs → All P (insert_entry e xs)
unfolding insert_entry
All-insert_entry P e [] pe h = (pe, tt)
All-insert_entry P e (x ∷ xs) pe h = elim (Bool-cases (leb x.score e.score)) [
  | inl later ↦ rw later (h.0, All-insert_entry P e xs pe h.1)
  | inr here ↦ rw here (pe, h)
]

-- What the key holds when the last request came at `last` and `attempts` are still to come.
pub record Holds (window quota last : ℕ) (attempts : List Attempt) (set : SortedSet) : Type 0 where
  pub past : All (λ (e : Entry). e.score ≤ last) set.entries
  pub lasting : (until : ℕ) → set.expires_at ≡ some until → last + window ≤ until
  pub few : length set.entries ≤ quota
  pub fresh :
      All
        (λ (e : Entry). All (λ (a : Attempt). str_eq e.member a.member ≡ false) attempts)
        set.entries

-- What the script keeps of the entries.
abbrev pub kept : ℕ → ℕ → SortedSet → List Entry
kept window now set = keep_if (is_recent window now) (live_entries now set)

abbrev pub counted : ℕ → ℕ → List Entry → ℕ
counted window t = count_of (λ (e : Entry). in_window window t e.score)

module _ (window quota last : ℕ) (attempts : List Attempt) (set : SortedSet) where
  pub live_entries-All :
      (P : Entry → Type 0) (now : ℕ) → All P set.entries → All P (live_entries now set)
  unfolding live_entries
  live_entries-All P now h = go set.expires_at
    where
      go :
          (o : Option ℕ)
          → All P (elim o [ none ↦ set.entries | some at ↦ if leb at now then [] else set.entries ])
      go none = h
      go (some at) = pick (leb at now)
        where
          pick : (b : Bool) → All P (if b then [] else set.entries)
          pick true = tt
          pick false = h

  pub length-live_entries : (now : ℕ) → length (live_entries now set) ≤ length set.entries
  unfolding live_entries
  length-live_entries now = ground arith

  -- Entries whose time is over are in no window that ends now or later.
  pub stale :
      (t until : ℕ) (es : List Entry)
      → until ≤ t
      → last + window ≤ until
      → All (λ (e : Entry). e.score ≤ last) es
      → All (λ (e : Entry). in_window window t e.score ≡ false) es
  stale t until [] p q h = tt
  stale t until (e ∷ es) p q h = (ground arith, stale t until es p q h.1)

  pub counted-kept :
      (now t : ℕ)
      → now ≤ t
      → Holds window quota last attempts set
      → counted window t (kept window now set) ≡ counted window t set.entries
  unfolding is_recent live_entries
  counted-kept now t le h =
      count_of-keep_if _ (is_recent window now) (live_entries now set) (λ e old. ground arith)
      ∙ go set.expires_at refl
    where
      go :
          (o : Option ℕ)
          → set.expires_at ≡ o
          → counted window t
              (elim o [ none ↦ set.entries | some at ↦ if leb at now then [] else set.entries ])
            ≡ counted window t set.entries
      go none e = refl
      go (some until) e = elim (Bool-cases (leb until now)) [
        | inl over ↦ rw over (
            sym (
              count_of_none _ set.entries
                (stale t until set.entries (ground arith) (h.lasting until e) h.past)))
        | inr live ↦ rw live refl
      ]

-- The key after a request that is turned away, and after one that is let in.
abbrev pub full_set : ℕ → ℕ → SortedSet → SortedSet
full_set window now set = record {
  entries = kept window now set;
  expires_at = elim (kept window now set) [ [] ↦ none | _ ↦ some (now + window) ];
}

abbrev pub added_set : ℕ → Attempt → SortedSet → SortedSet
added_set window a set = record {
  entries = zadd (record { member = a.member; score = a.at }) (kept window a.at set);
  expires_at = some (a.at + window);
}

module _ (window quota last : ℕ) (a : Attempt) (attempts : List Attempt) (set : SortedSet) where
  pub kept-All : (P : Entry → Type 0) → All P set.entries → All P (kept window a.at set)
  kept-All P h =
      All-keep_if P (is_recent window a.at) (live_entries a.at set)
        (live_entries-All window quota last attempts set P a.at h)

  pub length-kept : length (kept window a.at set) ≤ length set.entries
  length-kept = omega (
    arith,
    length-keep_if (is_recent window a.at) (live_entries a.at set),
    length-live_entries window quota last attempts set a.at,
  )

  pub full_set-Holds :
      last ≤ a.at
      → Holds window quota last (a ∷ attempts) set
      → Holds window quota a.at attempts (full_set window a.at set)
  full_set-Holds le h = record {
    past = All-map _ _ (λ e k. omega arith) _ (kept-All _ h.past);
    lasting = λ until e. until_after (kept window a.at set) until e;
    few = omega (arith, length-kept, h.few);
    fresh = All-map _ _ (λ e k. k.1) _ (kept-All _ h.fresh);
  }
    where
      until_after :
          (es : List Entry) (until : ℕ)
          → elim es [ [] ↦ none | _ ↦ some (a.at + window) ] ≡ some until
          → a.at + window ≤ until
      until_after [] until e = cc
      until_after (x ∷ es) until e = omega (arith, some-injective _ _ e)

  -- The new member is not there yet.
  pub zadd-fresh :
      Holds window quota last (a ∷ attempts) set
      → zadd (record { member = a.member; score = a.at }) (kept window a.at set)
        ≡ insert_entry (record { member = a.member; score = a.at }) (kept window a.at set)
  unfolding zadd
  zadd-fresh h = ap (insert_entry _) (
      keep_if_whole _ (kept window a.at set)
        (All-map _ _ (λ e k. ap not k.0) _ (kept-All _ h.fresh)))

  pub added_set-Holds :
      last ≤ a.at
      → All (λ (b : Attempt). str_eq a.member b.member ≡ false) attempts
      → length (kept window a.at set) < quota
      → Holds window quota last (a ∷ attempts) set
      → Holds window quota a.at attempts (added_set window a set)
  added_set-Holds le differ room h =
      let new : Entry = record { member = a.member; score = a.at } in
      rw (zadd-fresh h) (record {
        past =
            All-insert_entry _ new _ (omega arith)
              (All-map _ _ (λ e k. omega arith) _ (kept-All _ h.past));
        lasting = λ until e. omega (arith, some-injective _ _ e);
        few = omega (arith, length-insert_entry new (kept window a.at set));
        fresh = All-insert_entry _ new _ differ (All-map _ _ (λ e k. k.1) _ (kept-All _ h.fresh));
      })

  pub counted-added :
      (t : ℕ)
      → Holds window quota last (a ∷ attempts) set
      → counted window t (added_set window a set).entries
        ≡ (if in_window window t a.at then 1 else 0) + counted window t (kept window a.at set)
  counted-added t h =
      ap (counted window t) (zadd-fresh h) ∙ count_of-insert_entry _ _ (kept window a.at set)
