-- ===== src/Ratelimit/Window.antt =====
-- The sliding window of the limiter: how many requests of a key are let in.
use enterprise_rag.Prelude.{
  ℕ, ◌+◌, ◌*◌, ◌≤◌, ◌<◌, String, true, false, Option, none, some, List, [], ◌∷◌, ◌≡◌, refl, ap,
  arith, ltb, leb, length, count_of, keep_if, Bool-cases, length-keep_if, count_of_le, inl, inr,
}
use enterprise_rag.Prelude.Int.{ℤ}
use enterprise_rag.Ratelimit.{
  Entry, SortedSet, live_entries, is_recent, is_full, retry_after, sliding_window,
}
use enterprise_rag.Ratelimit.Requests.{
  Attempt, let_in, admitted, in_window, InOrder, Holds, kept, counted, length-live_entries,
  counted-kept, full_set, added_set, length-kept, full_set-Holds, added_set-Holds, counted-added,
}

-- Requests that come after `t` are not in the window that ends at `t`.
admitted_later :
    (window quota t last : ℕ) (attempts : List Attempt) (set : SortedSet)
    → t < last
    → InOrder last attempts
    → count_of (in_window window t) (admitted window quota attempts set) ≡ 0
admitted_later window quota t last [] set p h = refl
admitted_later window quota t last (a ∷ attempts) set p h =
    let answer = sliding_window window (ℤ.pos quota) a.member a.at set in
    let rest = admitted_later window quota t a.at attempts answer.1 (omega (arith, h.0)) h.2 in
    elim (Bool-cases (let_in answer)) [
      | inl yes' ↦ rw yes' (ground (arith, h.0, rest))
      | inr no' ↦ rw no' rest
    ]

window_full :
    (window quota : ℕ) (a : Attempt) (set : SortedSet)
    → leb quota (length (kept window a.at set)) ≡ true
    → sliding_window window (ℤ.pos quota) a.member a.at set
      ≡ ((0, retry_after window a.at (kept window a.at set)), full_set window a.at set)
unfolding sliding_window is_full
window_full window quota a set h = rw h refl

window_room :
    (window quota : ℕ) (a : Attempt) (set : SortedSet)
    → leb quota (length (kept window a.at set)) ≡ false
    → sliding_window window (ℤ.pos quota) a.member a.at set ≡ ((1, 0), added_set window a set)
unfolding sliding_window is_full
window_room window quota a set h = rw h refl

admitted_bound :
    (window quota t last : ℕ) (attempts : List Attempt) (set : SortedSet)
    → InOrder last attempts
    → Holds window quota last attempts set
    → count_of (in_window window t) (admitted window quota attempts set)
        + counted window t set.entries
      ≤ quota
admitted_bound window quota t last [] set o h =
    omega (arith, count_of_le (λ (e : Entry). in_window window t e.score) set.entries, h.few)
admitted_bound window quota t last (a ∷ attempts) set o h = elim (Bool-cases (ltb t a.at)) [
  | inl early ↦
      let none_yet =
        admitted_later window quota t a.at (a ∷ attempts) set (ground arith)
          (omega arith, o.1, o.2) in
      omega (
        arith,
        none_yet,
        count_of_le (λ (e : Entry). in_window window t e.score) set.entries,
        h.few,
      )
  | inr due ↦
      let le : a.at ≤ t = ground arith in
      let same = counted-kept window quota last (a ∷ attempts) set a.at t le h in
      elim (Bool-cases (leb quota (length (kept window a.at set)))) [
        | inl full ↦
            let after = full_set-Holds window quota last a attempts set o.0 h in
            let rest =
              admitted_bound window quota t a.at attempts (full_set window a.at set) o.2 after in
            rw (window_full window quota a set full) (omega (arith, rest, same))
        | inr room ↦
            let after = added_set-Holds window quota last a attempts set o.0 o.1 (ground arith) h in
            let rest =
              admitted_bound window quota t a.at attempts (added_set window a set) o.2 after in
            let one = counted-added window quota last a attempts set t h in
            rw (window_room window quota a set room) (omega (arith, rest, same, one))
      ]
]

-- Whatever requests of a key come, in the order of time and each with a member of its own, from an
-- empty key on: at every time, at most as many as the quota were let in during the window that
-- ends then.
pub admitted-quota :
    (window quota t : ℕ) (attempts : List Attempt)
    → InOrder 0 attempts
    → count_of
        (in_window window t)
        (admitted window quota attempts (record { entries = []; expires_at = none }))
      ≤ quota
admitted-quota window quota t attempts o =
    let empty : SortedSet = record { entries = []; expires_at = none } in
    let start : Holds window quota 0 attempts empty = record {
      past = tt;
      lasting = λ until e. cc;
      few = omega arith;
      fresh = tt;
    } in
    omega (arith, admitted_bound window quota t 0 attempts empty o start)

later_room :
    (window quota now later : ℕ) (o : Option ℕ) (es : List Entry)
    → 0 < quota
    → length es ≤ quota
    → later ≡ now + retry_after window now es * 1000
    → length (
        keep_if
          (is_recent window later)
          (live_entries later (record { entries = es; expires_at = o })))
      < quota
unfolding retry_after is_recent live_entries
later_room window quota now later o [] p few e = omega (
  arith,
  length-keep_if (is_recent window later)
      (live_entries later (record { entries = []; expires_at = o })),
  length-live_entries window quota now [] (record { entries = []; expires_at = o }) later,
)
later_room window quota now later none (x ∷ es) p few e =
    ground (arith, length-keep_if (is_recent window later) es)
later_room window quota now later (some at) (x ∷ es) p few e =
    ground (arith, length-keep_if (is_recent window later) es)

-- A request that is turned away is let in when it comes again after the seconds that it is told,
-- if no other request of the key comes meanwhile.
pub sliding_window-retry :
    (window quota now : ℕ) (member again : String) (set : SortedSet)
    → 0 < quota
    → length set.entries ≤ quota
    → (sliding_window window (ℤ.pos quota) member now set).0.0 ≡ 0
    → let first = sliding_window window (ℤ.pos quota) member now set in
      (sliding_window window (ℤ.pos quota) again (now + first.0.1 * 1000) first.1).0 ≡ (1, 0)
sliding_window-retry window quota now member again set p few away =
    let a : Attempt = record { at = now; member = member } in
    elim (Bool-cases (leb quota (length (kept window now set)))) [
      | inl full ↦
          let later = now + retry_after window now (kept window now set) * 1000 in
          let room =
            later_room window quota now later (full_set window now set).expires_at
              (kept window now set) p (omega (arith, length-kept window quota 0 a [] set)) refl in
          let b : Attempt = record { at = later; member = again } in
          rw (window_full window quota a set full) (
            ap (λ (x : (ℕ × ℕ) × SortedSet). x.0)
              (window_room window quota b (full_set window now set) (ground arith)))
      | inr room ↦
          absurd (
            cc
              (away, ap (λ (x : (ℕ × ℕ) × SortedSet). x.0.0) (window_room window quota a set room)))
    ]
