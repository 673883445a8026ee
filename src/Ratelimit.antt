-- ===== src/Ratelimit.antt =====
-- api/internal/infrastructure/ratelimit/limiter.go: the limiter of requests, and the script that
-- Redis runs for it.
--
-- Times are in milliseconds. A sorted set is the list of its entries by score; how entries of the
-- same score stand does not show. Redis answers a call, or the call fails.
pub mod Requests
pub mod Window
use Prim.Native.Nat.{max}
use Prim.Native.String.{◌++◌ as append}
use enterprise_rag.Prelude.{
  ℕ, zero, suc, ◌+◌, ◌-◌, ◌*◌, ◌/◌, String, Bool, true, false, ◌||◌, not, Option, none, some, List,
  [], ◌∷◌, ◌++◌, Text, codes, ltb, leb, str_eq, length, keep_if, if◌then◌else◌,
}
use enterprise_rag.Prelude.Int.{ℤ}
use enterprise_rag.Exec.{Error, Result, ok, err, wrapped}

pub record Entry : Type 0 where
  pub member : String
  pub score : ℕ

-- A key of Redis.
pub record SortedSet : Type 0 where
  pub entries : List Entry
  pub expires_at : Option ℕ

-- A key whose time is over is gone.
unfoldable pub live_entries : ℕ → SortedSet → List Entry
live_entries now set = elim set.expires_at [
  | none ↦ set.entries
  | some at ↦ if leb at now then [] else set.entries
]

-- An entry that `ZREMRANGEBYSCORE key 0 now-window` leaves: the score is above `now - window`.
unfoldable pub is_recent : ℕ → ℕ → Entry → Bool
is_recent window now e = ltb now (e.score + window)

unfoldable pub insert_entry : Entry → List Entry → List Entry
insert_entry e [] = e ∷ []
insert_entry e (x ∷ xs) =
    let later = insert_entry e xs in if leb x.score e.score then x ∷ later else e ∷ x ∷ xs

-- `ZADD`: a member that is there already gets the new score.
unfoldable pub zadd : Entry → List Entry → List Entry
unfolding insert_entry
zadd e entries = insert_entry e (keep_if (λ x. not (str_eq x.member e.member)) entries)

-- `count >= quota`.
unfoldable pub is_full : ℤ → ℕ → Bool
is_full (ℤ.pos quota) count = leb quota count
is_full (ℤ.negsuc n) count = true

-- `math.max(1, math.ceil((oldest + window - now) / 1000))`.
unfoldable pub retry_after : ℕ → ℕ → List Entry → ℕ
retry_after window now [] = 1
retry_after window now (oldest ∷ rest) = max 1 ((oldest.score + window - now + 999) / 1000)

-- The script: whether the request is let in, after how many seconds to try again, and the key.
unfoldable pub sliding_window : ℕ → ℤ → String → ℕ → SortedSet → (ℕ × ℕ) × SortedSet
unfolding live_entries is_recent zadd is_full retry_after
sliding_window window quota member now set =
    let entries = keep_if (is_recent window now) (live_entries now set) in
    let added = zadd (record { member = member; score = now }) entries in
    if is_full quota (length entries)
    then (
      (0, retry_after window now entries),
      record {
        entries = entries;
        expires_at = elim entries [ [] ↦ none | _ ↦ some (now + window) ];
      },
    )
    else ((1, 0), record { entries = added; expires_at = some (now + window) })

pub record RateLimitConf : Type 0 where
  pub period_seconds : ℕ
  pub chat_quota : ℤ
  pub retrieval_quota : ℤ
  pub upload_quota : ℤ

pub record Decision : Type 0 where
  pub allowed : Bool
  pub retry_after : ℕ

-- The scope and the quota of a path.
unfoldable pub policy : RateLimitConf → String → Option (String × ℤ)
policy conf path =
    if str_eq path "/api/chat/ask"
      || (str_eq path "/api/chat/stream" || str_eq path "/api/chat/runs/resume")
    then some ("chat", conf.chat_quota)
    else if str_eq path "/api/retrieval/search"
    then some ("retrieval", conf.retrieval_quota)
    else if str_eq path "/api/documents/upload"
    then some ("upload", conf.upload_quota)
    else none

-- The keys of Redis.
abbrev pub Keys : Type 0
Keys = String → SortedSet

abbrev put : String → SortedSet → Keys → Keys
put key set keys k = if str_eq k key then set else keys k

unfoldable pub decision : ℕ × ℕ → Decision
decision (allowed, retry) = record {
  allowed = elim allowed [ zero ↦ false | suc zero ↦ true | suc (suc n) ↦ false ];
  retry_after = max retry 1;
}

-- `Allow`. `call` says whether Redis answers, and `member` is the new UUID.
unfoldable pub allow :
    RateLimitConf → Result (Unit {0}) → String → String → String → ℕ → Keys → Result Decision × Keys
unfolding policy sliding_window decision
allow conf call member user_id path now keys = elim (policy conf path) [
  | none ↦ (ok (record { allowed = true; retry_after = 0 }), keys)
  | some (scope, quota) ↦ elim call [
    | err e ↦ (wrapped (codes "run redis rate limiter: ") (err e), keys)
    | ok u ↦
        let key = append "enterprise-rag:rate:" (append scope (append ":" user_id)) in
        let (answer, set) =
          sliding_window (conf.period_seconds * 1000) quota member now (keys key) in
        (ok (decision answer), put key set keys)
  ]
]
