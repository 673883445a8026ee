-- ===== src/Retrieval/Plan.antt =====
-- api/internal/service/retrieval/query_plan.go: the queries that a question is split into.
pub mod Bounds
use enterprise_rag.Prelude.{
  ℕ, zero, suc, ◌-◌, ◌*◌, ◌/◌, Bool, true, false, ◌||◌, List, [], ◌∷◌, ◌++◌, Text, codes, ◌==◌, leb,
  ltb, length, take, drop, get_elem?, Option, none, some, if◌then◌else◌,
}
use enterprise_rag.Prelude.Int.{ℤ, int_ltb, to_ℕ}
use enterprise_rag.Runes.{is_space, trim_space, text_eq, has_prefix, contains, fields_func, join}
use enterprise_rag.Retrieval.Scores.{Letters}

pub record QueryPlan : Type 0 where
  pub original : Text
  pub queries : List Text

-- `strings.Join(strings.Fields(s), " ")`.
unfoldable pub squeeze : Text → Text
squeeze s = join (fields_func is_space s) (codes " ")

-- `if n < 1 { n = default }`.
abbrev pub at_least_one : ℤ → ℕ → ℕ
at_least_one n default = if int_ltb n 1 then default else to_ℕ n

-- '?', '？', ';', '；', '\n'.
unfoldable pub ends_question : ℕ → Bool
ends_question c = c == b'?' || (c == 0xff1f || (c == b';' || (c == 0xff1b || c == 10)))

-- '。', '！', '!' besides.
unfoldable pub ends_long : ℕ → Bool
unfolding ends_question
ends_long c = c == 0x3002 || (c == 0xff01 || (c == b'!' || ends_question c))

unfoldable pub split_long_question : Text → List Text
unfolding ends_long
split_long_question query = elim (fields_func ends_long query) [
  | [] ↦ query ∷ []
  | p ∷ parts ↦ p ∷ parts
]

-- `strings.Split` at a separator that is not empty: `part` is what has been read of a part, and
-- `skip` runes of a separator are still to be passed over.
unfoldable pub split_from : Text → Text → ℕ → Text → List Text
split_from separator part skip [] = part ∷ []
split_from separator part (suc skip) (c ∷ s) = split_from separator part skip s
split_from separator part zero (c ∷ s) =
    let next = split_from separator [] (length separator - 1) s in
    let more = split_from separator (part ++ c ∷ []) zero s in
    if has_prefix (c ∷ s) separator then part ∷ next else more

unfoldable pub split_at : Text → Text → List Text
unfolding split_from
split_at separator s = split_from separator [] zero s

abbrev separators : List Text
separators = codes "另外" ∷ codes "同时" ∷ codes "以及" ∷ codes "并且" ∷ codes "还想知道" ∷ []

-- The first separator that the query contains.
unfoldable pub split_by : List Text → Text → List Text → List Text
unfolding split_at
split_by [] query parts = parts
split_by (separator ∷ rest) query parts =
    let more = split_by rest query parts in
    if contains query separator then split_at separator query else more

unfoldable pub split_question : Text → List Text
unfolding ends_question split_by
split_question query =
    let parts = fields_func ends_question query in
    if length parts == 1 then split_by separators query parts else parts

abbrev stops_at : Letters → Option ℕ → Bool
stops_at l none = false
stops_at l (some c) = l.is_punct c || is_space c

-- The loop of `compactQuery`: `rounds` is how far `index` stands above three quarters.
unfoldable pub cut_back : Letters → Text → ℕ → ℕ → ℕ → ℕ
cut_back l runes zero index max_runes = max_runes
cut_back l runes (suc rounds) index max_runes =
    let rest = cut_back l runes rounds (index - 1) max_runes in
    if stops_at l (get_elem? runes (index - 1)) then index else rest

unfoldable pub compact_query : Letters → Text → ℕ → Text
unfolding squeeze cut_back
compact_query l query max_runes =
    let runes = squeeze query in
    let rounds = max_runes - max_runes * 3 / 4 in
    if leb (length runes) max_runes
    then runes
    else trim_space (take (cut_back l runes rounds max_runes max_runes) runes)

abbrev pub known : Letters → List Text → Text → Bool
known l [] query = false
known l (x ∷ queries) query = l.equal_fold x query || known l queries query

abbrev pub append_new : Letters → List Text → Text → List Text
append_new l queries [] = queries
append_new l queries (c ∷ query) =
    if known l queries (c ∷ query) then queries else queries ++ (c ∷ query) ∷ []

unfoldable pub append_unique_query : Letters → List Text → Text → List Text
append_unique_query l queries query = append_new l queries (trim_space query)

-- The loop over the parts. The bound is looked at after a part is added.
unfoldable pub add_parts : Letters → ℕ → ℕ → List Text → List Text → List Text
unfolding append_unique_query compact_query
add_parts l max_runes max_sub [] queries = queries
add_parts l max_runes max_sub (part ∷ parts) queries =
    let added = append_unique_query l queries (compact_query l part max_runes) in
    let rest = add_parts l max_runes max_sub parts added in
    if leb max_sub (length added) then added else rest

unfoldable pub question_parts : Text → ℕ → List Text
unfolding split_question split_long_question
question_parts original max_runes =
    let parts = split_question original in
    if ltb max_runes (length original)
    then if length parts == 1 then split_long_question original else parts
    else parts

abbrev pub or_original : Text → List Text → List Text
or_original original [] = original ∷ []
or_original original (q ∷ queries) = q ∷ queries

unfoldable pub build_query_plan : Letters → Text → Text → ℤ → ℤ → QueryPlan
unfolding squeeze add_parts question_parts
build_query_plan l original rewritten max_runes max_sub_queries =
    let runes = at_least_one max_runes 500 in
    let subs = at_least_one max_sub_queries 4 in
    let question = squeeze original in
    let first = append_unique_query l [] (compact_query l rewritten runes) in
    record {
      original = question;
      queries = or_original question (add_parts l runes subs (question_parts question runes) first);
    }
