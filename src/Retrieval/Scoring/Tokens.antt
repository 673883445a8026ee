-- ===== src/Retrieval/Scoring/Tokens.antt =====
-- The tokens of a query.
use enterprise_rag.Prelude.{
  ◌≤◌, not, List, [], ◌∷◌, All, All-append, Text, inl, inr, arith, ltb, leb, length, Bool-cases,
}
use enterprise_rag.Runes.{fields_func}
use enterprise_rag.Retrieval.Scores.{Letters}
use enterprise_rag.Retrieval.Scoring.{
  pairs, contains_han, append_token, append_tokens, normalize_text, keyword_tokens,
}

-- A token has two runes at least.
abbrev pub Long : Text → Type 0
Long token = 2 ≤ length token

pairs-Long : (token : Text) → All Long (pairs token)
unfolding pairs
pairs-Long [] = tt
pairs-Long (c ∷ []) = tt
pairs-Long (c ∷ d ∷ s) = (omega arith, pairs-Long (d ∷ s))

append_token-Long :
    (l : Letters) (tokens : List Text) (token : Text)
    → All Long tokens
    → All Long (append_token l tokens token)
unfolding append_token
append_token-Long l tokens token h = elim (Bool-cases (ltb (length token) 2)) [
  | inl short ↦ rw short h
  | inr long ↦
      let two : Long token = ground arith in
      rw long (elim (Bool-cases (contains_han l token)) [
        | inl han ↦ rw han (
            All-append Long tokens _ h (
              All-append Long (pairs token) _ (pairs-Long token)
                (elim (Bool-cases (leb (length token) 12)) [
                  | inl whole ↦ rw whole (two, tt)
                  | inr parts ↦ rw parts tt
                ])))
        | inr other ↦ rw other (All-append Long tokens (token ∷ []) h (two, tt))
      ])
]

append_tokens-Long :
    (l : Letters) (tokens rest : List Text)
    → All Long tokens
    → All Long (append_tokens l tokens rest)
unfolding append_tokens
append_tokens-Long l tokens [] h = h
append_tokens-Long l tokens (token ∷ rest) h =
    append_tokens-Long l (append_token l tokens token) rest (append_token-Long l tokens token h)

-- Every token of a query has two runes at least.
pub keyword_tokens-Long : (l : Letters) (text : Text) → All Long (keyword_tokens l text)
unfolding keyword_tokens
keyword_tokens-Long l text =
    append_tokens-Long l []
      (fields_func (λ c. not (l.is_letter_or_digit c)) (normalize_text l text)) tt
