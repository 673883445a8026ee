-- ===== src/Retrieval/Scores.antt =====
-- The scores of chunks. A `float64` is a value of a type with the operations that the code uses, so
-- nothing rests on how they round.
use enterprise_rag.Prelude.{ℕ, String, Bool, Text}
use enterprise_rag.Prelude.Int.{ℤ}

pub record Scores (S : Type 0) : Type 0 where
  -- `a < b`, `a <= b` and `a == b`.
  pub less : S → S → Bool
  pub at_most : S → S → Bool
  pub same : S → S → Bool
  pub plus : S → S → S
  pub minus : S → S → S
  pub times : S → S → S
  pub over : S → S → S
  -- `math.Max` and `math.Min`.
  pub greater : S → S → S
  pub smaller : S → S → S
  -- `float64(n)`, and the constant n/1000.
  pub of_int : ℕ → S
  pub thousandths : ℕ → S

-- What the code uses of Unicode and of the order in which Go goes through a map.
pub record Letters : Type 0 where
  pub lower : ℕ → ℕ
  pub is_letter_or_digit : ℕ → Bool
  pub is_han : ℕ → Bool
  pub is_punct : ℕ → Bool
  -- `strings.EqualFold`.
  pub equal_fold : Text → Text → Bool

pub data Source : Type 0 where
  vector keyword hybrid : Source

pub record RetrievalChunk (S : Type 0) : Type 0 where
  pub id : String
  pub evidence_id : String
  pub tenant_id : String
  pub doc_id : String
  pub doc_name : String
  pub subject_id : String
  pub user_id : String
  pub chunk_index : ℤ
  pub page : ℤ
  pub section : Text
  pub content : Text
  pub document_version : ℕ
  pub content_hash : String
  pub score : S
  pub raw_score : S
  pub source : Source
