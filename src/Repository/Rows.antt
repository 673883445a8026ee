-- ===== src/Repository/Rows.antt =====
-- The shapes of SQL statement that the repositories share.
use enterprise_rag.Prelude.{
  ℕ, zero, suc, Bool, true, false, Option, none, some, [], ◌∷◌, Text, codes,
}
use enterprise_rag.Exec.{Error, Result, ok, err, other, no_rows}

-- `column IS NULL`.
abbrev pub is_null {ℓ} : {A : Type ℓ} → Option A → Bool
is_null none = true
is_null (some a) = false

-- `sql.NullString{String: text, Valid: text != ""}`.
abbrev pub null_text : Text → Option Text
null_text [] = none
null_text (c ∷ text) = some (c ∷ text)

-- `if result.RowsAffected() == 0 { return e }`.
abbrev pub unless_none : ℕ → Error → Result (Unit {0})
unless_none zero e = err e
unless_none (suc n) e = ok tt

abbrev pub or_no_rows : {A : Type 0} → Option A → Result A
or_no_rows none = err no_rows
or_no_rows (some a) = ok a

abbrev pub duplicate_key : Error
duplicate_key = other (codes "duplicate key value violates unique constraint")
