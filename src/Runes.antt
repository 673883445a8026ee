-- ===== src/Runes.antt =====
-- What the code uses of Go's `strings` and `unicode`, over texts as lists of runes.
use Prim.Native.Char.{Char, code}
use enterprise_rag.Prelude.{
  String, ℕ, zero, suc, ◌+◌, ◌≤◌, length, ◌/◌, ◌%◌, ◌<◌, ◌≡◌, refl, ap, arith, ltb, Bool-cases, inl,
  inr, Bool, true, false, ◌&&◌, ◌||◌, List, [], ◌∷◌, ◌++◌, Text, ◌==◌, leb, if◌then◌else◌,
}

-- `unicode.IsSpace`: the white space of Unicode.
unfoldable pub is_space : ℕ → Bool
is_space c =
    (leb 9 c && leb c 13)
    || (c == 32
        || (c == 0x85
            || (c == 0xa0
                || (c == 0x1680
                    || ((leb 0x2000 c && leb c 0x200a)
                        || (c == 0x2028
                            || (c == 0x2029 || (c == 0x202f || (c == 0x205f || c == 0x3000)))))))))

-- The text behind its leading white space.
unfoldable pub trim_left : Text → Text
trim_left [] = []
trim_left (c ∷ s) = let rest = trim_left s in if is_space c then rest else c ∷ s

-- A rune before a text that is trimmed on the right.
abbrev keep_unless_blank : ℕ → Text → Text
keep_unless_blank c [] = if is_space c then [] else c ∷ []
keep_unless_blank c (d ∷ r) = c ∷ d ∷ r

-- The text before its trailing white space.
unfoldable pub trim_right : Text → Text
trim_right [] = []
trim_right (c ∷ s) = keep_unless_blank c (trim_right s)

-- `strings.TrimSpace`.
unfoldable pub trim_space : Text → Text
unfolding trim_left trim_right
trim_space s = trim_right (trim_left s)

-- The same of an id.
abbrev trim_left_id : String → String
trim_left_id String.[] = String.[]
trim_left_id (String.◌∷◌ c s) =
    let rest = trim_left_id s in if is_space (code c) then rest else String.◌∷◌ c s

abbrev keep_unless_blank_id : Char → String → String
keep_unless_blank_id c String.[] = if is_space (code c) then String.[] else String.◌∷◌ c String.[]
keep_unless_blank_id c (String.◌∷◌ d r) = String.◌∷◌ c (String.◌∷◌ d r)

abbrev trim_right_id : String → String
trim_right_id String.[] = String.[]
trim_right_id (String.◌∷◌ c s) = keep_unless_blank_id c (trim_right_id s)

unfoldable pub trim_id : String → String
trim_id s = trim_right_id (trim_left_id s)

length-trim_left : (s : Text) → length (trim_left s) ≤ length s
unfolding trim_left
length-trim_left [] = omega arith
length-trim_left (c ∷ s) = ground (arith, length-trim_left s)

length-trim_right : (s : Text) → length (trim_right s) ≤ length s
unfolding trim_right
length-trim_right [] = omega arith
length-trim_right (c ∷ s) = ground (arith, length-trim_right s)

pub length-trim_space : (s : Text) → length (trim_space s) ≤ length s
unfolding trim_space
length-trim_space s = omega (arith, length-trim_right (trim_left s), length-trim_left s)

unfoldable pub text_eq : Text → Text → Bool
text_eq [] [] = true
text_eq (c ∷ s) (d ∷ t) = c == d && text_eq s t
text_eq _ _ = false

unfoldable pub has_prefix : Text → Text → Bool
has_prefix s [] = true
has_prefix [] (p ∷ ps) = false
has_prefix (c ∷ s) (p ∷ ps) = c == p && has_prefix s ps

unfoldable pub contains : Text → Text → Bool
unfolding has_prefix
contains [] p = has_prefix [] p
contains (c ∷ s) p = has_prefix (c ∷ s) p || contains s p

-- `strings.FieldsFunc`: the runs of runes that do not separate. `run` is the run that is read.
unfoldable pub fields_from : (ℕ → Bool) → Text → Text → List Text
fields_from separates [] [] = []
fields_from separates (r ∷ run) [] = (r ∷ run) ∷ []
fields_from separates [] (c ∷ s) = fields_from separates (if separates c then [] else c ∷ []) s
fields_from separates (r ∷ run) (c ∷ s) =
    let stop = fields_from separates [] s in
    let go = fields_from separates ((r ∷ run) ++ c ∷ []) s in
    if separates c then (r ∷ run) ∷ stop else go

unfoldable pub fields_func : (ℕ → Bool) → Text → List Text
unfolding fields_from
fields_func separates s = fields_from separates [] s

-- `strings.Join`.
unfoldable pub join : List Text → Text → Text
join [] separator = []
join (s ∷ []) separator = s
join (s ∷ t ∷ rest) separator = s ++ (separator ++ join (t ∷ rest) separator)

-- The decimal digits of `n`, in at most `rounds` rounds.
abbrev digits : ℕ → ℕ → Text
digits zero n = []
digits (suc rounds) n =
    let rest = digits rounds (n / 10) in (if ltb n 10 then [] else rest) ++ (48 + n % 10) ∷ []

-- `%d`. Each round but the last makes the number smaller, so one round more than it is enough.
unfoldable pub decimal : ℕ → Text
decimal n = digits (suc n) n

digits-suc : (rounds n : ℕ) → n < rounds → digits (suc rounds) n ≡ digits rounds n
digits-suc zero n h = absurd (omega arith)
digits-suc (suc rounds) n h = elim (Bool-cases (ltb n 10)) [
  | inl small ↦ rw small refl
  | inr large ↦
      let tail : digits (suc rounds) (n / 10) ≡ digits rounds (n / 10) =
        digits-suc rounds (n / 10) (ground arith) in
      ap (λ r. (if ltb n 10 then [] else r) ++ (48 + n % 10) ∷ []) tail
]
