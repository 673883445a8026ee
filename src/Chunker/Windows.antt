-- ===== src/Chunker/Windows.antt =====
-- The windows that chunks are cut from, and the loop that cuts them.
use Prim.Native.Nat.{min, max}
use enterprise_rag.Prelude.{
  ℕ, zero, suc, ◌+◌, ◌-◌, ◌≤◌, ◌<◌, true, false, Option, some, List, [], ◌∷◌, Text, ◌≡◌, ◌≢◌, refl,
  ap, ◌∙◌, arith, length, Bool-cases, inl, inr, ltb, leb,
}
use enterprise_rag.Runes.{trim_space}
use enterprise_rag.Chunker.{
  ChunkingConf, ChunkShape, normalize_config, scan_back, find_boundary, slice, chunk_end,
  next_start, add_content, add_first, split_from, split_segment,
}

-- What the loops need of a shape.
pub record IsValid (s : ChunkShape) : Type 0 where
  pub size_pos : 0 < s.size
  pub overlap-lt : s.overlap < s.size
  pub min_size_pos : 0 < s.min_size
  pub min_size-lt : s.min_size < s.size
  pub lookback-lt : s.lookback < s.size

-- Whatever the configuration holds, negative numbers included, the normalised sizes fit: the size
-- is at least 200, the overlap, the least size and the lookback are below it, and the least size
-- is positive.
pub normalize_config-IsValid :
    (c : ChunkingConf) → IsValid (normalize_config c) × (200 ≤ (normalize_config c).size)
unfolding normalize_config
normalize_config-IsValid c = ground arith

scan_back_bounds :
    (runes : Text) (rounds index end lower : ℕ)
    → index ≡ lower + rounds
    → lower < end
    → index ≤ end
    → (lower < scan_back runes rounds index end) × (scan_back runes rounds index end ≤ end)
unfolding scan_back
scan_back_bounds runes zero index end lower e l h = (l, omega arith)
scan_back_bounds runes (suc rounds) index end lower e l h =
    ground
      (arith, scan_back_bounds runes rounds (index - 1) end lower (omega arith) l (omega arith))

find_boundary_bounds :
    (runes : Text) (start end lookback min_size : ℕ)
    → start < end
    → (start < find_boundary runes start end lookback min_size)
      × (find_boundary runes start end lookback min_size ≤ end)
unfolding find_boundary
find_boundary_bounds runes start end lookback min_size h =
    split (max (start + min_size) (end - lookback)) (omega arith)
  where
    split :
        (lower : ℕ)
        → start ≤ lower
        → (start < scan_back runes (end - lower) end end)
          × (scan_back runes (end - lower) end end ≤ end)
    split lower l = elim (Bool-cases (ltb lower end)) [
      | inl below ↦
          let below' : lower < end = ground arith in
          let found =
            scan_back_bounds runes (end - lower) end end lower (omega arith) below' (omega arith) in
          (omega (arith, found.0), found.1)
      | inr above ↦
          let none_left : end - lower ≡ 0 = ground arith in
          rw none_left (unfold scan_back in (h, omega arith))
    ]

-- A chunk begun inside the text goes forward, by at most the size, and not past the end.
pub chunk_end_bounds :
    (s : ChunkShape) (runes : Text) (start : ℕ)
    → IsValid s
    → start < length runes
    → (start < chunk_end s runes start)
      × (chunk_end s runes start ≤ start + s.size)
      × (chunk_end s runes start ≤ length runes)
unfolding chunk_end
chunk_end_bounds s runes start v h =
    let cut = min (start + s.size) (length runes) in
    let pos = v.size_pos in
    let found = find_boundary_bounds runes start cut s.lookback s.min_size (omega arith) in
    ground (arith, found)

next_start_bounds :
    (start end overlap : ℕ)
    → start < end
    → (start < next_start start end overlap)
      × (next_start start end overlap ≤ end)
      × (end ≤ next_start start end overlap + overlap)
unfolding next_start
next_start_bounds start end overlap h = ground arith

-- A window of the text: its first rune, and the first behind it.
abbrev pub Window : Type 0
Window = ℕ × ℕ

-- `ws` covers the text from `start` to `len`: the first window begins at `start`, each next one
-- begins behind the start of the one before it and not behind its end, by at most the overlap
-- before it, none is wider than the size, and the last ends at `len`.
abbrev pub Covers : ChunkShape → ℕ → ℕ → List Window → Type 0
Covers s len start [] = ⊥
Covers s len start ((a, b) ∷ []) = (a ≡ start) × (a < b) × (b ≤ a + s.size) × (b ≡ len)
Covers s len start ((a, b) ∷ w ∷ ws) =
    (a ≡ start)
    × (a < b)
    × (b ≤ a + s.size)
    × (b < len)
    × (a < w.0)
    × (w.0 ≤ b)
    × (b ≤ w.0 + s.overlap)
    × Covers s len w.0 (w ∷ ws)

-- The trimmed texts of the windows, the blank ones left out.
abbrev pub contents : Text → List Window → List Text
contents runes [] = []
contents runes ((a, b) ∷ ws) = add_content (trim_space (slice runes a b)) (contents runes ws)

-- The windows that a run of the loop cuts.
pub record Cut (s : ChunkShape) (runes : Text) (start : ℕ) (r : Option (List Text)) : Type 0 where
  pub windows : List Window
  pub covers : Covers s (length runes) start windows
  pub result : r ≡ some (contents runes windows)

extend-Covers :
    (s : ChunkShape) (len start end next : ℕ) (ws : List Window)
    → start < end
    → end ≤ start + s.size
    → end < len
    → start < next
    → next ≤ end
    → end ≤ next + s.overlap
    → Covers s len next ws
    → Covers s len start ((start, end) ∷ ws)
extend-Covers s len start end next [] a b c d e f h = absurd h
extend-Covers s len start end next (w ∷ ws) a b c d e f h =
    let at : w.0 ≡ next = first s len next w ws h in
    (refl, a, b, c, omega arith, omega arith, omega arith, rw at h)
  where
    first :
        (s : ChunkShape) (len next : ℕ) (w : Window) (ws : List Window)
        → Covers s len next (w ∷ ws)
        → w.0 ≡ next
    first s len next w [] h = h.0
    first s len next w (v ∷ ws) h = h.0

round_last :
    (fuel : ℕ) (s : ChunkShape) (runes : Text) (start : ℕ)
    → start < length runes
    → leb (length runes) (chunk_end s runes start) ≡ true
    → split_from (suc fuel) s runes start
      ≡ some (contents runes ((start, chunk_end s runes start) ∷ []))
unfolding split_from
round_last fuel s runes start h last =
    let inside_text : leb (length runes) start ≡ false = ground arith in rw (inside_text, last)

round_more :
    (fuel : ℕ) (s : ChunkShape) (runes : Text) (start : ℕ)
    → start < length runes
    → leb (length runes) (chunk_end s runes start) ≡ false
    → split_from (suc fuel) s runes start
      ≡ add_first
          (trim_space (slice runes start (chunk_end s runes start)))
          (split_from fuel s runes (next_start start (chunk_end s runes start) s.overlap))
unfolding split_from
round_more fuel s runes start h more =
    let inside_text : leb (length runes) start ≡ false = ground arith in rw (inside_text, more)

loop-Cut :
    (fuel : ℕ) (s : ChunkShape) (runes : Text) (start : ℕ)
    → IsValid s
    → start < length runes
    → length runes - start < fuel
    → Cut s runes start (split_from fuel s runes start)
loop-Cut zero s runes start v h f = absurd (omega arith)
loop-Cut (suc fuel) s runes start v h f =
    let end = chunk_end s runes start in
    let bounds = chunk_end_bounds s runes start v h in
    let next = next_start start end s.overlap in
    let steps = next_start_bounds start end s.overlap bounds.0 in
    elim (Bool-cases (leb (length runes) end)) [
      | inl last ↦ record {
        windows = (start, end) ∷ [];
        covers = (refl, bounds.0, bounds.1, ground arith);
        result = round_last fuel s runes start h last;
      }
      | inr more ↦
          let before : end < length runes = ground arith in
          let tail = loop-Cut fuel s runes next v (omega arith) (omega arith) in
          record {
            windows = (start, end) ∷ tail.windows;
            covers =
                extend-Covers s (length runes) start end next tail.windows bounds.0 bounds.1 before
                  steps.0 steps.1 steps.2 tail.covers;
            result =
                round_more fuel s runes start h more
                ∙ ap (add_first (trim_space (slice runes start end))) tail.result;
          }
    ]

-- Any text that is not blank is cut: the loop ends, and the chunks are the trimmed texts of
-- windows that cover the trimmed text, overlap by at most the overlap and are at most as wide as
-- the size, the blank ones left out.
pub split_segment-Cut :
    (s : ChunkShape) (text : Text)
    → IsValid s
    → trim_space text ≢ []
    → Cut s (trim_space text) 0 (split_segment s text)
unfolding split_segment
split_segment-Cut s text v h =
    loop-Cut (suc (length (trim_space text))) s (trim_space text) 0 v (pos (trim_space text) h)
      (omega arith)
  where
    pos : (t : Text) → t ≢ [] → 0 < length t
    pos [] h = absurd (h refl)
    pos (c ∷ t) h = omega arith
