-- ===== src/Chunker/Build.antt =====
-- The chunks of a whole document: their number, their sizes and their indexes.
use enterprise_rag.Prelude.{
  ℕ, ◌+◌, ◌-◌, ◌≤◌, ◌<◌, some, List, [], ◌∷◌, ◌++◌, Text, ◌≡◌, ◌≢◌, refl, ap, ◌∙◌, arith, length,
  All, All-append, length-take, drop,
}
use enterprise_rag.Runes.{length-trim_space, trim_space}
use enterprise_rag.Store.{Document, DocumentChunk}
use enterprise_rag.Exec.{Result, ok, err}
use enterprise_rag.Chunker.{
  ChunkingConf, ChunkShape, Hashing, ParseSegment, normalize_config, slice, add_content, split_from,
  split_segment, make_chunk, add_contents, add_segments, or_plain, or_empty, build,
}
use mathlib.Core.List.{cons-ne-nil}
use enterprise_rag.Chunker.Windows.{
  IsValid, normalize_config-IsValid, Window, Covers, contents, split_segment-Cut,
}

-- A chunk's text is not empty, and at most as long as the size.
abbrev Fits : ChunkShape → Text → Type 0
Fits s t = (0 < length t) × (length t ≤ s.size)

add_content-All :
    (s : ChunkShape) (t : Text) (rest : List Text)
    → length t ≤ s.size
    → All (Fits s) rest
    → All (Fits s) (add_content t rest)
add_content-All s [] rest h hs = hs
add_content-All s (c ∷ t) rest h hs = ((omega arith, h), hs)

length-slice : (runes : Text) (a b : ℕ) → length (slice runes a b) ≤ b - a
unfolding slice
length-slice runes a b = omega (arith, length-take (b - a) (drop a runes))

content-Fits :
    (s : ChunkShape) (runes : Text) (a b : ℕ)
    → b ≤ a + s.size
    → length (trim_space (slice runes a b)) ≤ s.size
content-Fits s runes a b h =
    omega (arith, length-trim_space (slice runes a b), length-slice runes a b)

contents-All :
    (s : ChunkShape) (runes : Text) (len start : ℕ) (ws : List Window)
    → Covers s len start ws
    → All (Fits s) (contents runes ws)
contents-All s runes len start [] h = tt
contents-All s runes len start ((a, b) ∷ []) h =
    add_content-All s _ [] (content-Fits s runes a b h.2) tt
contents-All s runes len start ((a, b) ∷ w ∷ ws) h =
    add_content-All s _ _ (content-Fits s runes a b h.2) (contents-All s runes len w.0 (w ∷ ws) h.7)

split_blank : (s : ChunkShape) (text : Text) → trim_space text ≡ [] → split_segment s text ≡ some []
unfolding split_segment
split_blank s text h = rw h (unfold split_from in refl)

-- A segment is cut into texts that fit.
split-Fits :
    (s : ChunkShape) (text : Text)
    → IsValid s
    → (ts : List Text) × (split_segment s text ≡ some ts) × All (Fits s) ts
split-Fits s text v = go (trim_space text) refl
  where
    go :
        (t : Text)
        → trim_space text ≡ t
        → (ts : List Text) × (split_segment s text ≡ some ts) × All (Fits s) ts
    go [] e = ([], split_blank s text e, tt)
    go (c ∷ t) e =
        let cut = split_segment-Cut s text v (λ n. cc (e, n)) in
        (
          contents (trim_space text) cut.windows,
          cut.result,
          contents-All s (trim_space text) _ _ cut.windows cut.covers,
        )

-- The indexes go up by one from `n`.
abbrev pub Indexed : ℕ → List DocumentChunk → Type 0
Indexed n [] = Unit
Indexed n (c ∷ cs) = (c.chunk_index ≡ n) × Indexed (n + 1) cs

-- What the chunks of a document have in common.
abbrev pub BelongsTo : ChunkShape → Document → DocumentChunk → Type 0
BelongsTo s d c =
    (c.doc_id ≡ d.id)
    × (c.tenant_id ≡ d.tenant_id)
    × (c.subject_id ≡ d.subject_id)
    × (c.user_id ≡ d.user_id)
    × (c.token_count ≡ length c.content)
    × (0 < length c.content)
    × (length c.content ≤ s.size)

abbrev pub IsChunking : ChunkShape → Document → List DocumentChunk → Type 0
IsChunking s d cs = Indexed 0 cs × All (BelongsTo s d) cs

Indexed-snoc :
    (n : ℕ) (cs : List DocumentChunk) (c : DocumentChunk)
    → Indexed n cs
    → c.chunk_index ≡ n + length cs
    → Indexed n (cs ++ c ∷ [])
Indexed-snoc n [] c h e = (omega arith, tt)
Indexed-snoc n (x ∷ cs) c h e = (h.0, Indexed-snoc (n + 1) cs c h.1 (omega arith))

add_contents-IsChunking :
    (h : Hashing) (s : ChunkShape) (d : Document) (g : ParseSegment) (ts : List Text)
    (cs : List DocumentChunk)
    → All (Fits s) ts
    → IsChunking s d cs
    → IsChunking s d (add_contents h d g ts cs)
unfolding add_contents
add_contents-IsChunking h s d g [] cs f c = c
add_contents-IsChunking h s d g (t ∷ ts) cs f c =
    let chunk = make_chunk h d g t (length cs) in
    let number : chunk.chunk_index ≡ 0 + length cs = unfold make_chunk in omega arith in
    add_contents-IsChunking h s d g ts (cs ++ chunk ∷ []) f.1 (
      Indexed-snoc 0 cs chunk c.0 number,
      All-append (BelongsTo s d) cs (chunk ∷ []) c.1
          (unfold make_chunk in ((refl, refl, refl, refl, refl, f.0.0, f.0.1), tt)),
    )

add_segments-IsChunking :
    (h : Hashing) (s : ChunkShape) (d : Document) (gs : List ParseSegment) (cs : List DocumentChunk)
    → IsValid s
    → IsChunking s d cs
    → (cs' : List DocumentChunk) × (add_segments h s d gs cs ≡ some cs') × IsChunking s d cs'
unfolding add_segments
add_segments-IsChunking h s d [] cs v c = (cs, refl, c)
add_segments-IsChunking h s d (g ∷ gs) cs v c =
    let (ts, e, f) = split-Fits s g.content v in
    let (cs', e', c') =
      add_segments-IsChunking h s d gs (add_contents h d g ts cs) v
        (add_contents-IsChunking h s d g ts cs f c) in
    (cs', rw (e, add_segments) e', c')

-- The outcome of `Build`.
abbrev pub IsOutcome : ChunkShape → Document → Result (List DocumentChunk) → Type 0
IsOutcome s d (ok cs) = (cs ≢ []) × IsChunking s d cs
IsOutcome s d (err e) = Unit

outcome :
    (s : ChunkShape) (d : Document) (cs : List DocumentChunk)
    → IsChunking s d cs
    → (r : Result (List DocumentChunk)) × (or_empty (some cs) ≡ some r) × IsOutcome s d r
outcome s d [] k = (_, refl, tt)
outcome s d (c ∷ cs) k = (ok (c ∷ cs), refl, (cons-ne-nil c cs, k))

-- `Build` always ends, whatever the configuration and the segments are. Where it succeeds there is
-- a chunk, the indexes are 0, 1, 2, … over all segments, and each chunk belongs to the document,
-- its tenant, subject and user, counts its runes as tokens, and has a text that is not empty and
-- not longer than the size that is in force.
pub build-IsOutcome :
    (h : Hashing) (c : ChunkingConf) (d : Document) (decoded : Result (List ParseSegment))
    → (r : Result (List DocumentChunk)) × (build h c d decoded ≡ some r)
      × IsOutcome (normalize_config c) d r
unfolding build
build-IsOutcome h c d (err e) = (err e, refl, tt)
build-IsOutcome h c d (ok gs) =
    let s = normalize_config c in
    let (cs, e, k) =
      add_segments-IsChunking h s d (or_plain d gs) [] (normalize_config-IsValid c).0 (tt, tt) in
    let (r, e', o) = outcome s d cs k in (r, ap or_empty e ∙ e', o)
