-- ===== src/Chunker.antt =====
-- api/internal/service/documentchunk/chunker.go: cutting a document into overlapping chunks.
--
-- The letters and digits of Unicode, SHA-256 and `uuid.NewSHA1` are parameters.
pub mod Windows
pub mod Build
use Prim.Native.Nat.{min, max}
use enterprise_rag.Prelude.{
  ℕ, zero, suc, ◌+◌, ◌-◌, ◌≤◌, String, Bool, true, false, ◌&&◌, ◌||◌, not, Option, none, some, List,
  [], ◌∷◌, ◌++◌, Text, codes, ◌==◌, ltb, leb, length, take, drop, get_elem?, any_of, if◌then◌else◌,
}
use enterprise_rag.Prelude.Int.{ℤ, int_ltb, to_ℕ}
use enterprise_rag.Store.{Document, DocumentChunk, ChunkMetadata}
use enterprise_rag.Runes.{is_space, trim_space, text_eq, join, fields_func}
use enterprise_rag.Exec.{Error, other, Result, ok, err}

-- The values of the configuration, before and after they are normalised.
pub record ChunkingConf : Type 0 where
  pub size : ℤ
  pub overlap : ℤ
  pub min_size : ℤ
  pub boundary_lookback : ℤ

pub record ChunkShape : Type 0 where
  pub size : ℕ
  pub overlap : ℕ
  pub min_size : ℕ
  pub lookback : ℕ

-- `value < low || value >= size` gives the default.
abbrev within : ℤ → ℕ → ℕ → ℕ → ℕ
within value low size default =
    if int_ltb value low || leb size (to_ℕ value) then default else to_ℕ value

unfoldable pub normalize_config : ChunkingConf → ChunkShape
normalize_config value =
    let size = if int_ltb value.size 200 then 800 else to_ℕ value.size in
    record {
      size = size;
      overlap = within value.overlap 0 size 120;
      min_size = within value.min_size 1 size 120;
      lookback = within value.boundary_lookback 0 size 160;
    }

-- '\n', '。', '！', '？', '.', '!', '?', ';', '；'.
unfoldable pub is_boundary : ℕ → Bool
is_boundary c =
    c == 10
    || (c == 0x3002
        || (c == 0xff01
            || (c == 0xff1f
                || (c == b'.' || (c == b'!' || (c == b'?' || (c == b';' || c == 0xff1b)))))))

abbrev boundary_at : Option ℕ → Bool
boundary_at none = false
boundary_at (some c) = is_boundary c

-- The loop of `findBoundary`: `rounds` is how far `index` stands above the lower bound.
unfoldable pub scan_back : Text → ℕ → ℕ → ℕ → ℕ
scan_back runes zero index end = end
scan_back runes (suc rounds) index end =
    let rest = scan_back runes rounds (index - 1) end in
    if boundary_at (get_elem? runes (index - 1)) then index else rest

unfoldable pub find_boundary : Text → ℕ → ℕ → ℕ → ℕ → ℕ
unfolding scan_back
find_boundary runes start end lookback min_size =
    let lower = max (start + min_size) (end - lookback) in scan_back runes (end - lower) end end

unfoldable pub slice : Text → ℕ → ℕ → Text
slice runes start end = take (end - start) (drop start runes)

-- Where the chunk that begins at `start` ends.
unfoldable pub chunk_end : ChunkShape → Text → ℕ → ℕ
unfolding find_boundary
chunk_end shape runes start =
    let end = min (start + shape.size) (length runes) in
    if ltb end (length runes)
    then find_boundary runes start end shape.lookback shape.min_size
    else end

-- `next := end - overlap`, and `end` where that does not go forward.
unfoldable pub next_start : ℕ → ℕ → ℕ → ℕ
next_start start end overlap = if leb end (start + overlap) then end else end - overlap

abbrev pub add_content : Text → List Text → List Text
add_content [] rest = rest
add_content (c ∷ content) rest = (c ∷ content) ∷ rest

abbrev pub add_first : Text → Option (List Text) → Option (List Text)
add_first content none = none
add_first content (some rest) = some (add_content content rest)

-- The loop of `splitSegment`; `none` means that the fuel ran out.
unfoldable pub split_from : ℕ → ChunkShape → Text → ℕ → Option (List Text)
split_from zero shape runes start = none
split_from (suc fuel) shape runes start =
    let end = chunk_end shape runes start in
    let content = trim_space (slice runes start end) in
    let rest = split_from fuel shape runes (next_start start end shape.overlap) in
    if leb (length runes) start
    then some []
    else if leb (length runes) end
    then some (add_content content [])
    else add_first content rest

-- One round more than there are runes is enough: each round goes forward.
unfoldable pub split_segment : ChunkShape → Text → Option (List Text)
unfolding split_from
split_segment shape text =
    let runes = trim_space text in split_from (suc (length runes)) shape runes 0

-- '。', '！', '？', '.', '!', '?', ';', '；'.
abbrev ends_sentence : Option ℕ → Bool
ends_sentence none = false
ends_sentence (some c) = not (c == 10) && is_boundary c

-- The loop of `summarize` from `index`, with `rounds` to go.
unfoldable pub sentence_end : Text → ℕ → ℕ → ℕ
sentence_end runes zero index = 120
sentence_end runes (suc rounds) index =
    let rest = sentence_end runes rounds (index + 1) in
    if ends_sentence (get_elem? runes index) then index + 1 else rest

unfoldable pub summarize : Text → Text
unfolding sentence_end
summarize content =
    let runes = join (fields_func is_space content) (codes " ") in
    if leb (length runes) 120 then runes else trim_space (take (sentence_end runes 40 80) runes)

unfoldable pub normalize_block_type : Text → Text
normalize_block_type [] = codes "paragraph"
normalize_block_type (c ∷ value) = c ∷ value

-- Whether a token is a keyword to be added to `result`, which holds the tokens that were seen.
abbrev is_keyword : List Text → Text → Bool
is_keyword result token =
    leb 2 (length token) && (leb (length token) 32 && not (any_of (text_eq token) result))

-- The loops of `extractKeywords` over the tokens of both fields.
unfoldable pub collect : List Text → List Text → List Text
collect [] result = result
collect (token ∷ tokens) result =
    let trimmed = trim_space token in
    let more =
      collect tokens (if is_keyword result trimmed then result ++ trimmed ∷ [] else result) in
    if leb 8 (length result) then result else more

unfoldable pub extract_keywords : (ℕ → Bool) → Text → Text → List Text
unfolding collect
extract_keywords is_letter_or_digit section content =
    let tokens = fields_func (λ c. not (is_letter_or_digit c)) in
    collect (tokens section ++ tokens content) []

pub record ParseSegment : Type 0 where
  pub page : ℤ
  pub section : Text
  pub heading_path : List Text
  pub block_type : Text
  pub content : Text

pub record Hashing : Type 0 where
  pub is_letter_or_digit : ℕ → Bool
  pub content_hash : Text → String
  pub chunk_id : String → ℕ → String → ℕ → String

-- The chunk of a segment with the given index.
unfoldable pub make_chunk : Hashing → Document → ParseSegment → Text → ℕ → DocumentChunk
make_chunk h document segment content index = record {
  id = h.chunk_id document.id document.stamp.document_version (h.content_hash content) index;
  tenant_id = document.tenant_id;
  doc_id = document.id;
  subject_id = document.subject_id;
  user_id = document.user_id;
  chunk_index = index;
  content = content;
  page = segment.page;
  section = segment.section;
  metadata = some (record {
    heading_path = segment.heading_path;
    block_type = normalize_block_type segment.block_type;
    keywords = extract_keywords h.is_letter_or_digit segment.section content;
    summary = summarize content;
    source_type = document.file_type;
  });
  token_count = length content;
  stamp = record document.stamp { content_hash = h.content_hash content };
  deleted_at = none;
}

-- The inner loop of `Build`: `chunks` are those that there are already.
unfoldable pub add_contents :
    Hashing → Document → ParseSegment → List Text → List DocumentChunk → List DocumentChunk
add_contents h document segment [] chunks = chunks
add_contents h document segment (content ∷ contents) chunks =
    add_contents h document segment contents
      (chunks ++ make_chunk h document segment content (length chunks) ∷ [])

unfoldable pub add_segments :
    Hashing
    → ChunkShape
    → Document
    → List ParseSegment
    → List DocumentChunk
    → Option (List DocumentChunk)
add_segments h shape document [] chunks = some chunks
add_segments h shape document (segment ∷ segments) chunks =
    elim (split_segment shape segment.content) [
      | none ↦ none
      | some contents ↦
          add_segments h shape document segments (add_contents h document segment contents chunks)
    ]

abbrev pub or_empty : Option (List DocumentChunk) → Option (Result (List DocumentChunk))
or_empty none = none
or_empty (some []) = some (err (other (codes "document has no chunkable content")))
or_empty (some (chunk ∷ chunks)) = some (ok (chunk ∷ chunks))

abbrev pub or_plain : Document → List ParseSegment → List ParseSegment
or_plain document [] =
    record {
      page = ℤ.pos 0;
      section = [];
      heading_path = [];
      block_type = codes "paragraph";
      content = elim document.plain_text [ none ↦ [] | some text ↦ text ];
    }
    ∷ []
or_plain document (s ∷ segments) = s ∷ segments

-- `Build`, for what the document's metadata decode to: no segments where there are no metadata.
unfoldable pub build :
    Hashing
    → ChunkingConf
    → Document
    → Result (List ParseSegment)
    → Option (Result (List DocumentChunk))
unfolding add_segments
build h chunking document (err e) = some (err e)
build h chunking document (ok segments) =
    or_empty (add_segments h (normalize_config chunking) document (or_plain document segments) [])
