-- ===== src/Tests/Chunks.antt =====
-- The chunker on a short segment.
use enterprise_rag.Prelude.{◌≤◌, ◌≡◌, ◌≢◌, [], ◌∷◌, List, some}
use enterprise_rag.Runes.{trim_space, is_space}
use enterprise_rag.Store.{DocumentChunk}
use enterprise_rag.Exec.{Result, ok}
use enterprise_rag.Chunker.{normalize_config, split_segment, build}
use enterprise_rag.Chunker.Windows.{IsValid, normalize_config-IsValid, Cut, split_segment-Cut}
use enterprise_rag.Chunker.Build.{IsOutcome, build-IsOutcome}
use enterprise_rag.Tests.Samples.{uploaded_document, chunking, hashing, segment}
use mathlib.Core.List.{cons-ne-nil}

normalize_config-IsValid_example :
    IsValid (normalize_config chunking) × (200 ≤ (normalize_config chunking).size)
normalize_config-IsValid_example = normalize_config-IsValid chunking

not_blank : trim_space segment.content ≢ []
unfolding trim_space is_space
not_blank = cons-ne-nil _ _

split_segment-Cut_example :
    Cut
      (normalize_config chunking)
      (trim_space segment.content)
      0
      (split_segment (normalize_config chunking) segment.content)
split_segment-Cut_example =
    split_segment-Cut (normalize_config chunking) segment.content
      (normalize_config-IsValid chunking).0 not_blank

build-IsOutcome_example :
    (r : Result (List DocumentChunk)) × (build hashing chunking uploaded_document
        (ok (segment ∷ []))
      ≡ some r)
    × IsOutcome (normalize_config chunking) uploaded_document r
build-IsOutcome_example = build-IsOutcome hashing chunking uploaded_document (ok (segment ∷ []))
