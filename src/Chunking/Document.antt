-- ===== src/Chunking/Document.antt =====
-- `chunk_document` of src/acop/services/knowledge/chunking.py.
pub mod Total
pub mod Citing
pub mod Limits
use cyberwithsteve_acop.Base.{
  ℕ, suc, ◌+◌, ◌*◌, Bool, true, false, not, ◌&&◌, Option, none, some, List, [], ◌∷◌, ◌++◌, filter,
  length, if◌then◌else◌,
}
use cyberwithsteve_acop.Text.{
  Text, is_space, is_newline, strip, is_empty, is_blank, slice, contains, index, index_from,
}
use cyberwithsteve_acop.Chunking.{
  ChunkerParams, Chunk, Section, Paragraph, chars_per_token, estimate_tokens,
}
use cyberwithsteve_acop.Chunking.Sections.{sections_of, paragraph_spans}
use cyberwithsteve_acop.Chunking.Pieces.{gather, bounded, merge}

-- The spans of the sections, before the ceiling is applied.
pub raw_of : Text → ChunkerParams → List Section → List Section
raw_of text settings [] = []
raw_of text settings (s ∷ l) =
    gather (settings.target_tokens * chars_per_token) (settings.overlap_tokens * chars_per_token)
      s.heading_path (paragraph_spans text s.start s.end)
    ++ raw_of text settings l

pub chunk_at : ℕ → Text → List Text → ℕ → Chunk
chunk_at ordinal content heading_path offset = record {
  ordinal = ordinal;
  content = content;
  char_start = offset;
  char_end = offset + length content;
  token_estimate = estimate_tokens content;
  heading_path = heading_path;
}

abbrev pub with_chunk : Option ℕ → (ℕ → Chunk) → Option (List Chunk) → Option (List Chunk)
with_chunk (some offset) chunk (some rest) = some (chunk offset ∷ rest)
with_chunk _ chunk _ = none

-- The offset of a span's content; `none` where `text.index` raises.
pub offset_of : Text → Text → Section → Option ℕ
offset_of text content s =
    if contains content (slice text s.start s.end)
    then index_from content text s.start
    else some s.start

-- The last loop: the chunks from the ordinal on.
pub cut : Text → ℕ → List Section → Option (List Chunk)
unfolding offset_of chunk_at
cut text ordinal [] = some []
cut text ordinal (s ∷ l) =
    let content = strip is_newline (slice text s.start s.end) in
    let skipped = is_blank content in
    let rest = cut text (if skipped then ordinal else suc ordinal) l in
    if skipped
    then rest
    else with_chunk (offset_of text content s)
        (chunk_at ordinal content (filter (λ title. not (is_empty title)) s.heading_path)) rest

-- A text that no span stands for is one chunk.
fallback : Text → List Chunk → Option (List Chunk)
unfolding chunk_at
fallback text (c ∷ chunks) = some (c ∷ chunks)
fallback text [] =
    if is_blank text
    then some []
    else with_chunk (index (strip is_space text) text) (chunk_at 0 (strip is_space text) [])
        (some [])

finish : Text → Option (List Chunk) → Option (List Chunk)
unfolding fallback
finish text none = none
finish text (some chunks) = fallback text chunks

merged_chunks : Text → ChunkerParams → Option (List Section) → Option (List Chunk)
unfolding cut
merged_chunks text settings none = none
merged_chunks text settings (some l) =
    cut text 0
      (merge (settings.min_tokens * chars_per_token) (settings.max_tokens * chars_per_token) l)

-- `chunk_document`: `none` where it does not return, as the loop that splits does for a ceiling of 0.
unfoldable pub chunk_document : Text → ChunkerParams → Option (List Chunk)
unfolding finish merged_chunks raw_of
chunk_document text settings = finish text (
    merged_chunks text settings
      (bounded (settings.max_tokens * chars_per_token) (raw_of text settings (sections_of text))))
