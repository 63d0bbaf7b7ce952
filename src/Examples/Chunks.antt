-- ===== src/Examples/Chunks.antt =====
-- Chunking runs: two sections, one of them with a fence, and a ceiling that splits a paragraph.
use cyberwithsteve_acop.Base.{◌≡◌, refl, true, ◌*◌, some, List, [], ◌∷◌, all, arith}
use cyberwithsteve_acop.Text.{Text, is_space, is_blank, is_newline}
use cyberwithsteve_acop.Chunking.{
  ChunkerParams, Chunk, Section, chars_per_token, normalise, estimate_tokens,
}
use cyberwithsteve_acop.Chunking.Newlines.{with_crlf, normalise-with_crlf}
use cyberwithsteve_acop.Chunking.Pieces.{bounded, piece, gather, merge}
use cyberwithsteve_acop.Chunking.Sections.{sections_of, match_fence, match_heading, paragraph_spans}
use cyberwithsteve_acop.Chunking.Pieces.Tiling.{contents}
use cyberwithsteve_acop.Chunking.Pieces.Bounds.{within, bounded_ends}
use cyberwithsteve_acop.Chunking.Document.{chunk_document, raw_of}
use cyberwithsteve_acop.Chunking.Document.Total.{chunk_document_returns}
use cyberwithsteve_acop.Chunking.Document.Citing.{Cited, chunk_document-Cited}
use cyberwithsteve_acop.Chunking.Document.Limits.{Limited, chunk_document-Limited}

-- "# A", an empty line, and "bcdefgh".
abbrev note : Text
note = 35 ∷ 32 ∷ 65 ∷ 10 ∷ 10 ∷ 98 ∷ 99 ∷ 100 ∷ 101 ∷ 102 ∷ 103 ∷ 104 ∷ []

abbrev small : ChunkerParams
small = record { target_tokens = 1; overlap_tokens = 0; min_tokens = 0; max_tokens = 1 }

abbrev note_chunks : List Chunk
note_chunks =
    record {
      ordinal = 0;
      content = 35 ∷ 32 ∷ 65 ∷ [];
      char_start = 0;
      char_end = 3;
      token_estimate = 1;
      heading_path = (65 ∷ []) ∷ [];
    }
    ∷ record {
      ordinal = 1;
      content = 98 ∷ 99 ∷ 100 ∷ [];
      char_start = 5;
      char_end = 8;
      token_estimate = 1;
      heading_path = (65 ∷ []) ∷ [];
    }
    ∷ record {
      ordinal = 2;
      content = 101 ∷ 102 ∷ 103 ∷ 104 ∷ [];
      char_start = 8;
      char_end = 12;
      token_estimate = 1;
      heading_path = (65 ∷ []) ∷ [];
    }
    ∷ []

note_chunked : chunk_document note small ≡ some note_chunks
unfolding chunk_document bounded sections_of match_fence is_space match_heading is_blank gather
    paragraph_spans merge is_newline estimate_tokens
note_chunked = refl

chunk_document_returns_example : (chunks : List Chunk) × (chunk_document note small ≡ some chunks)
chunk_document_returns_example = chunk_document_returns note small (omega arith)

chunk_document-Cited_example : Cited note 0 note_chunks
chunk_document-Cited_example = chunk_document-Cited note small note_chunks note_chunked

chunk_document-Limited_example :
    (l : List Section) × (bounded (1 * chars_per_token) (raw_of note small (sections_of note))
      ≡ some l)
    × Limited note
        (1 * chars_per_token)
        (merge (0 * chars_per_token) (1 * chars_per_token) l)
        note_chunks
chunk_document-Limited_example =
    chunk_document-Limited note small note_chunks (omega arith) note_chunked

bounded_ends_example :
    (l : List Section) × (bounded 4 (piece [] 0 12 ∷ []) ≡ some l)
    × (contents note l ≡ contents note (piece [] 0 12 ∷ []))
    × (all (within 4) l ≡ true)
bounded_ends_example = bounded_ends note 4 (piece [] 0 12 ∷ []) (omega arith)

normalise-with_crlf_example : normalise (λ s. s) (with_crlf note) ≡ normalise (λ s. s) note
normalise-with_crlf_example = normalise-with_crlf (λ s. s) note refl
