-- ===== src/Chunking/Document/Total.antt =====
-- `chunk_document` of src/acop/services/knowledge/chunking.py returns: the splitting loop ends, and
-- `text.index` finds what it looks for.
use cyberwithsteve_acop.Base.{
  not, filter, ℕ, suc, ◌-◌, ◌*◌, ◌<◌, ◌≡◌, refl, ◌∙◌, false, Option, some, List, [], ◌∷◌, arith,
  Bool-cases, inl, inr,
}
use cyberwithsteve_acop.Text.{
  Text, is_space, is_newline, strip, slice, is_empty, is_blank, index, index_from,
}
use cyberwithsteve_acop.Text.Search.{strip_contained, slice_found, contained_found}
use cyberwithsteve_acop.Chunking.{ChunkerParams, Chunk, Section, chars_per_token}
use cyberwithsteve_acop.Chunking.Sections.{sections_of}
use cyberwithsteve_acop.Chunking.Pieces.{merge}
use cyberwithsteve_acop.Chunking.Pieces.Bounds.{bounded_ends}
use cyberwithsteve_acop.Chunking.Document.{
  chunk_at, raw_of, offset_of, cut, with_chunk, finish, fallback, merged_chunks, chunk_document,
}

shown_not_empty : (s : Text) → is_blank s ≡ false → is_empty s ≡ false
unfolding is_blank
shown_not_empty [] h = h
shown_not_empty (c ∷ s) h = refl

abbrev pub content_of : Text → Section → Text
content_of text s = strip is_newline (slice text s.start s.end)

pub offset-index :
    (text : Text) (s : Section)
    → offset_of text (content_of text s) s ≡ index_from (content_of text s) text s.start
unfolding offset_of
offset-index text s = rw (strip_contained is_newline (slice text s.start s.end)) refl

offset_found :
    (text : Text) (s : Section)
    → is_blank (content_of text s) ≡ false
    → (n : ℕ) × (offset_of text (content_of text s) s ≡ some n)
offset_found text s shown =
    let (n, e) =
      slice_found (content_of text s) text (s.end - s.start) s.start
        (shown_not_empty (content_of text s) shown)
        (strip_contained is_newline (slice text s.start s.end)) in
    (n, offset-index text s ∙ e)

-- The chunk that a span makes, by its offset.
abbrev pub chunk_of : Text → ℕ → Section → ℕ → Chunk
chunk_of text n s =
    chunk_at n (content_of text s) (filter (λ title. not (is_empty title)) s.heading_path)

with_chunk_ends :
    (o : Option ℕ) (chunk : ℕ → Chunk) (r : Option (List Chunk)) (n : ℕ) (l : List Chunk)
    → o ≡ some n
    → r ≡ some l
    → (chunks : List Chunk) × (with_chunk o chunk r ≡ some chunks)
with_chunk_ends o chunk r n l e f = (chunk n ∷ l, rw e (rw f refl))

cut_ends :
    (text : Text) (n : ℕ) (l : List Section) → (chunks : List Chunk) × (cut text n l ≡ some chunks)
unfolding cut
cut_ends text n [] = ([], refl)
cut_ends text n (s ∷ l) = elim (Bool-cases (is_blank (content_of text s))) [
  | inl blank ↦ (let (chunks, e) = cut_ends text n l in (chunks, rw blank e))
  | inr shown ↦
      (let (chunks, e) = cut_ends text (suc n) l in
        let (offset, f) = offset_found text s shown in
        let made =
          with_chunk_ends (offset_of text (content_of text s) s) (chunk_of text n s)
            (cut text (suc n) l) offset chunks f e in
        (made.0, rw shown made.1))
]

fallback_ends :
    (text : Text) (l : List Chunk) → (chunks : List Chunk) × (fallback text l ≡ some chunks)
unfolding fallback
fallback_ends text (c ∷ l) = (c ∷ l, refl)
fallback_ends text [] = elim (Bool-cases (is_blank text)) [
  | inl blank ↦ ([], rw blank refl)
  | inr shown ↦
      (let (n, e) = contained_found (strip is_space text) text (strip_contained is_space text) in
        let made =
          with_chunk_ends (index (strip is_space text) text) (chunk_at 0 (strip is_space text) [])
            (some []) n [] e refl in
        (made.0, rw shown made.1))
]

-- Where the ceiling is not 0, chunking returns, whatever the text.
pub chunk_document_returns :
    (text : Text) (settings : ChunkerParams)
    → 0 < settings.max_tokens
    → (chunks : List Chunk) × (chunk_document text settings ≡ some chunks)
unfolding chunk_document merged_chunks finish
chunk_document_returns text settings positive =
    let (l, e, same, fit) =
      bounded_ends text (settings.max_tokens * chars_per_token)
        (raw_of text settings (sections_of text)) (omega arith) in
    let (chunks, f) =
      cut_ends text 0
        (merge (settings.min_tokens * chars_per_token) (settings.max_tokens * chars_per_token) l) in
    let (all_chunks, g) = fallback_ends text chunks in (all_chunks, rw e (rw f g))
