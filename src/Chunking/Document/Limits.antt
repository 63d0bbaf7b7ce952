-- ===== src/Chunking/Document/Limits.antt =====
-- How long the chunks of src/acop/services/knowledge/chunking.py are.
use cyberwithsteve_acop.Base.{
  ℕ, suc, ◌-◌, ◌*◌, ◌<◌, ◌≡◌, ◌⊎◌, refl, ap, ◌∙◌, Bool, true, Option, none, some, List, [], ◌∷◌,
  length, all, leb, arith, Bool-cases, inl, inr,
}
use cyberwithsteve_acop.Text.{Text, is_space, is_newline, drop, strip, slice, is_blank, index}
use cyberwithsteve_acop.Text.Slices.{length-take, length-strip}
use cyberwithsteve_acop.Chunking.{ChunkerParams, Chunk, Section, chars_per_token}
use cyberwithsteve_acop.Chunking.Sections.{sections_of}
use cyberwithsteve_acop.Chunking.Pieces.{merge}
use cyberwithsteve_acop.Chunking.Pieces.Bounds.{not_over, bounded_ends, merge-not_over}
use cyberwithsteve_acop.Chunking.Document.{
  bounded, raw_of, chunk_at, offset_of, cut, finish, fallback, merged_chunks, chunk_document,
}
use cyberwithsteve_acop.Chunking.Document.Total.{content_of, chunk_of}
use cyberwithsteve_acop.Chunking.Document.Citing.{with_chunk-some}

-- At most so many characters.
abbrev fits : ℕ → Chunk → Bool
fits max_chars c = leb (length c.content) max_chars

content_fits :
    (text : Text) (max_chars : ℕ) (s : Section)
    → not_over max_chars s ≡ true
    → leb (length (content_of text s)) max_chars ≡ true
content_fits text max_chars s h = ground (
  arith,
  length-strip is_newline (slice text s.start s.end),
  length-take (s.end - s.start) (drop s.start text),
)

cut-fits :
    (text : Text) (max_chars n : ℕ) (l : List Section) (chunks : List Chunk)
    → all (not_over max_chars) l ≡ true
    → cut text n l ≡ some chunks
    → all (fits max_chars) chunks ≡ true
unfolding cut chunk_at
cut-fits text max_chars n [] chunks fit h = let e : [] ≡ chunks = ground arith in rw⁻¹ e refl
cut-fits text max_chars n (s ∷ l) chunks fit h = elim (Bool-cases (is_blank (content_of text s))) [
  | inl blank ↦ cut-fits text max_chars n l chunks (ground arith) (rw blank at h)
  | inr shown ↦
      (let (offset, m, found, rest, shape) =
          with_chunk-some (offset_of text (content_of text s) s) (chunk_of text n s)
            (cut text (suc n) l) chunks (rw shown at h) in
        let tail = cut-fits text max_chars (suc n) l m (ground arith) rest in
        rw shape (rw (content_fits text max_chars s (ground arith)) tail))
]

-- Nothing is left of the span without the newlines at its ends, but white space.
abbrev pub is_blank_span : Text → Section → Bool
is_blank_span text s = is_blank (strip is_newline (slice text s.start s.end))

cut-empty :
    (text : Text) (n : ℕ) (l : List Section)
    → cut text n l ≡ some []
    → all (is_blank_span text) l ≡ true
unfolding cut chunk_at
cut-empty text n [] h = refl
cut-empty text n (s ∷ l) h = elim (Bool-cases (is_blank (content_of text s))) [
  | inl blank ↦ rw blank (cut-empty text n l (rw blank at h))
  | inr shown ↦
      (let (offset, m, found, rest, shape) =
          with_chunk-some (offset_of text (content_of text s) s) (chunk_of text n s)
            (cut text (suc n) l) [] (rw shown at h) in
        cc (shape))
]

-- Within the ceiling; or, where every one of the spans is blank, the whole text as one chunk.
abbrev pub Limited : Text → ℕ → List Section → List Chunk → Type 0
Limited text max_chars spans chunks =
    (all (fits max_chars) chunks ≡ true)
    ⊎ ((all (is_blank_span text) spans ≡ true)
        × (offset : ℕ) × (chunks ≡ chunk_at 0 (strip is_space text) [] offset ∷ []))

fallback-Limited :
    (text : Text) (max_chars : ℕ) (spans : List Section) (l chunks : List Chunk)
    → all (not_over max_chars) spans ≡ true
    → cut text 0 spans ≡ some l
    → fallback text l ≡ some chunks
    → Limited text max_chars spans chunks
unfolding fallback
fallback-Limited text max_chars spans (c ∷ l) chunks fit made h = inl (
    let e : c ∷ l ≡ chunks = ground arith in
    rw⁻¹ e (cut-fits text max_chars 0 spans (c ∷ l) fit made))
fallback-Limited text max_chars spans [] chunks fit made h = elim (Bool-cases (is_blank text)) [
  | inl blank ↦ inl (let e : [] ≡ chunks = ground arith in rw⁻¹ e refl)
  | inr shown ↦
      (let (offset, m, found, rest, shape) =
          with_chunk-some (index (strip is_space text) text) (chunk_at 0 (strip is_space text) [])
            (some []) chunks (rw shown at h) in
        let e : m ≡ [] = ground arith in
        inr (
          cut-empty text 0 spans made,
          offset,
          shape ∙ ap (λ r. chunk_at 0 (strip is_space text) [] offset ∷ r) e,
        ))
]

finish-Limited :
    (text : Text) (max_chars : ℕ) (spans : List Section) (o : Option (List Chunk))
    (chunks : List Chunk)
    → all (not_over max_chars) spans ≡ true
    → cut text 0 spans ≡ o
    → finish text o ≡ some chunks
    → Limited text max_chars spans chunks
unfolding finish
finish-Limited text max_chars spans none chunks fit e h = cc
finish-Limited text max_chars spans (some m) chunks fit e h =
    fallback-Limited text max_chars spans m chunks fit e h

-- Where the ceiling is not 0, splitting the paragraphs' spans ends, and no chunk is longer than
-- `max_tokens * 4` characters, unless every span that is left by splitting and merging is blank:
-- only then may the whole text, without the white space around it, be the one chunk.
pub chunk_document-Limited :
    (text : Text) (settings : ChunkerParams) (chunks : List Chunk)
    → 0 < settings.max_tokens
    → chunk_document text settings ≡ some chunks
    → let ceiling = settings.max_tokens * chars_per_token in
      (l : List Section) × (bounded ceiling (raw_of text settings (sections_of text)) ≡ some l)
      × Limited text ceiling (merge (settings.min_tokens * chars_per_token) ceiling l) chunks
unfolding chunk_document merged_chunks
chunk_document-Limited text settings chunks positive h =
    let ceiling = settings.max_tokens * chars_per_token in
    let floor = settings.min_tokens * chars_per_token in
    let (l, e, same, fit) =
      bounded_ends text ceiling (raw_of text settings (sections_of text)) (omega arith) in
    (
      l,
      e,
      finish-Limited text ceiling (merge floor ceiling l) (cut text 0 (merge floor ceiling l))
          chunks (merge-not_over floor ceiling l fit) refl (rw e at h),
    )
