-- ===== src/Chunking/Document/Citing.antt =====
-- What the chunks of src/acop/services/knowledge/chunking.py are: numbered quotations of the text, none of
-- which is longer than the ceiling.
use cyberwithsteve_acop.Base.{
  ℕ, suc, ◌*◌, ◌≡◌, refl, sym, ◌∙◌, subst, false, Option, none, some, List, [], ◌∷◌, arith,
  Bool-cases, inl, inr,
}
use cyberwithsteve_acop.Text.{Text, is_space, strip, slice, is_blank, index, index_from}
use cyberwithsteve_acop.Text.Search.{found_slice}
use cyberwithsteve_acop.Text.Blank.{blank-strip}
use cyberwithsteve_acop.Chunking.{ChunkerParams, Chunk, Section, chars_per_token}
use cyberwithsteve_acop.Chunking.Sections.{sections_of}
use cyberwithsteve_acop.Chunking.Pieces.{bounded, merge}
use cyberwithsteve_acop.Chunking.Document.{
  raw_of, chunk_at, offset_of, cut, with_chunk, finish, fallback, merged_chunks, chunk_document,
}
use cyberwithsteve_acop.Chunking.Document.Total.{content_of, chunk_of, offset-index}

-- The n-th chunk: it quotes the text between its offsets, and it shows something.
pub record IsCited (text : Text) (n : ℕ) (c : Chunk) : Type 0 where
  pub numbered : c.ordinal ≡ n
  pub quoted : slice text c.char_start c.char_end ≡ c.content
  pub shown : is_blank c.content ≡ false

-- The chunks from the n-th on.
abbrev pub Cited : Text → ℕ → List Chunk → Type 0
Cited text n [] = Unit
Cited text n (c ∷ l) = IsCited text n c × Cited text (suc n) l

pub with_chunk-some :
    (o : Option ℕ) (chunk : ℕ → Chunk) (r : Option (List Chunk)) (chunks : List Chunk)
    → with_chunk o chunk r ≡ some chunks
    → (offset : ℕ) × (l : List Chunk) × (o ≡ some offset)
      × (r ≡ some l)
      × (chunks ≡ chunk offset ∷ l)
with_chunk-some none chunk r chunks h = cc
with_chunk-some (some offset) chunk none chunks h = cc
with_chunk-some (some offset) chunk (some l) chunks h = (offset, l, refl, refl, ground arith)

-- A chunk at an index of its content is a quotation.
at_index :
    (text content : Text) (heading_path : List Text) (n start offset : ℕ)
    → is_blank content ≡ false
    → index_from content text start ≡ some offset
    → IsCited text n (chunk_at n content heading_path offset)
unfolding chunk_at
at_index text content heading_path n start offset shown found = record {
  numbered = refl;
  quoted = found_slice content text start offset found;
  shown = shown;
}

cut-Cited :
    (text : Text) (n : ℕ) (l : List Section) (chunks : List Chunk)
    → cut text n l ≡ some chunks
    → Cited text n chunks
unfolding cut
cut-Cited text n [] chunks h = let e : [] ≡ chunks = ground arith in subst (Cited text n) e tt
cut-Cited text n (s ∷ l) chunks h = elim (Bool-cases (is_blank (content_of text s))) [
  | inl blank ↦ cut-Cited text n l chunks (rw blank at h)
  | inr shown ↦
      (let (offset, m, found, rest, shape) =
          with_chunk-some (offset_of text (content_of text s) s) (chunk_of text n s)
            (cut text (suc n) l) chunks (rw shown at h) in
        subst (Cited text n) (sym shape) (
          at_index text (content_of text s) _ n s.start offset shown
              (sym (offset-index text s) ∙ found),
          cut-Cited text (suc n) l m rest,
        ))
]

fallback-Cited :
    (text : Text) (l chunks : List Chunk)
    → Cited text 0 l
    → fallback text l ≡ some chunks
    → Cited text 0 chunks
unfolding fallback
fallback-Cited text (c ∷ l) chunks cited h =
    let e : c ∷ l ≡ chunks = ground arith in subst (Cited text 0) e cited
fallback-Cited text [] chunks cited h = elim (Bool-cases (is_blank text)) [
  | inl blank ↦ (let e : [] ≡ chunks = ground arith in subst (Cited text 0) e tt)
  | inr shown ↦
      (let (offset, m, found, rest, shape) =
          with_chunk-some (index (strip is_space text) text) (chunk_at 0 (strip is_space text) [])
            (some []) chunks (rw shown at h) in
        subst (Cited text 0) (sym shape) (
          at_index text (strip is_space text) [] 0 0 offset (blank-strip text ∙ shown) found,
          (let e : [] ≡ m = ground arith in subst (Cited text 1) e tt),
        ))
]

finish-Cited :
    (text : Text) (settings : ChunkerParams) (o : Option (List Section)) (chunks : List Chunk)
    → finish text (merged_chunks text settings o) ≡ some chunks
    → Cited text 0 chunks
unfolding merged_chunks finish
finish-Cited text settings none chunks h = cc
finish-Cited text settings (some l) chunks h =
    let spans =
      merge (settings.min_tokens * chars_per_token) (settings.max_tokens * chars_per_token) l in
    by_cut (cut text 0 spans) refl h
  where
    by_cut :
        (o : Option (List Chunk))
        → cut text 0 (
            merge (settings.min_tokens * chars_per_token) (settings.max_tokens * chars_per_token) l)
          ≡ o
        → finish text o ≡ some chunks
        → Cited text 0 chunks
    by_cut none e f = cc
    by_cut (some m) e f = fallback-Cited text m chunks (cut-Cited text 0 _ m e) f

-- The chunks of a text are numbered 0, 1, 2, …, each is the text between its own offsets, and none is
-- blank.
pub chunk_document-Cited :
    (text : Text) (settings : ChunkerParams) (chunks : List Chunk)
    → chunk_document text settings ≡ some chunks
    → Cited text 0 chunks
unfolding chunk_document
chunk_document-Cited text settings chunks h =
    finish-Cited text settings
      (bounded (settings.max_tokens * chars_per_token) (raw_of text settings (sections_of text)))
      chunks h
