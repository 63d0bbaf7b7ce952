-- ===== src/Chunking/Pieces.antt =====
-- The loops over spans in `chunk_document` of src/acop/services/knowledge/chunking.py: paragraphs are
-- gathered up to the target, what is still too long is split, and short pieces are merged.
pub mod Bounds
pub mod Tiling
use cyberwithsteve_acop.Base.{
  ℕ, zero, suc, ◌+◌, ◌-◌, min, max, Bool, true, false, ◌&&◌, Option, none, some, List, [], ◌∷◌,
  ◌++◌, ◌==◌, ltb, leb, if◌then◌else◌,
}
use cyberwithsteve_acop.Text.{Text}
use cyberwithsteve_acop.Chunking.{Section, Paragraph}

-- What the loop over the paragraphs of a section has gathered: `buffer_start`, `buffer_end`.
abbrev span_from : Paragraph → ℕ → Paragraph
span_from p start = record p { start = start }

-- Where the next buffer starts: `overlap` characters back, but not before the buffer that is emitted.
next_start : ℕ → Paragraph → Paragraph → ℕ
next_start overlap buffer p = min (max buffer.start (buffer.end - overlap)) p.start

emitted : List Text → Paragraph → Section
emitted heading_path buffer = record {
  heading_path = heading_path;
  start = buffer.start;
  end = buffer.end;
}

-- The loop with a buffer.
gather_from : ℕ → ℕ → List Text → Paragraph → List Paragraph → List Section
unfolding emitted next_start
gather_from target overlap heading_path buffer [] = emitted heading_path buffer ∷ []
gather_from target overlap heading_path buffer (p ∷ ps) =
    let fits = leb (p.end - buffer.start) target in
    let start = if fits then buffer.start else next_start overlap buffer p in
    let rest = gather_from target overlap heading_path (span_from p start) ps in
    if fits then rest else emitted heading_path buffer ∷ rest

unfoldable pub gather : ℕ → ℕ → List Text → List Paragraph → List Section
unfolding gather_from
gather target overlap heading_path [] = []
gather target overlap heading_path (p ∷ ps) = gather_from target overlap heading_path p ps

abbrev pub piece : List Text → ℕ → ℕ → Section
piece heading_path start end = record { heading_path = heading_path; start = start; end = end }

abbrev pub before : Section → Option (List Section) → Option (List Section)
before s none = none
before s (some rest) = some (s ∷ rest)

abbrev last_piece : List Text → ℕ → ℕ → List Section
last_piece heading_path cursor end =
    if ltb cursor end then piece heading_path cursor end ∷ [] else []

-- The `while` loop on one span, for a number of rounds; `none` where it is not over by then.
pub hard_split : ℕ → ℕ → List Text → ℕ → ℕ → Option (List Section)
hard_split zero max_chars heading_path cursor end =
    if ltb max_chars (end - cursor) then none else some (last_piece heading_path cursor end)
hard_split (suc rounds) max_chars heading_path cursor end =
    let rest = hard_split rounds max_chars heading_path (cursor + max_chars) end in
    if ltb max_chars (end - cursor)
    then before (piece heading_path cursor (cursor + max_chars)) rest
    else some (last_piece heading_path cursor end)

abbrev joined : Option (List Section) → Option (List Section) → Option (List Section)
joined (some l) (some m) = some (l ++ m)
joined _ _ = none

-- Every span split: as many rounds as it has characters.
unfoldable pub bounded : ℕ → List Section → Option (List Section)
unfolding hard_split
bounded max_chars [] = some []
bounded max_chars (s ∷ l) =
    joined (hard_split (s.end - s.start) max_chars s.heading_path s.start s.end)
      (bounded max_chars l)

same_text : Text → Text → Bool
same_text [] [] = true
same_text (a ∷ s) (b ∷ t) = a == b && same_text s t
same_text _ _ = false

same_path : List Text → List Text → Bool
unfolding same_text
same_path [] [] = true
same_path (a ∷ p) (b ∷ q) = same_text a b && same_path p q
same_path _ _ = false

pub merges : ℕ → ℕ → Section → Section → Bool
unfolding same_path
merges min_chars max_chars last s =
    ltb (s.end - s.start) min_chars
    && same_path last.heading_path s.heading_path
    && leb (s.end - last.start) max_chars

-- The loop with `merged[-1]`.
pub merge_from : ℕ → ℕ → Section → List Section → List Section
unfolding merges
merge_from min_chars max_chars last [] = last ∷ []
merge_from min_chars max_chars last (s ∷ l) =
    let small = merges min_chars max_chars last s in
    let rest =
      merge_from min_chars max_chars (if small then piece s.heading_path last.start s.end else s)
        l in
    if small then rest else last ∷ rest

unfoldable pub merge : ℕ → ℕ → List Section → List Section
unfolding merge_from
merge min_chars max_chars [] = []
merge min_chars max_chars (s ∷ l) = merge_from min_chars max_chars s l
