-- ===== src/Chunking/Sections.antt =====
-- The first cuts of src/acop/services/knowledge/chunking.py: sections at Markdown headings, and the
-- paragraphs of a section, neither inside a fenced block.
use cyberwithsteve_acop.Base.{
  ℕ, zero, suc, ◌+◌, ◌-◌, min, Bool, true, false, not, ◌&&◌, Option, none, some, List, [], ◌∷◌,
  ◌++◌, filter, length, ◌==◌, ltb, is_some, if◌then◌else◌,
}
use cyberwithsteve_acop.Text.{
  Text, is_space, lstrip, strip, is_empty, is_blank, starts_with, slice, split_lines,
}
use cyberwithsteve_acop.Chunking.{Section, Paragraph}

-- The two markers that `_FENCE` matches.
pub data Fence : Type 0 where
  backticks tildes : Fence

same_fence : Fence → Fence → Bool
same_fence backticks backticks = true
same_fence tildes tildes = true
same_fence _ _ = false

abbrev backtick : ℕ
backtick = 96

abbrev tilde : ℕ
tilde = 126

fence_at : Text → Option Fence
fence_at s =
    if starts_with (backtick ∷ backtick ∷ backtick ∷ []) s
    then some backticks
    else if starts_with (tilde ∷ tilde ∷ tilde ∷ []) s
    then some tildes
    else none

-- `_FENCE.match(line)`, its first group.
unfoldable pub match_fence : Text → Option Fence
unfolding fence_at
match_fence line = fence_at (lstrip is_space line)

-- The fence that is open after a line with a marker.
unfoldable pub toggle : Option Fence → Fence → Option Fence
unfolding same_fence
toggle none marker = some marker
toggle (some open_marker) marker = if same_fence marker open_marker then none else some open_marker

abbrev is_hash : ℕ → Bool
is_hash c = c == 35

abbrev deeper : ℕ × Text → ℕ × Text
deeper (n, rest) = (suc n, rest)

-- `#{1,6}`: how many, at most as many as are given, and the rest.
hashes : ℕ → Text → ℕ × Text
hashes zero s = (0, s)
hashes (suc n) [] = (0, [])
hashes (suc n) (c ∷ s) = let rest = hashes n s in if is_hash c then deeper rest else (0, c ∷ s)

-- `\s*#*\s*$`
is_closing : Text → Bool
is_closing s = is_empty (lstrip is_space (lstrip is_hash (lstrip is_space s)))

-- `(.*?)`, before the first place where the closing part matches.
lazy_title : Text → Text
unfolding is_closing
lazy_title [] = []
lazy_title (c ∷ s) = let rest = lazy_title s in if is_closing (c ∷ s) then [] else c ∷ rest

heading_after : ℕ → Text → Option (ℕ × Text)
unfolding lazy_title
heading_after zero s = none
heading_after (suc n) [] = none
heading_after (suc n) (c ∷ s) =
    if is_space c then some (suc n, strip is_space (lazy_title (lstrip is_space s))) else none

-- `_HEADING.match(line)`: the depth and the stripped title.
unfoldable pub match_heading : Text → Option (ℕ × Text)
unfolding hashes heading_after
match_heading line = let (depth, rest) = hashes 6 line in heading_after depth rest

-- path[: n], with empty titles up to n.
padded : ℕ → List Text → List Text
padded zero path = []
padded (suc n) [] = [] ∷ padded n []
padded (suc n) (title ∷ path) = title ∷ padded n path

-- The state of the loop of `_sections`; `fence` is the marker while one is open.
pub record SectionScan : Type 0 where
  pub sections : List Section
  pub path : List Text
  pub section_start : ℕ
  pub fence : Option Fence

closed_at : SectionScan → ℕ → List Section
closed_at st end =
    st.sections ++ record { heading_path = st.path; start = st.section_start; end = end } ∷ []

open_section : ℕ → ℕ → ℕ → Text → SectionScan → SectionScan
unfolding closed_at padded
open_section text_length offset depth title st = record st {
  sections =
      if ltb st.section_start offset then closed_at st (min offset text_length) else st.sections;
  path = padded (depth - 1) st.path ++ title ∷ [];
  section_start = offset;
}

at_heading : ℕ → ℕ → Option (ℕ × Text) → SectionScan → SectionScan
unfolding open_section
at_heading text_length offset none st = st
at_heading text_length offset (some (depth, title)) st =
    open_section text_length offset depth title st

section_line : ℕ → ℕ → Text → Option Fence → SectionScan → SectionScan
unfolding at_heading
section_line text_length offset line (some marker) st = record st { fence = toggle st.fence marker }
section_line text_length offset line none st =
    if is_some st.fence then st else at_heading text_length offset (match_heading line) st

scan_sections : ℕ → ℕ → List Text → SectionScan → SectionScan
unfolding section_line
scan_sections text_length offset [] st = st
scan_sections text_length offset (line ∷ lines) st =
    scan_sections text_length (offset + length line + 1) lines
      (section_line text_length offset line (match_fence line) st)

finish_sections : ℕ → SectionScan → List Section
unfolding closed_at
finish_sections text_length st =
    if ltb st.section_start text_length then closed_at st text_length else st.sections

-- `_sections`
unfoldable pub sections_of : Text → List Section
unfolding finish_sections scan_sections
sections_of text =
    filter (λ s. not (is_blank (slice text s.start s.end)))
      (finish_sections (length text) (
        scan_sections (length text) 0 (split_lines text)
          (record { sections = []; path = []; section_start = 0; fence = none })))

-- The state of the loop of `_paragraph_spans`.
pub record ParagraphScan : Type 0 where
  pub spans : List Paragraph
  pub block_start : ℕ
  pub fence : Option Fence

-- The line at `cursor`.
paragraph_line : ℕ → Text → Option Fence → ParagraphScan → ParagraphScan
paragraph_line cursor line (some marker) st = record st { fence = toggle st.fence marker }
paragraph_line cursor line none st =
    if not (is_some st.fence) && is_blank line && ltb st.block_start cursor
    then record st {
      spans = st.spans ++ record { start = st.block_start; end = cursor } ∷ [];
      block_start = cursor + (length line + 1);
    }
    else st

scan_paragraphs : ℕ → List Text → ParagraphScan → ParagraphScan
unfolding paragraph_line
scan_paragraphs cursor [] st = st
scan_paragraphs cursor (line ∷ lines) st =
    scan_paragraphs (cursor + (length line + 1)) lines
      (paragraph_line cursor line (match_fence line) st)

finish_paragraphs : ℕ → ParagraphScan → List Paragraph
finish_paragraphs end st =
    if ltb st.block_start end
    then st.spans ++ record { start = st.block_start; end = end } ∷ []
    else st.spans

-- `_paragraph_spans`
unfoldable pub paragraph_spans : Text → ℕ → ℕ → List Paragraph
unfolding finish_paragraphs scan_paragraphs
paragraph_spans text start end =
    filter (λ s. not (is_blank (slice text s.start s.end)))
      (finish_paragraphs end (
        scan_paragraphs start (split_lines (slice text start end))
          (record { spans = []; block_start = start; fence = none })))
