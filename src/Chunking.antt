-- ===== src/Chunking.antt =====
-- src/acop/services/knowledge/chunking.py: a text is normalised, cut at its headings and paragraphs, and
-- the paragraphs are gathered, split and merged into chunks. Offsets count code points.
-- A heading path is a list of texts; `Section` is also the triple (heading_path, start, end) of the
-- loops over spans. SHA-256 and the parameters that are stored beside the chunks are left out.
pub mod Newlines
pub mod Sections
pub mod Pieces
pub mod Document
use cyberwithsteve_acop.Base.{
  ◌/◌, max, ℕ, zero, suc, ◌+◌, ◌-◌, ◌*◌, Bool, true, false, not, ◌&&◌, Option, none, some, List, [],
  ◌∷◌, ◌++◌, map, filter, length, ◌==◌, if◌then◌else◌,
}
use cyberwithsteve_acop.Text.{
  Text, newline, is_space, is_newline, rstrip, strip, split_lines, join_lines,
}

pub record ChunkerParams : Type 0 where
  pub target_tokens : ℕ
  pub overlap_tokens : ℕ
  pub min_tokens : ℕ
  pub max_tokens : ℕ

pub record Chunk : Type 0 where
  pub ordinal : ℕ
  pub content : Text
  pub char_start : ℕ
  pub char_end : ℕ
  pub token_estimate : ℕ
  pub heading_path : List Text

pub record Section : Type 0 where
  pub heading_path : List Text
  pub start : ℕ
  pub end : ℕ

pub record Paragraph : Type 0 where
  pub start : ℕ
  pub end : ℕ

abbrev pub chars_per_token : ℕ
chars_per_token = 4

unfoldable pub estimate_tokens : Text → ℕ
estimate_tokens text = max 1 ((length text + chars_per_token - 1) / chars_per_token)

abbrev carriage_return : ℕ
carriage_return = 13

abbrev byte_order_mark : ℕ
byte_order_mark = 65279

abbrev starts_line : Text → Bool
starts_line [] = false
starts_line (c ∷ s) = c == newline

-- .replace("\r\n", "\n"): a carriage return goes where a newline follows it.
replace_crlf : Text → Text
replace_crlf [] = []
replace_crlf (c ∷ s) =
    let rest = replace_crlf s in if c == carriage_return && starts_line s then rest else c ∷ rest

-- .replace("\r", "\n")
abbrev newline_for_cr : ℕ → ℕ
newline_for_cr c = if c == carriage_return then newline else c

without_bom : Text → Text
without_bom = filter (λ c. not (c == byte_order_mark))

unified_newlines : Text → Text
unfolding replace_crlf without_bom
unified_newlines raw = map newline_for_cr (replace_crlf (without_bom raw))

-- `normalise`, with Unicode's NFC.
pub normalise : (Text → Text) → Text → Text
unfolding unified_newlines
normalise nfc raw =
    strip is_newline (join_lines (map (rstrip is_space) (split_lines (nfc (unified_newlines raw)))))
