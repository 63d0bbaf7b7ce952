-- ===== src/Chunking/Newlines.antt =====
-- What normalisation in src/acop/services/knowledge/chunking.py makes of another encoding of newlines.
use cyberwithsteve_acop.Base.{
  ◌≡◌, refl, Bool, true, not, [], ◌∷◌, map, all, ◌==◌, arith, if◌then◌else◌,
}
use cyberwithsteve_acop.Text.{Text, newline}
use cyberwithsteve_acop.Chunking.{
  carriage_return, newline_for_cr, replace_crlf, without_bom, unified_newlines, normalise,
}

-- The text with CR LF for each LF.
pub with_crlf : Text → Text
with_crlf [] = []
with_crlf (c ∷ s) =
    let rest = with_crlf s in if c == newline then carriage_return ∷ newline ∷ rest else c ∷ rest

-- No carriage return.
abbrev is_unix : Text → Bool
is_unix = all (λ c. not (c == carriage_return))

unchanged : (s : Text) → is_unix s ≡ true → map newline_for_cr (replace_crlf s) ≡ s
unfolding replace_crlf
unchanged [] unix = refl
unchanged (c ∷ s) unix = ground (arith, unchanged s)

filtered : (s : Text) → is_unix s ≡ true → is_unix (without_bom s) ≡ true
unfolding without_bom
filtered [] unix = refl
filtered (c ∷ s) unix = ground (arith, filtered s)

bom_crlf : (s : Text) → without_bom (with_crlf s) ≡ with_crlf (without_bom s)
unfolding without_bom with_crlf
bom_crlf [] = refl
bom_crlf (c ∷ s) = ground (arith, bom_crlf s)

undone : (s : Text) → is_unix s ≡ true → map newline_for_cr (replace_crlf (with_crlf s)) ≡ s
unfolding replace_crlf with_crlf
undone [] unix = refl
undone (c ∷ s) unix = ground (arith, undone s)

-- A text with LF newlines and its encoding with CR LF normalise to the same text: re-encoding a document
-- makes no new version of it.
pub normalise-with_crlf :
    (nfc : Text → Text) (s : Text)
    → is_unix s ≡ true
    → normalise nfc (with_crlf s) ≡ normalise nfc s
unfolding normalise unified_newlines
normalise-with_crlf nfc s unix = rw (bom_crlf s) (
    rw (undone (without_bom s) (filtered s unix))
      (rw (unchanged (without_bom s) (filtered s unix)) refl))
