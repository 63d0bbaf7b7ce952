-- ===== src/Chunking/Pieces/Bounds.antt =====
-- The ceiling of src/acop/services/knowledge/chunking.py: every span is split in finitely many rounds into
-- pieces that keep within the ceiling and hold the same text, and merging keeps within it too.
use cyberwithsteve_acop.Base.{
  ℕ, zero, suc, ◌+◌, ◌-◌, ◌≤◌, ◌<◌, ◌≡◌, refl, ap, ◌∙◌, Bool, true, ◌&&◌, some, List, [], ◌∷◌, ◌++◌,
  ltb, leb, all, arith, Bool-cases, inl, inr,
}
use cyberwithsteve_acop.Text.{slice, Text}
use cyberwithsteve_acop.Chunking.{Section}
use cyberwithsteve_acop.Chunking.Pieces.{
  piece, last_piece, hard_split, bounded, merges, merge_from, merge,
}
use cyberwithsteve_acop.Chunking.Pieces.Tiling.{
  contents, contents-append, before-some, hard_split_ends, hard_split_tiles,
}

-- At most so many characters, and one at least.
abbrev pub within : ℕ → Section → Bool
within max_chars s = ltb s.start s.end && leb (s.end - s.start) max_chars

abbrev pub not_over : ℕ → Section → Bool
not_over max_chars s = leb (s.end - s.start) max_chars

last_within :
    (max_chars : ℕ) (heading_path : List Text) (cursor end : ℕ)
    → end - cursor ≤ max_chars
    → all (within max_chars) (last_piece heading_path cursor end) ≡ true
last_within max_chars heading_path cursor end small = elim (Bool-cases (ltb cursor end)) [
  | inl more ↦ rw more (rw more (ground arith))
  | inr done ↦ rw done refl
]

hard_split-within :
    (rounds max_chars : ℕ) (heading_path : List Text) (cursor end : ℕ) (l : List Section)
    → 0 < max_chars
    → hard_split rounds max_chars heading_path cursor end ≡ some l
    → all (within max_chars) l ≡ true
unfolding hard_split
hard_split-within zero max_chars heading_path cursor end l positive h =
    elim (Bool-cases (ltb max_chars (end - cursor))) [
      | inl over ↦ cc
      | inr done ↦
          (let e : last_piece heading_path cursor end ≡ l = ground arith in
            rw⁻¹ e (last_within max_chars heading_path cursor end (ground arith)))
    ]
hard_split-within (suc rounds) max_chars heading_path cursor end l positive h =
    elim (Bool-cases (ltb max_chars (end - cursor))) [
      | inr done ↦
          (let e : last_piece heading_path cursor end ≡ l = ground arith in
            rw⁻¹ e (last_within max_chars heading_path cursor end (ground arith)))
      | inl long ↦
          (let (m, e, shape) =
              before-some (piece heading_path cursor (cursor + max_chars))
                (hard_split rounds max_chars heading_path (cursor + max_chars) end) l
                (ground arith) in
            let rest =
              hard_split-within rounds max_chars heading_path (cursor + max_chars) end m positive
                e in
            rw shape (rw rest (ground arith)))
    ]

all-append :
    (p : Section → Bool) (l m : List Section)
    → all p l ≡ true
    → all p m ≡ true
    → all p (l ++ m) ≡ true
all-append p [] m hl hm = hm
all-append p (s ∷ l) m hl hm = ground (arith, all-append p l m)

-- Where the ceiling is not 0, the spans are split into pieces that hold the same text in the same order,
-- each of which has a character and keeps within the ceiling.
pub bounded_ends :
    (text : Text) (max_chars : ℕ) (raw : List Section)
    → 0 < max_chars
    → (l : List Section) × (bounded max_chars raw ≡ some l)
      × (contents text l ≡ contents text raw)
      × (all (within max_chars) l ≡ true)
unfolding bounded
bounded_ends text max_chars [] positive = ([], refl, refl, refl)
bounded_ends text max_chars (s ∷ raw) positive =
    let (l, e) =
      hard_split_ends (s.end - s.start) max_chars s.heading_path s.start s.end positive
        (omega arith) in
    let (m, f, same, fit) = bounded_ends text max_chars raw positive in
    (
      l ++ m,
      rw e (rw f refl),
      contents-append text l m
          ∙ ap (λ r. r ++ contents text m)
              (hard_split_tiles text (s.end - s.start) max_chars s.heading_path s.start s.end l e)
          ∙ ap (λ r. slice text s.start s.end ++ r) same,
      all-append (within max_chars) l m
          (hard_split-within (s.end - s.start) max_chars s.heading_path s.start s.end l positive e)
          fit,
    )

within-not_over :
    (max_chars : ℕ) (l : List Section)
    → all (within max_chars) l ≡ true
    → all (not_over max_chars) l ≡ true
within-not_over max_chars [] h = refl
within-not_over max_chars (s ∷ l) h = ground (arith, within-not_over max_chars l)

merge_from-not_over :
    (min_chars max_chars : ℕ) (last : Section) (l : List Section)
    → not_over max_chars last ≡ true
    → all (not_over max_chars) l ≡ true
    → all (not_over max_chars) (merge_from min_chars max_chars last l) ≡ true
unfolding merge_from merges
merge_from-not_over min_chars max_chars last [] hl h = ground arith
merge_from-not_over min_chars max_chars last (s ∷ l) hl h =
    elim (Bool-cases (merges min_chars max_chars last s)) [
      | inl small ↦ rw small (
          merge_from-not_over min_chars max_chars (piece s.heading_path last.start s.end) l
            (ground arith) (ground arith))
      | inr large ↦ rw large (ground (arith, merge_from-not_over min_chars max_chars s l))
    ]

pub merge-not_over :
    (min_chars max_chars : ℕ) (l : List Section)
    → all (within max_chars) l ≡ true
    → all (not_over max_chars) (merge min_chars max_chars l) ≡ true
unfolding merge
merge-not_over min_chars max_chars [] h = refl
merge-not_over min_chars max_chars (s ∷ l) h =
    let all_fit = within-not_over max_chars (s ∷ l) h in
    merge_from-not_over min_chars max_chars s l (ground arith) (ground arith)
