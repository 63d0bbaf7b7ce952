-- ===== src/Chunking/Pieces/Tiling.antt =====
-- The loop in src/acop/services/knowledge/chunking.py that splits what is over the ceiling: it ends, and its
-- pieces are the text of the span.
use cyberwithsteve_acop.Base.{
  ℕ, zero, suc, ◌+◌, ◌-◌, ◌≤◌, ◌<◌, ◌≡◌, refl, sym, Option, none, some, List, [], ◌∷◌, ◌++◌, ltb,
  arith, Bool-cases, inl, inr,
}
use mathlib.Core.List.{append-nil, append_assoc}
use cyberwithsteve_acop.Text.{Text, slice}
use cyberwithsteve_acop.Text.Slices.{slice_join}
use cyberwithsteve_acop.Chunking.{Section}
use cyberwithsteve_acop.Chunking.Pieces.{piece, before, last_piece, hard_split}

-- The text of the spans, one after the other.
abbrev pub contents : Text → List Section → Text
contents text [] = []
contents text (s ∷ l) = slice text s.start s.end ++ contents text l

pub hard_split_ends :
    (rounds max_chars : ℕ) (heading_path : List Text) (cursor end : ℕ)
    → 0 < max_chars
    → end - cursor ≤ rounds
    → (l : List Section) × (hard_split rounds max_chars heading_path cursor end ≡ some l)
unfolding hard_split
hard_split_ends zero max_chars heading_path cursor end positive enough =
    (last_piece heading_path cursor end, ground arith)
hard_split_ends (suc rounds) max_chars heading_path cursor end positive enough =
    elim (Bool-cases (ltb max_chars (end - cursor))) [
      | inr over ↦ (last_piece heading_path cursor end, rw over refl)
      | inl long ↦
          (let (l, e) =
              hard_split_ends rounds max_chars heading_path (cursor + max_chars) end positive
                (ground arith) in
            (piece heading_path cursor (cursor + max_chars) ∷ l, rw long (rw e refl)))
    ]

last_tile :
    (text : Text) (heading_path : List Text) (cursor end : ℕ)
    → contents text (last_piece heading_path cursor end) ≡ slice text cursor end
last_tile text heading_path cursor end = elim (Bool-cases (ltb cursor end)) [
  | inl more ↦ rw more (append-nil (slice text cursor end))
  | inr done ↦ rw done (let e : end - cursor ≡ 0 = ground arith in rw e refl)
]

pub before-some :
    (s : Section) (o : Option (List Section)) (l : List Section)
    → before s o ≡ some l
    → (m : List Section) × (o ≡ some m) × (l ≡ s ∷ m)
before-some s none l h = cc
before-some s (some m) l h = (m, refl, ground arith)

-- The pieces of a span, one after the other, are the text of the span, whatever the number of rounds.
pub hard_split_tiles :
    (text : Text) (rounds max_chars : ℕ) (heading_path : List Text) (cursor end : ℕ)
    (l : List Section)
    → hard_split rounds max_chars heading_path cursor end ≡ some l
    → contents text l ≡ slice text cursor end
unfolding hard_split
hard_split_tiles text zero max_chars heading_path cursor end l h =
    elim (Bool-cases (ltb max_chars (end - cursor))) [
      | inl over ↦ cc
      | inr done ↦
          (let e : last_piece heading_path cursor end ≡ l = ground arith in
            rw⁻¹ e (last_tile text heading_path cursor end))
    ]
hard_split_tiles text (suc rounds) max_chars heading_path cursor end l h =
    elim (Bool-cases (ltb max_chars (end - cursor))) [
      | inr done ↦
          (let e : last_piece heading_path cursor end ≡ l = ground arith in
            rw⁻¹ e (last_tile text heading_path cursor end))
      | inl long ↦
          (let (m, e, shape) =
              before-some (piece heading_path cursor (cursor + max_chars))
                (hard_split rounds max_chars heading_path (cursor + max_chars) end) l
                (ground arith) in
            rw shape (
              rw (hard_split_tiles text rounds max_chars heading_path (cursor + max_chars) end m e)
                (slice_join text cursor (cursor + max_chars) end (omega arith) (ground arith))))
    ]

pub contents-append :
    (text : Text) (l m : List Section) → contents text (l ++ m) ≡ contents text l ++ contents text m
contents-append text [] m = refl
contents-append text (s ∷ l) m =
    rw (contents-append text l m)
      (sym (append_assoc (slice text s.start s.end) (contents text l) (contents text m)))
