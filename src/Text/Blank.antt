-- ===== src/Text/Blank.antt =====
-- Blank texts: those of white space only.
use cyberwithsteve_acop.Base.{ℕ, ◌≡◌, refl, sym, ◌∙◌, Bool, ◌&&◌, [], ◌∷◌, all, arith}
use cyberwithsteve_acop.Text.{Text, is_space, lstrip, rstrip, put_before, strip, is_empty, is_blank}

empty-put : (p : ℕ → Bool) (c : ℕ) (r : Text) → is_empty (put_before p c r) ≡ (p c && is_empty r)
empty-put p c [] = ground arith
empty-put p c (x ∷ r) = ground arith

empty-rstrip : (p : ℕ → Bool) (s : Text) → is_empty (rstrip p s) ≡ all p s
empty-rstrip p [] = refl
empty-rstrip p (c ∷ s) = ground (arith, empty-put p c (rstrip p s), empty-rstrip p s)

all-put : (p : ℕ → Bool) (c : ℕ) (r : Text) → all p (put_before p c r) ≡ (p c && all p r)
all-put p c [] = ground arith
all-put p c (x ∷ r) = refl

all-rstrip : (p : ℕ → Bool) (s : Text) → all p (rstrip p s) ≡ all p s
all-rstrip p [] = refl
all-rstrip p (c ∷ s) = ground (arith, all-put p c (rstrip p s), all-rstrip p s)

all-lstrip : (p : ℕ → Bool) (s : Text) → all p (lstrip p s) ≡ all p s
all-lstrip p [] = refl
all-lstrip p (c ∷ s) = ground (arith, all-lstrip p s)

blank-all : (s : Text) → is_blank s ≡ all is_space s
unfolding is_blank
blank-all s = empty-rstrip is_space (lstrip is_space s) ∙ all-lstrip is_space s

-- Stripping makes no text blank, and none that is blank not so.
pub blank-strip : (s : Text) → is_blank (strip is_space s) ≡ is_blank s
blank-strip s =
    blank-all (strip is_space s)
    ∙ all-rstrip is_space (lstrip is_space s)
    ∙ all-lstrip is_space s
    ∙ sym (blank-all s)
