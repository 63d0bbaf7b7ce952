-- ===== src/Text/Slices.antt =====
-- How long slices and stripped texts are, and how slices join.
use cyberwithsteve_acop.Base.{
  ℕ, zero, suc, ◌+◌, ◌-◌, ◌≤◌, ◌≡◌, refl, sym, ap, ◌∙◌, Bool, [], ◌∷◌, ◌++◌, length, arith,
}
use cyberwithsteve_acop.Text.{Text, take, drop, slice, lstrip, rstrip, put_before, strip}

pub length-take : (k : ℕ) (s : Text) → length (take k s) ≤ k
length-take zero s = omega arith
length-take (suc k) [] = omega arith
length-take (suc k) (c ∷ s) = omega (arith, length-take k s)

length-put : (p : ℕ → Bool) (c : ℕ) (r : Text) → length (put_before p c r) ≤ suc (length r)
length-put p c [] = ground arith
length-put p c (x ∷ r) = omega arith

length-rstrip : (p : ℕ → Bool) (s : Text) → length (rstrip p s) ≤ length s
length-rstrip p [] = omega arith
length-rstrip p (c ∷ s) = omega (arith, length-put p c (rstrip p s), length-rstrip p s)

length-lstrip : (p : ℕ → Bool) (s : Text) → length (lstrip p s) ≤ length s
length-lstrip p [] = omega arith
length-lstrip p (c ∷ s) = ground (arith, length-lstrip p s)

pub length-strip : (p : ℕ → Bool) (s : Text) → length (strip p s) ≤ length s
length-strip p s = omega (arith, length-rstrip p (lstrip p s), length-lstrip p s)

take-empty : (k : ℕ) → take k [] ≡ []
take-empty zero = refl
take-empty (suc k) = refl

drop-empty : (k : ℕ) → drop k [] ≡ []
drop-empty zero = refl
drop-empty (suc k) = refl

take_join : (j k : ℕ) (s : Text) → take j s ++ take k (drop j s) ≡ take (j + k) s
take_join zero k s = ap (λ n. take n s) (omega arith)
take_join (suc j) k [] = take-empty k ∙ sym (take-empty (suc j + k))
take_join (suc j) k (c ∷ s) =
    let e : suc j + k ≡ suc (j + k) = omega arith in rw e (ap (λ r. c ∷ r) (take_join j k s))

drop-drop : (j k : ℕ) (s : Text) → drop k (drop j s) ≡ drop (j + k) s
drop-drop zero k s = ap (λ n. drop n s) (omega arith)
drop-drop (suc j) k [] = drop-empty k ∙ sym (drop-empty (suc j + k))
drop-drop (suc j) k (c ∷ s) =
    let e : suc j + k ≡ suc (j + k) = omega arith in rw e (drop-drop j k s)

-- A slice followed by the next is the slice of both.
pub slice_join : (s : Text) (a b c : ℕ) → a ≤ b → b ≤ c → slice s a b ++ slice s b c ≡ slice s a c
slice_join s a b c low high =
    let reach : a + (b - a) ≡ b = omega arith in
    let sum : (b - a) + (c - b) ≡ c - a = omega arith in
    ap (λ r. take (b - a) (drop a s) ++ take (c - b) r)
      (ap (λ n. drop n s) (sym reach) ∙ sym (drop-drop a (b - a) s))
    ∙ take_join (b - a) (c - b) (drop a s)
    ∙ ap (λ n. take n (drop a s)) sum
