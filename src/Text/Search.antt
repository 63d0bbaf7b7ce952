-- ===== src/Text/Search.antt =====
-- Where a part stands in a text: what is found, and that what is stripped is found.
use cyberwithsteve_acop.Base.{
  ℕ, zero, suc, ◌+◌, ◌-◌, ◌≡◌, refl, ap, ◌∙◌, Bool, true, false, some, [], ◌∷◌, length, ◌==◌,
  ==_iff, arith, Bool-cases, inl, inr,
}
use cyberwithsteve_acop.Text.{
  Text, take, drop, slice, lstrip, rstrip, put_before, strip, is_empty, starts_with, contains,
  index, index_from,
}

equal_itself : (c : ℕ) → (c == c) ≡ true
equal_itself c = (==_iff c c).1 refl

prefix_of_put :
    (p : ℕ → Bool) (c : ℕ) (r s : Text)
    → starts_with r s ≡ true
    → starts_with (put_before p c r) (c ∷ s) ≡ true
prefix_of_put p c [] s h = ground (arith, equal_itself c)
prefix_of_put p c (x ∷ r) s h = rw (equal_itself c) h

rstrip_prefix : (p : ℕ → Bool) (s : Text) → starts_with (rstrip p s) s ≡ true
rstrip_prefix p [] = refl
rstrip_prefix p (c ∷ s) = prefix_of_put p c (rstrip p s) s (rstrip_prefix p s)

prefix_contained : (part s : Text) → starts_with part s ≡ true → contains part s ≡ true
prefix_contained part [] h = h
prefix_contained part (c ∷ s) h = rw h refl

lstrip_contained :
    (p : ℕ → Bool) (part s : Text) → starts_with part (lstrip p s) ≡ true → contains part s ≡ true
lstrip_contained p part [] h = h
lstrip_contained p part (c ∷ s) h = elim (Bool-cases (p c)) [
  | inl out ↦ ground (arith, lstrip_contained p part s)
  | inr kept ↦ ground (arith, prefix_contained part (c ∷ s))
]

-- A stripped text is part of the text.
pub strip_contained : (p : ℕ → Bool) (s : Text) → contains (strip p s) s ≡ true
strip_contained p s = lstrip_contained p (strip p s) s (rstrip_prefix p (lstrip p s))

-- What is part of the beginning is part of the whole.
prefix-take :
    (part s : Text) (k : ℕ) → starts_with part (take k s) ≡ true → starts_with part s ≡ true
prefix-take [] s k h = refl
prefix-take (x ∷ part) s zero h = cc
prefix-take (x ∷ part) [] (suc k) h = cc
prefix-take (x ∷ part) (c ∷ s) (suc k) h = ground (arith, prefix-take part s k)

contains-take : (part s : Text) (k : ℕ) → contains part (take k s) ≡ true → contains part s ≡ true
contains-take part s zero h = prefix_contained part s (prefix-take part s 0 h)
contains-take part [] (suc k) h = h
contains-take part (c ∷ s) (suc k) h =
    ground (arith, contains-take part s k, prefix-take part (c ∷ s) (suc k))

-- What is part of a text has an index in it.
pub contained_found : (part s : Text) → contains part s ≡ true → (n : ℕ) × (index part s ≡ some n)
contained_found part [] h = (0, rw h refl)
contained_found part (c ∷ s) h = elim (Bool-cases (starts_with part (c ∷ s))) [
  | inl here ↦ (0, rw here refl)
  | inr later ↦
      (let (n, e) = contained_found part s (ground arith) in (suc n, rw later (rw e refl)))
]

pub slice_found :
    (part s : Text) (k start : ℕ)
    → is_empty part ≡ false
    → contains part (take k (drop start s)) ≡ true
    → (n : ℕ) × (index_from part s start ≡ some n)
slice_found part s k zero full h = contained_found part s (contains-take part s k h)
slice_found [] [] k (suc start) full h = cc
slice_found (x ∷ part) [] zero (suc start) full h = cc
slice_found (x ∷ part) [] (suc k) (suc start) full h = cc
slice_found part (c ∷ s) k (suc start) full h =
    let (n, e) = slice_found part s k start full h in (suc n, rw e refl)

prefix_taken : (part s : Text) → starts_with part s ≡ true → take (length part) s ≡ part
prefix_taken [] s h = refl
prefix_taken (x ∷ part) [] h = cc
prefix_taken (x ∷ part) (c ∷ s) h = ground (arith, prefix_taken part s, ==_iff x c)

index_starts : (part s : Text) (n : ℕ) → index part s ≡ some n → starts_with part (drop n s) ≡ true
index_starts part [] n h = ground arith
index_starts part (c ∷ s) zero h = ground arith
index_starts part (c ∷ s) (suc n) h = ground (arith, index_starts part s n)

from_starts :
    (part s : Text) (start n : ℕ)
    → index_from part s start ≡ some n
    → starts_with part (drop n s) ≡ true
from_starts part s zero n h = index_starts part s n h
from_starts part [] (suc start) n h = cc
from_starts part (c ∷ s) (suc start) zero h = ground arith
from_starts part (c ∷ s) (suc start) (suc n) h = ground (arith, from_starts part s start n)

-- Where an index is found, the part stands there.
pub found_slice :
    (part s : Text) (start n : ℕ)
    → index_from part s start ≡ some n
    → slice s n (n + length part) ≡ part
found_slice part s start n h =
    let e : n + length part - n ≡ length part = omega arith in
    ap (λ k. take k (drop n s)) e ∙ prefix_taken part (drop n s) (from_starts part s start n h)
