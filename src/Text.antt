-- ===== src/Text.antt =====
-- Texts as Python's `str` has them: sequences of code points, and the methods that the chunker and
-- its neighbours call.
pub mod Slices
pub mod Search
pub mod Blank
use cyberwithsteve_acop.Base.{
  ℕ, zero, suc, ◌+◌, ◌-◌, Bool, true, false, not, ◌&&◌, ◌||◌, Option, none, some, List, [], ◌∷◌,
  ◌++◌, ◌==◌, leb, if◌then◌else◌,
}

abbrev pub Text : Type 0
Text = List ℕ

-- str.isspace on one character, which is what `\s` matches.
unfoldable pub is_space : ℕ → Bool
is_space c =
    (leb 9 c && leb c 13)
    || (leb 28 c && leb c 32)
    || c == 133
    || c == 160
    || c == 5760
    || (leb 8192 c && leb c 8202)
    || c == 8232
    || c == 8233
    || c == 8239
    || c == 8287
    || c == 12288

abbrev pub newline : ℕ
newline = 10

unfoldable pub is_newline : ℕ → Bool
is_newline c = c == newline

abbrev pub take : ℕ → Text → Text
take zero s = []
take (suc n) [] = []
take (suc n) (c ∷ s) = c ∷ take n s

abbrev pub drop : ℕ → Text → Text
drop zero s = s
drop (suc n) [] = []
drop (suc n) (c ∷ s) = drop n s

-- text[start:end], for indices that are not negative.
abbrev pub slice : Text → ℕ → ℕ → Text
slice text start end = take (end - start) (drop start text)

abbrev pub lstrip : (ℕ → Bool) → Text → Text
lstrip p [] = []
lstrip p (c ∷ s) = let rest = lstrip p s in if p c then rest else c ∷ s

abbrev pub put_before : (ℕ → Bool) → ℕ → Text → Text
put_before p c [] = if p c then [] else c ∷ []
put_before p c (x ∷ s) = c ∷ x ∷ s

abbrev pub rstrip : (ℕ → Bool) → Text → Text
rstrip p [] = []
rstrip p (c ∷ s) = put_before p c (rstrip p s)

abbrev pub strip : (ℕ → Bool) → Text → Text
strip p s = rstrip p (lstrip p s)

abbrev pub is_empty : Text → Bool
is_empty [] = true
is_empty (c ∷ s) = false

-- `not s.strip()`
unfoldable pub is_blank : Text → Bool
is_blank s = is_empty (strip is_space s)

abbrev pub starts_with : Text → Text → Bool
starts_with [] s = true
starts_with (p ∷ ps) [] = false
starts_with (p ∷ ps) (c ∷ s) = p == c && starts_with ps s

-- `part in s`
abbrev pub contains : Text → Text → Bool
contains part [] = starts_with part []
contains part (c ∷ s) = starts_with part (c ∷ s) || contains part s

abbrev shifted : Option ℕ → Option ℕ
shifted none = none
shifted (some n) = some (suc n)

-- s.index(part), where `none` stands for the ValueError.
abbrev pub index : Text → Text → Option ℕ
index part [] = if starts_with part [] then some 0 else none
index part (c ∷ s) =
    let rest = index part s in if starts_with part (c ∷ s) then some 0 else shifted rest

-- s.index(part, start)
abbrev pub index_from : Text → Text → ℕ → Option ℕ
index_from part s zero = index part s
index_from part [] (suc start) = none
index_from part (c ∷ s) (suc start) = shifted (index_from part s start)

abbrev put_first : ℕ → List Text → List Text
put_first c [] = (c ∷ []) ∷ []
put_first c (line ∷ lines) = (c ∷ line) ∷ lines

-- s.split("\n")
abbrev pub split_lines : Text → List Text
split_lines [] = [] ∷ []
split_lines (c ∷ s) =
    let rest = split_lines s in if c == newline then [] ∷ rest else put_first c rest

-- "\n".join(lines)
abbrev pub join_lines : List Text → Text
join_lines [] = []
join_lines (line ∷ []) = line
join_lines (line ∷ next ∷ lines) = line ++ newline ∷ join_lines (next ∷ lines)
