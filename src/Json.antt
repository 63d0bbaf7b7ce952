-- ===== src/Json.antt =====
-- JSON values: what `dict[str, Any]` columns and digests hold, and the canonical rendering of
-- src/acop/tools/envelope.py (`json.dumps` with sorted keys, tight separators, no ASCII escapes).
-- A number is the text that `json.dumps` gives it, so integers and floats need no arithmetic here.
-- A rendering is a list of code points; `.encode("utf-8")` is one to one on those.
use Prim.Native.Char.{code}
use Prim.Native.Nat.{◌/◌, ◌%◌}
use Prim.Native.String.{compare}
use text.Mathlib.Text.{is_le}
use cyberwithsteve_acop.Base.{
  ℕ, zero, suc, ◌+◌, String, Bool, true, false, List, [], ◌∷◌, ◌++◌, map, ◌==◌, ltb, if◌then◌else◌,
}

mutual
  pub data Fields : Type 0 where
    end : Fields
    field : String → Value → Fields → Fields

  pub data Value : Type 0 where
    null : Value
    bool : Bool → Value
    number : List ℕ → Value
    str : String → Value
    obj : Fields → Value
    arr : Items → Value

  pub data Items : Type 0 where
    nil : Items
    cons : Value → Items → Items

-- The code points of a text.
abbrev pub codes : String → List ℕ
codes String.[] = []
codes (String.◌∷◌ c s) = code c ∷ codes s

hex_digit : ℕ → ℕ
hex_digit n = if ltb n 10 then n + 48 else n + 87

-- The escapes of the JSON encoder with `ensure_ascii=False`.
escape_code : ℕ → List ℕ
unfolding hex_digit
escape_code c =
    if c == 34
    then 92 ∷ 34 ∷ []
    else if c == 92
    then 92 ∷ 92 ∷ []
    else if c == 10
    then 92 ∷ 110 ∷ []
    else if c == 13
    then 92 ∷ 114 ∷ []
    else if c == 9
    then 92 ∷ 116 ∷ []
    else if c == 8
    then 92 ∷ 98 ∷ []
    else if c == 12
    then 92 ∷ 102 ∷ []
    else if ltb c 32
    then 92 ∷ 117 ∷ 48 ∷ 48 ∷ hex_digit (c / 16) ∷ hex_digit (c % 16) ∷ []
    else c ∷ []

escape : List ℕ → List ℕ
unfolding escape_code
escape [] = []
escape (c ∷ cs) = escape_code c ++ escape cs

quote : String → List ℕ
unfolding escape
quote s = 34 ∷ (escape (codes s) ++ 34 ∷ [])

-- sort_keys=True
insert_key : String × List ℕ → List (String × List ℕ) → List (String × List ℕ)
insert_key p [] = p ∷ []
insert_key (k, v) ((j, w) ∷ l) =
    let rest = insert_key (k, v) l in
    if is_le (compare k j) then (k, v) ∷ (j, w) ∷ l else (j, w) ∷ rest

sort_keys : List (String × List ℕ) → List (String × List ℕ)
unfolding insert_key
sort_keys [] = []
sort_keys (p ∷ l) = insert_key p (sort_keys l)

-- separators=(",", ":")
join : List (List ℕ) → List ℕ
join [] = []
join (x ∷ []) = x
join (x ∷ y ∷ l) = x ++ (44 ∷ join (y ∷ l))

member_text : String × List ℕ → List ℕ
unfolding quote
member_text (k, v) = quote k ++ (58 ∷ v)

unfoldable mutual
  unfolding quote sort_keys join member_text

  pub canonical_json : Value → List ℕ
  canonical_json null = codes "null"
  canonical_json (bool true) = codes "true"
  canonical_json (bool false) = codes "false"
  canonical_json (number n) = n
  canonical_json (str s) = quote s
  canonical_json (arr xs) = 91 ∷ (join (item_texts xs) ++ 93 ∷ [])
  canonical_json (obj fs) = 123 ∷ (join (map member_text (sort_keys (field_texts fs))) ++ 125 ∷ [])

  item_texts : Items → List (List ℕ)
  item_texts nil = []
  item_texts (cons x xs) = canonical_json x ∷ item_texts xs

  field_texts : Fields → List (String × List ℕ)
  field_texts end = []
  field_texts (field k v fs) = (k, canonical_json v) ∷ field_texts fs

-- The decimal digits of a number, on fuel.
digits : ℕ → ℕ → List ℕ → List ℕ
digits zero n acc = acc
digits (suc f) n acc =
    let shorter = digits f (n / 10) ((n % 10 + 48) ∷ acc) in
    if ltb n 10 then (n + 48) ∷ acc else shorter

pub decimal : ℕ → List ℕ
unfolding digits
decimal n = digits (suc n) n []

pub int : ℕ → Value
int n = number (decimal n)

pub strs : List String → Items
strs [] = nil
strs (s ∷ l) = cons (str s) (strs l)
