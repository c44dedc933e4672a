-- ===== src/Text.antt =====
-- Python's byte strings, as lists of codes, with the `str` methods that tools/*.py call.
pub mod Laws
pub mod Unicode
use Prim.Native.Char.{code}
use optimer.Prelude.{
  Bool, List, Option, String, [], false, if◌then◌else◌, leb, length, ltb, map, none, some, suc,
  true, zero, ℕ, ◌%◌, ◌&&◌, ◌++◌, ◌+◌, ◌-◌, ◌/◌, ◌==◌, ◌||◌, ◌∷◌,
}
use mathlib.Core.List.{reverse}
use mathlib.Core.Option

abbrev pub Text : Type 0
Text = List ℕ

-- The codes of a literal. Every literal of the development is ASCII.
abbrev pub codes : String → Text
codes String.[] = []
codes (String.◌∷◌ c s) = code c ∷ codes s

unfoldable pub text_eq : Text → Text → Bool
text_eq [] [] = true
text_eq [] (b ∷ t) = false
text_eq (a ∷ s) [] = false
text_eq (a ∷ s) (b ∷ t) = a == b && text_eq s t

-- s in (...)
unfoldable pub member : Text → List Text → Bool
unfolding text_eq
member s [] = false
member s (t ∷ ts) = text_eq s t || member s ts

-- a < b
unfoldable pub text_lt : Text → Text → Bool
text_lt s [] = false
text_lt [] (b ∷ t) = true
text_lt (a ∷ s) (b ∷ t) = ltb a b || (a == b && text_lt s t)

-- s.startswith(p)
unfoldable pub starts_with : Text → Text → Bool
starts_with s [] = true
starts_with [] (b ∷ p) = false
starts_with (a ∷ s) (b ∷ p) = a == b && starts_with s p

-- s.endswith(p)
unfoldable pub ends_with : Text → Text → Bool
unfolding starts_with
ends_with s p = starts_with (reverse s) (reverse p)

-- s.find(p); `none` is -1
unfoldable pub find : Text → Text → Option ℕ
unfolding starts_with
find [] p = if starts_with [] p then some 0 else none
find (c ∷ s) p = if starts_with (c ∷ s) p then some 0 else Option.map suc (find s p)

-- s.find(p) >= 0, p in s
unfoldable pub contains : Text → Text → Bool
unfolding find
contains s p = elim (find s p) [ some i ↦ true | none ↦ false ]

-- The number of occurrences of `p` that do not overlap; `skip` codes of the last one are left.
count_from : Text → ℕ → Text → ℕ
unfolding starts_with
count_from p skip [] = 0
count_from p zero (c ∷ s) =
    let hit = starts_with (c ∷ s) p in
    (if hit then 1 else 0) + count_from p (if hit then length p - 1 else 0) s
count_from p (suc skip) (c ∷ s) = count_from p skip s

-- s.count(p), for p not empty
unfoldable pub count : Text → Text → ℕ
unfolding count_from
count s p = count_from p 0 s

replace_from : Text → Text → ℕ → Text → Text
unfolding starts_with
replace_from p q skip [] = []
replace_from p q zero (c ∷ s) =
    let hit = starts_with (c ∷ s) p in
    (if hit then q else c ∷ []) ++ replace_from p q (if hit then length p - 1 else 0) s
replace_from p q (suc skip) (c ∷ s) = replace_from p q skip s

-- s.replace(p, q), for p not empty
unfoldable pub replace : Text → Text → Text → Text
unfolding replace_from
replace s p q = replace_from p q 0 s

-- ' \t\n\r\x0b\x0c'
abbrev pub is_space : ℕ → Bool
is_space c = c == 32 || (leb 9 c && leb c 13)

abbrev pub is_digit : ℕ → Bool
is_digit c = leb b'0' c && leb c b'9'

abbrev pub is_upper : ℕ → Bool
is_upper c = leb b'A' c && leb c b'Z'

abbrev pub is_lower : ℕ → Bool
is_lower c = leb b'a' c && leb c b'z'

abbrev pub is_alnum : ℕ → Bool
is_alnum c = is_digit c || (is_upper c || is_lower c)

unfoldable pub lstrip : Text → Text
lstrip [] = []
lstrip (c ∷ s) = if is_space c then lstrip s else c ∷ s

unfoldable pub rstrip : Text → Text
unfolding lstrip
rstrip s = reverse (lstrip (reverse s))

unfoldable pub strip : Text → Text
unfolding rstrip
strip s = rstrip (lstrip s)

unfoldable pub lower : Text → Text
lower = map λ c. if is_upper c then c + 32 else c

unfoldable pub upper : Text → Text
upper = map λ c. if is_lower c then c - 32 else c

-- A piece is put before the first of the pieces that follow.
abbrev pub onto_first : ℕ → List Text → List Text
onto_first c [] = (c ∷ []) ∷ []
onto_first c (t ∷ ts) = (c ∷ t) ∷ ts

-- The pieces between the codes that pass `sep`.
unfoldable pub split_by : (ℕ → Bool) → Text → List Text
split_by sep [] = [] ∷ []
split_by sep (c ∷ s) = let rest = split_by sep s in if sep c then [] ∷ rest else onto_first c rest

-- s.split(sep), for a separator of one code
unfoldable pub split : ℕ → Text → List Text
unfolding split_by
split sep = split_by λ c. c == sep

abbrev pub is_empty : Text → Bool
is_empty [] = true
is_empty (c ∷ s) = false

-- pieces[-1], for pieces that are not empty
abbrev pub last_piece : List Text → Text
last_piece [] = []
last_piece (t ∷ []) = t
last_piece (t ∷ u ∷ ts) = last_piece (u ∷ ts)

-- sep.join(pieces)
unfoldable pub join : Text → List Text → Text
join sep [] = []
join sep (t ∷ []) = t
join sep (t ∷ u ∷ ts) = t ++ (sep ++ join sep (u ∷ ts))

digits_onto : ℕ → ℕ → Text → Text
digits_onto zero n acc = acc
digits_onto (suc fuel) n acc =
    let acc' = (b'0' + n % 10) ∷ acc in
    let rest = digits_onto fuel (n / 10) acc' in if n / 10 == 0 then acc' else rest

-- '%d' % n: a number has no more digits than one more than its value.
unfoldable pub decimal : ℕ → Text
unfolding digits_onto
decimal n = digits_onto (suc n) n []
