-- ===== src/Regex.antt =====
-- Python's `re`, for the patterns that tools/*.py use: a pattern is a tree, and matching it lists
-- every way to match in the order in which the backtracking matcher would try them.
use mathlib.Core.List.{flat_map, head?, reverse}
use mathlib.Core.Bool.{xor}
use mathlib.Core.Option
use optimer.Prelude.{
  Bool, List, Option, String, [], drop, false, if◌then◌else◌, length, ltb, map, none, not, some,
  suc, take, true, zero, ℕ, ◌&&◌, ◌++◌, ◌+◌, ◌-◌, ◌==◌, ◌||◌, ◌∷◌,
}
use optimer.Text.{Text, codes, is_alnum, is_digit, is_empty, is_space, is_upper, starts_with}

-- The body of a `star` never matches the empty text in the patterns of the program.
pub data Regex : Type 0 where
  eps : Regex
  cls : (ℕ → Bool) → Regex
  seq : Regex → Regex → Regex
  alt : Regex → Regex → Regex
  star : Regex → Regex
  lazy : Regex → Regex
  group : ℕ → Regex → Regex
  bol : Regex
  eol : Regex
  boundary : Regex
  ahead : Regex → Regex
  not_ahead : Regex → Regex
  again : ℕ → Regex
  line_start : Regex
  line_end : Regex

-- A place in a text: what stands before it, the nearest code first, and what stands behind it.
pub record Cursor : Type 0 where
  pub before : Text
  pub rest : Text
  pub groups : List (ℕ × Text)

-- [A-Za-z0-9_]
abbrev pub is_word : ℕ → Bool
is_word c = is_alnum c || c == b'_'

abbrev next_is_word : Text → Bool
next_is_word [] = false
next_is_word (c ∷ s) = is_word c

-- `$`: at the end, or before a newline that ends the text
abbrev pub at_end : Text → Bool
at_end [] = true
at_end (c ∷ []) = c == b'\n'
at_end (c ∷ d ∷ s) = false

-- `^` and `$` with re.M: at the ends of the text, and at each newline
abbrev pub at_newline : Text → Bool
at_newline [] = true
at_newline (c ∷ s) = c == b'\n'

when : Bool → Cursor → List Cursor
when b c = if b then c ∷ [] else []

-- one code of the set
step : (ℕ → Bool) → Cursor → Text → List Cursor
step p c [] = []
step p c (x ∷ s) = if p x then record c { before = x ∷ c.before; rest = s } ∷ [] else []

-- Every number of rounds that each take something: the most rounds first, if `greedy`.
repeat : Bool → (Cursor → List Cursor) → ℕ → Cursor → List Cursor
repeat greedy f zero c = c ∷ []
repeat greedy f (suc fuel) c =
    let more =
      flat_map (λ d. if ltb (length d.rest) (length c.rest) then repeat greedy f fuel d else [])
        (f c) in
    if greedy then more ++ (c ∷ []) else c ∷ more

matched : List Cursor → Bool
matched [] = false
matched (c ∷ cs) = true

-- the text between two places
abbrev pub between : Cursor → Cursor → Text
between c d = take (length c.rest - length d.rest) c.rest

capture : ℕ → Cursor → Cursor → Cursor
capture n c d = record d { groups = (n, between c d) ∷ d.groups }

-- The text of the group that was captured last, if the group took part in the match.
unfoldable pub group_of : ℕ → List (ℕ × Text) → Option Text
group_of n [] = none
group_of n ((m, t) ∷ gs) = if n == m then some t else group_of n gs

-- the text of a group once more
follow : Option Text → Cursor → List Cursor
unfolding starts_with
follow none c = []
follow (some t) c =
    if starts_with c.rest t
    then record c { before = reverse t ++ c.before; rest = drop (length t) c.rest } ∷ []
    else []

unfoldable pub run : Regex → Cursor → List Cursor
unfolding when step repeat capture matched follow group_of flat_map xor
run eps c = c ∷ []
run (cls p) c = step p c c.rest
run (seq r s) c = flat_map (run s) (run r c)
run (alt r s) c = run r c ++ run s c
run (star r) c = repeat true (run r) (length c.rest) c
run (lazy r) c = repeat false (run r) (length c.rest) c
run (group n r) c = map (capture n c) (run r c)
run bol c = when (is_empty c.before) c
run eol c = when (at_end c.rest) c
run boundary c = when (xor (next_is_word c.before) (next_is_word c.rest)) c
run (ahead r) c = when (matched (run r c)) c
run (not_ahead r) c = when (not (matched (run r c))) c
run (again n) c = follow (group_of n c.groups) c
run line_start c = when (at_newline c.before) c
run line_end c = when (at_newline c.rest) c

-- the pattern as it is compiled with re.M
unfoldable pub multiline : Regex → Regex
multiline (seq r s) = seq (multiline r) (multiline s)
multiline (alt r s) = alt (multiline r) (multiline s)
multiline (star r) = star (multiline r)
multiline (lazy r) = lazy (multiline r)
multiline (group n r) = group n (multiline r)
multiline bol = line_start
multiline eol = line_end
multiline (ahead r) = ahead (multiline r)
multiline (not_ahead r) = not_ahead (multiline r)
multiline r = r

abbrev pub at_start : Text → Cursor
at_start s = record { before = []; rest = s; groups = [] }

-- `Match` of cpplint.py, and the `match` of a compiled pattern
unfoldable pub re_match : Regex → Text → Option Cursor
unfolding run
re_match r s = head? (run r (at_start s))

abbrev pub cursor_at : Text → Text → Cursor
cursor_at before rest = record { before = before; rest = rest; groups = [] }

search_from : Regex → Text → Text → Option (Cursor × Cursor)
unfolding run
search_from r before [] = let c = cursor_at before [] in Option.map (λ d. (c, d)) (head? (run r c))
search_from r before (x ∷ s) =
    let c = cursor_at before (x ∷ s) in
    let later = search_from r (x ∷ before) s in
    elim (head? (run r c)) [ some d ↦ some (c, d) | none ↦ later ]

-- `Search` of cpplint.py: where the leftmost match begins, and where it ends
unfoldable pub re_search : Regex → Text → Option (Cursor × Cursor)
unfolding search_from
re_search r s = search_from r [] s

unfoldable pub found : Regex → Text → Bool
unfolding re_search
found r s = elim (re_search r s) [ some m ↦ true | none ↦ false ]

unfoldable pub matches : Regex → Text → Bool
unfolding re_match
matches r s = elim (re_match r s) [ some m ↦ true | none ↦ false ]

-- `r.sub(q, s)` for a pattern that never matches the empty text; each round takes a code.
sub_from : Regex → Text → ℕ → Cursor → Text
unfolding run
sub_from r q zero c = c.rest
sub_from r q (suc fuel) c = elim (head? (run r c)) [
  | some d ↦ q ++ sub_from r q fuel (record d { groups = [] })
  | none ↦ elim c.rest [
    | [] ↦ []
    | x ∷ s ↦ x ∷ sub_from r q fuel (record { before = x ∷ c.before; rest = s; groups = [] })
  ]
]

unfoldable pub re_sub : Regex → Text → Text → Text
unfolding sub_from
re_sub r q s = sub_from r q (suc (length s)) (at_start s)

-- `r.search(s, pos)` again and again from the end of the last match, as in `finditer`
finditer_from : Regex → ℕ → Cursor → List Cursor
unfolding run
finditer_from r zero c = []
finditer_from r (suc fuel) c = elim (head? (run r c)) [
  | some d ↦ d ∷ finditer_from r fuel (record d { groups = [] })
  | none ↦ elim c.rest [
    | [] ↦ []
    | x ∷ s ↦ finditer_from r fuel (record { before = x ∷ c.before; rest = s; groups = [] })
  ]
]

unfoldable pub re_finditer : Regex → Text → List Cursor
unfolding finditer_from
re_finditer r s = finditer_from r (suc (length s)) (at_start s)

-- Notation for patterns.
abbrev pub any_code : Regex
any_code = cls λ c. not (c == b'\n')

abbrev pub lit : Text → Regex
lit [] = eps
lit (x ∷ s) = seq (cls λ c. c == x) (lit s)

abbrev pub str : String → Regex
str s = lit (codes s)

abbrev pub words_of : List Text → Regex
words_of [] = cls λ c. false
words_of (t ∷ []) = lit t
words_of (t ∷ u ∷ ts) = alt (lit t) (words_of (u ∷ ts))

abbrev pub one : ℕ → Regex
one x = cls λ c. c == x

abbrev pub one_of : Text → ℕ → Bool
one_of [] c = false
one_of (x ∷ xs) c = c == x || one_of xs c

abbrev pub opt : Regex → Regex
opt r = alt r eps

abbrev pub plus : Regex → Regex
plus r = seq r (star r)

abbrev pub spaces : Regex
spaces = star (cls is_space)

abbrev pub cat : List Regex → Regex
cat [] = eps
cat (r ∷ []) = r
cat (r ∷ s ∷ rs) = seq r (cat (s ∷ rs))

abbrev pub none_of : Text → ℕ → Bool
none_of xs c = not (one_of xs c)

abbrev pub space : Regex
space = cls is_space

abbrev pub word : Regex
word = cls is_word

abbrev pub digit : Regex
digit = cls is_digit

-- (?i) before small letters
abbrev pub any_case : String → Regex
any_case s = small (codes s)
  where
    small : Text → Regex
    small [] = eps
    small (x ∷ t) = seq (cls λ c. c == x || (is_upper c && c + 32 == x)) (small t)

-- the text that a pattern matched, where a search began and ended
abbrev pub matched_text : Cursor × Cursor → Text
matched_text m = between m.0 m.1

abbrev pub text_or_empty : Option Text → Text
text_or_empty none = []
text_or_empty (some t) = t

-- match.group(n), for a group that took part, and '' for one that did not
unfoldable pub group_text : ℕ → Cursor → Text
unfolding group_of
group_text n c = text_or_empty (group_of n c.groups)

-- re.split(r, s), for a pattern with no group: `piece` is the text since the last match, reversed
split_from : Regex → ℕ → Text → Cursor → List Text
unfolding run
split_from r zero piece c = reverse piece ∷ []
split_from r (suc fuel) piece c = elim (head? (run r c)) [
  | some d ↦ reverse piece ∷ split_from r fuel [] (record d { groups = [] })
  | none ↦ elim c.rest [
    | [] ↦ reverse piece ∷ []
    | x ∷ s ↦
        split_from r fuel (x ∷ piece) (record { before = x ∷ c.before; rest = s; groups = [] })
  ]
]

unfoldable pub re_split : Regex → Text → List Text
unfolding split_from
re_split r s = split_from r (suc (length s)) [] (at_start s)
