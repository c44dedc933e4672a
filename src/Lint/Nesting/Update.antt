-- ===== src/Lint/Nesting/Update.antt =====
-- `_NestingState.Update` of tools/cpplint.py.
use optimer.Prelude.{
  Bool, List, [], drop, false, if◌then◌else◌, length, none, not, some, suc, true, zero, ℕ, ◌&&◌,
  ◌++◌, ◌+◌, ◌==◌, ◌||◌, ◌∷◌,
}
use optimer.Text.{Text, codes, find, is_space, is_upper}
use optimer.Regex.{
  Cursor, Regex, alt, any_code, bol, boundary, cat, cls, eol, group, group_of, is_word, matches,
  one, one_of, opt, plus, re_match, seq, spaces, star, str, text_or_empty, words_of,
}
use optimer.Lint.Event.{Event}
use optimer.Lint.Cleanse.{CleansedLines, line_at}
use optimer.Lint.Expression.{count_code}
use optimer.Lint.Nesting.{
  AsmState, BlockInfo, Kind, NestingState, block_asm, check_begin, check_end, class_info, end_asm,
  inside_asm, namespace_info, new_block, new_class, no_asm, plain, update_preprocessor,
}

-- ^\s*(?:asm|_asm|__asm|__asm__)(?:\s+(volatile|__volatile__))?\s*[{(]
unfoldable pub re_match_asm : Regex
re_match_asm = cat (
    bol
    ∷ spaces
    ∷ words_of (codes "asm" ∷ codes "_asm" ∷ codes "__asm" ∷ codes "__asm__" ∷ [])
    ∷ opt (seq (plus (cls is_space)) (group 1 (alt (str "volatile") (str "__volatile__"))))
    ∷ spaces
    ∷ cls (one_of (codes "{("))
    ∷ [])

next_asm : Text → Bool → ℕ → ℕ → AsmState → AsmState
unfolding re_match_asm matches
next_asm line changed opened closed no_asm =
    if changed && (opened == closed + 1 && matches re_match_asm line) then inside_asm else no_asm
next_asm line changed opened closed end_asm =
    if changed && (opened == closed + 1 && matches re_match_asm line) then inside_asm else no_asm
next_asm line changed opened closed inside_asm = if opened == closed then end_asm else inside_asm
next_asm line changed opened closed block_asm = block_asm

-- the parentheses of the line, for the innermost block
unfoldable pub count_parentheses : Text → List BlockInfo → List BlockInfo
unfolding next_asm count_code
count_parentheses line [] = []
count_parentheses line (b ∷ bs) =
    let o = count_code b'(' line in
    let c = count_code b')' line in
    record b {
      opened = b.opened + o;
      closed = b.closed + c;
      inline_asm = next_asm line (not (o == c)) (b.opened + o) (b.closed + c) b.inline_asm;
    }
    ∷ bs

-- ^\s*namespace\b\s*([:\w]+)?(.*)$
re_namespace : Regex
re_namespace = cat (
    bol
    ∷ spaces
    ∷ str "namespace"
    ∷ boundary
    ∷ spaces
    ∷ opt (group 1 (plus (cls λ c. c == b':' || is_word c)))
    ∷ group 2 (star any_code)
    ∷ eol
    ∷ [])

-- the block of a namespace, and the rest of its line
enter_namespace : ℕ → Cursor → BlockInfo × Text
unfolding find group_of
enter_namespace linenum m =
    let kind = namespace_info (text_or_empty (group_of 1 m.groups)) linenum in
    let line = text_or_empty (group_of 2 m.groups) in
    elim (find line (codes "{")) [
      | none ↦ (new_block false kind, line)
      | some i ↦ (new_block true kind, drop (i + 1) line)
    ]

-- Each round takes the word `namespace` off the line.
namespace_loop : ℕ → ℕ → Text → List BlockInfo → List BlockInfo × Text
unfolding re_namespace re_match enter_namespace
namespace_loop zero linenum line stack = (stack, line)
namespace_loop (suc fuel) linenum line stack = elim (re_match re_namespace line) [
  | none ↦ (stack, line)
  | some m ↦
      let (b, rest) = enter_namespace linenum m in namespace_loop fuel linenum rest (b ∷ stack)
]

-- \s*(template\s*<[\w\s<>,:]*>\s*)?(class|struct)\s+([A-Z_]+\s+)*(\w+(?:::\w+)*)(([^=>]|<[^<>]*>)*)$
re_class : Regex
re_class = cat (
    spaces
    ∷ opt (
        group 1 (
          cat (
            str "template"
            ∷ spaces
            ∷ one b'<'
            ∷ star (cls λ c. is_word c || (is_space c || one_of (codes "<>,:") c))
            ∷ one b'>'
            ∷ spaces
            ∷ [])))
    ∷ group 2 (alt (str "class") (str "struct"))
    ∷ plus (cls is_space)
    ∷ star (group 3 (seq (plus (cls λ c. is_upper c || c == b'_')) (plus (cls is_space))))
    ∷ group 4 (seq (plus (cls is_word)) (star (seq (str "::") (plus (cls is_word)))))
    ∷ group 5 (
        star (
          group 6 (
            alt (cls λ c. not (one_of (codes "=>") c))
              (cat (one b'<' ∷ star (cls λ c. not (one_of (codes "<>") c)) ∷ one b'>' ∷ [])))))
    ∷ eol
    ∷ [])

abbrev no_open_parentheses : List BlockInfo → Bool
no_open_parentheses [] = true
no_open_parentheses (b ∷ bs) = b.opened == b.closed

enter_class : CleansedLines → ℕ → Text → List BlockInfo → List BlockInfo × Text
unfolding re_class re_match new_class group_of
enter_class clean linenum line stack = elim (re_match re_class line) [
  | none ↦ (stack, line)
  | some m ↦
      if no_open_parentheses stack
      then (
        new_class (text_or_empty (group_of 4 m.groups)) (text_or_empty (group_of 2 m.groups)) clean
              linenum
            ∷ stack,
        text_or_empty (group_of 5 m.groups),
      )
      else (stack, line)
]

begin_top : Text → List BlockInfo → List BlockInfo
unfolding check_begin
begin_top line [] = []
begin_top line (b ∷ bs) = if b.seen_open_brace then b ∷ bs else check_begin line b ∷ bs

-- \s*(public|private|protected)\s*:
re_access : Regex
re_access = cat (
    spaces
    ∷ group 1 (words_of (codes "public" ∷ codes "private" ∷ codes "protected" ∷ []))
    ∷ spaces
    ∷ one b':'
    ∷ [])

set_access : Text → Kind → Kind
set_access access (class_info name start derived old end) = class_info name start derived access end
set_access access k = k

access_top : Text → List BlockInfo → List BlockInfo
unfolding re_access re_match set_access group_of
access_top line [] = []
access_top line (b ∷ bs) = elim (re_match re_access line) [
  | none ↦ b ∷ bs
  | some m ↦ record b { kind = set_access (text_or_empty (group_of 1 m.groups)) b.kind } ∷ bs
]

-- ^[^{;)}]*([{;)}])(.*)$
re_brace : Regex
re_brace = cat (
    bol
    ∷ star (cls λ c. not (one_of (codes "{;)}") c))
    ∷ group 1 (cls (one_of (codes "{;)}")))
    ∷ group 2 (star any_code)
    ∷ eol
    ∷ [])

open_block : Bool → List BlockInfo → List BlockInfo
open_block asm [] =
    record (new_block true plain) { inline_asm = if asm then block_asm else no_asm } ∷ []
open_block asm (b ∷ bs) =
    if b.seen_open_brace
    then record (new_block true plain) { inline_asm = if asm then block_asm else no_asm } ∷ b ∷ bs
    else record b { seen_open_brace = true } ∷ bs

drop_head : List BlockInfo → List BlockInfo
drop_head [] = []
drop_head (b ∷ bs) = if b.seen_open_brace then b ∷ bs else bs

-- the top of the stack, where a block ends
close_block : Text → CleansedLines → ℕ → List BlockInfo → List BlockInfo × List Event
unfolding check_end
close_block filename clean linenum [] = ([], [])
close_block filename clean linenum (b ∷ bs) = (bs, check_end filename clean linenum b)

-- one token of the line
unfoldable pub apply_token :
    Text → CleansedLines → ℕ → Text → ℕ → List BlockInfo → List BlockInfo × List Event
unfolding open_block drop_head close_block re_match_asm matches
apply_token filename clean linenum line token stack =
    if token == b'{'
    then (open_block (matches re_match_asm line) stack, [])
    else if token == b';' || token == b')'
    then (drop_head stack, [])
    else close_block filename clean linenum stack

abbrev first_code : Text → ℕ
first_code [] = 0
first_code (c ∷ s) = c

-- Each round takes a token off the line.
brace_loop : Text → CleansedLines → ℕ → ℕ → Text → List BlockInfo → List BlockInfo × List Event
unfolding re_brace re_match group_of
brace_loop filename clean linenum zero line stack = (stack, [])
brace_loop filename clean linenum (suc fuel) line stack = elim (re_match re_brace line) [
  | none ↦ (stack, [])
  | some m ↦
      let token = first_code (text_or_empty (group_of 1 m.groups)) in
      let (stack', events) = apply_token filename clean linenum line token stack in
      let (stack'', more) =
        brace_loop filename clean linenum fuel (text_or_empty (group_of 2 m.groups)) stack' in
      (stack'', events ++ more)
]

-- what follows the preprocessor's part, on the stack
unfoldable pub update_stack :
    Text → CleansedLines → ℕ → List BlockInfo → List BlockInfo × List Event
unfolding count_parentheses namespace_loop enter_class begin_top access_top brace_loop
update_stack filename clean linenum stack =
    let line = line_at clean.elided linenum in
    let (stack1, line1) =
      namespace_loop (suc (length line)) linenum line (count_parentheses line stack) in
    let (stack2, line2) = enter_class clean linenum line1 stack1 in
    let stack3 = access_top line2 (begin_top line stack2) in
    brace_loop filename clean linenum (suc (length line2)) line2 stack3

unfoldable pub update : Text → CleansedLines → ℕ → NestingState → NestingState × List Event
unfolding update_stack update_preprocessor
update filename clean linenum s =
    let t = update_preprocessor (line_at clean.elided linenum) s in
    let (stack, events) = update_stack filename clean linenum t.stack in
    (record t { stack = stack }, events)
