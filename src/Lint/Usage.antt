-- ===== src/Lint/Usage.antt =====
-- `UpdateIncludeState` and `CheckForIncludeWhatYouUse` of tools/cpplint.py. Of the dicts of
-- includes only the keys are read there, and a list of them stands for the dict. The order of a
-- dict is that in which the keys came.
pub mod Templates
pub mod Missing
use mathlib.Core.List.{reverse}
use optimer.Prelude.{
  Bool, List, Option, [], false, if◌then◌else◌, none, not, some, true, ℕ, ◌&&◌, ◌++◌, ◌+◌, ◌||◌,
  ◌∷◌,
}
use optimer.Text.{Text, codes, contains, ends_with, is_empty, member, starts_with, text_eq}
use optimer.Regex.{
  Cursor, Regex, boundary, cat, eol, found, group_text, one_of, re_search, re_sub, str,
}
use optimer.Lint.Event.{Event, complain}
use optimer.Lint.Cleanse.{CleansedLines, cleanse_comments, re_include}
use optimer.Lint.Include.{IncludeState}
use optimer.Lint.SameModule.{common_path, files_belong_to_same_module}
use optimer.Lint.FileInfo.{FileSystem, full_name}
use optimer.Lint.Usage.Templates.{Usage, algorithm_usages, template_usages}

-- the headers that are needed, with the line and the name of the last use
abbrev pub Required : Type 0
Required = List (Text × ℕ × Text)

-- required[header] = (linenum, template)
unfoldable pub require : Text → ℕ → Text → Required → Required
unfolding text_eq
require header linenum template [] = (header, linenum, template) ∷ []
require header linenum template ((h, l, t) ∷ rest) =
    if text_eq h header
    then (header, linenum, template) ∷ rest
    else (h, l, t) ∷ require header linenum template rest

-- \bstring\b
abbrev re_string : Regex
re_string = cat (boundary ∷ str "string" ∷ boundary ∷ [])

-- A `string` behind `::` is that of another namespace, but behind `std::`.
is_std_string : Option (Cursor × Cursor) → Bool
unfolding ends_with
is_std_string none = false
is_std_string (some m) =
    let prefix = reverse m.0.before in
    ends_with prefix (codes "std::") || not (ends_with prefix (codes "::"))

require_found : ℕ → Text → List Usage → Required → Required
unfolding found require
require_found linenum line [] required = required
require_found linenum line (u ∷ us) required =
    require_found linenum line us
      (if found u.pattern line then require u.header linenum u.template required else required)

unfoldable pub require_line : ℕ → Text → Required → Required
unfolding re_search is_std_string require require_found algorithm_usages template_usages contains
require_line linenum line required =
    if is_empty line || starts_with line (codes "#")
    then required
    else (let with_string =
          if is_std_string (re_search re_string line)
          then require (codes "<string>") linenum (codes "string") required
          else required in
        let with_calls = require_found linenum line algorithm_usages with_string in
        if contains line (codes "<")
        then require_found linenum line template_usages with_calls
        else with_calls)

-- the lines from the number `linenum` on
unfoldable pub require_lines : ℕ → List Text → Required → Required
unfolding require_line
require_lines linenum [] required = required
require_lines linenum (line ∷ lines) required =
    require_lines (linenum + 1) lines (require_line linenum line required)

-- include_state.setdefault(include, ...)
unfoldable pub add_include : Text → List Text → List Text
unfolding member
add_include include keys = if member include keys then keys else keys ++ include ∷ []

unfoldable pub include_of : List Text → Option (Cursor × Cursor) → List Text
unfolding add_include group_text
include_of keys none = keys
include_of keys (some m) = add_include (group_text 2 m.1) keys

unfoldable pub read_includes : List Text → List Text → List Text
unfolding include_of cleanse_comments re_search re_include
read_includes [] keys = keys
read_includes (line ∷ lines) keys =
    read_includes lines (include_of keys (re_search re_include (cleanse_comments line)))

-- `none` is an IOError. The second part is True if the file was read.
unfoldable pub update_include_state : Option (List Text) → List Text → List Text × Bool
unfolding read_includes
update_include_state none keys = (keys, false)
update_include_state (some lines) keys = (read_includes lines keys, true)

-- _flymake\.cc$
abbrev pub re_flymake : Regex
re_flymake = cat (str "_flymake.cc" ∷ eol ∷ [])

-- The loop over the keys, with the flag `header_found`; `read` opens a file.
module _ (read : Text → Option (List Text)) where
  unfoldable pub look_for_headers : Text → List Text → List Text → Bool → List Text × Bool
  unfolding files_belong_to_same_module update_include_state
  look_for_headers abs_filename [] keys header_found = (keys, header_found)
  look_for_headers abs_filename (header ∷ headers) keys header_found =
      let (same_module, common_path) = files_belong_to_same_module abs_filename header in
      let (keys', updated) = update_include_state (read (common_path ++ header)) keys in
      look_for_headers abs_filename headers (if same_module then keys' else keys)
        (header_found || (same_module && updated))

-- required_header_unstripped.strip('<>"')
unfoldable pub bare_header : Text → Text
bare_header header = trim (reverse (trim (reverse header)))
  where
    trim : Text → Text
    trim [] = []
    trim (c ∷ s) = if one_of (codes "<>\"") c then trim s else c ∷ s

unfoldable pub missing_events : Text → List Text → Required → List Event
unfolding member bare_header
missing_events filename keys [] = []
missing_events filename keys ((header, linenum, template) ∷ rest) =
    complain filename linenum (not (member (bare_header header) keys)) "build/include_what_you_use"
      4 (codes "Add #include " ++ (header ++ (codes " for " ++ template)))
    ++ missing_events filename keys rest

-- the keys of the include state
abbrev pub included : IncludeState → List Text
included s = keys_of s.lines
  where
    keys_of : List (Text × ℕ) → List Text
    keys_of [] = []
    keys_of ((k, n) ∷ d) = keys_of d ++ k ∷ []

unfoldable pub check_for_include_what_you_use :
    FileSystem → (Text → Option (List Text)) → Text → CleansedLines → IncludeState → List Event
unfolding require_lines full_name re_sub look_for_headers missing_events ends_with
check_for_include_what_you_use fs read filename clean s =
    let required = require_lines 0 clean.elided [] in
    let abs_filename = re_sub re_flymake (codes ".cc") (full_name fs filename) in
    let (keys, header_found) = look_for_headers read abs_filename (included s) (included s) false in
    if ends_with filename (codes ".cc") && not header_found
    then []
    else missing_events filename keys required
