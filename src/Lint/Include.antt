-- ===== src/Lint/Include.antt =====
-- `_IncludeState` of tools/cpplint.py: the order in which a file includes its headers.
pub mod Order
use optimer.Prelude.{
  Bool, List, Option, [], false, if◌then◌else◌, leb, none, some, suc, true, zero, ℕ, ◌++◌, ◌==◌,
}
use optimer.Text.{Text, codes, lower, replace, text_lt}

-- the types of headers, as _XXX_HEADER
pub data HeaderType : Type 0 where
  c_sys_header : HeaderType
  cpp_sys_header : HeaderType
  likely_my_header : HeaderType
  possible_my_header : HeaderType
  other_header : HeaderType

abbrev pub initial_section : ℕ
initial_section = 0

abbrev pub my_h_section : ℕ
my_h_section = 1

abbrev pub c_section : ℕ
c_section = 2

abbrev pub cpp_section : ℕ
cpp_section = 3

abbrev pub other_h_section : ℕ
other_h_section = 4

-- The dict part of the object holds the line of each include.
pub record IncludeState : Type 0 where
  pub section : ℕ
  pub last_header : Text
  pub lines : List (Text × ℕ)

abbrev pub empty_include_state : IncludeState
empty_include_state = record { section = initial_section; last_header = []; lines = [] }

type_name : HeaderType → Text
type_name c_sys_header = codes "C system header"
type_name cpp_sys_header = codes "C++ system header"
type_name likely_my_header = codes "header this file implements"
type_name possible_my_header = codes "header this file may implement"
type_name other_header = codes "other header"

section_name : ℕ → Text
section_name zero = codes "... nothing. (This can't be an error.)"
section_name (suc zero) = codes "a header this file implements"
section_name (suc (suc zero)) = codes "C system header"
section_name (suc (suc (suc zero))) = codes "C++ system header"
section_name (suc (suc (suc (suc n)))) = codes "other header"

unfoldable pub canonicalize_alphabetical_order : Text → Text
unfolding replace lower
canonicalize_alphabetical_order header_path =
    lower (replace (replace header_path (codes "-inl.h") (codes ".h")) (codes "-") (codes "_"))

unfoldable pub is_in_alphabetical_order : Text → IncludeState → IncludeState × Bool
unfolding text_lt
is_in_alphabetical_order header_path s =
    let canonical_header = canonicalize_alphabetical_order header_path in
    if text_lt canonical_header s.last_header
    then (s, false)
    else (record s { last_header = canonical_header }, true)

-- the section after a header, or `none` where the header comes too late
next_section : HeaderType → ℕ → Option ℕ
next_section c_sys_header section = if leb section c_section then some c_section else none
next_section cpp_sys_header section = if leb section cpp_section then some cpp_section else none
next_section likely_my_header section =
    if leb section my_h_section then some my_h_section else some other_h_section
next_section possible_my_header section =
    if leb section my_h_section then some my_h_section else some other_h_section
next_section other_header section = some other_h_section

enter_section : Text → Option ℕ → IncludeState → IncludeState × Text
enter_section error_message none s = (record s { last_header = [] }, error_message)
enter_section error_message (some section) s = (
  record s { section = section; last_header = if s.section == section then s.last_header else [] },
  [],
)

-- The second part is the error message, empty if the header is in order.
unfoldable pub check_next_include_order : HeaderType → IncludeState → IncludeState × Text
unfolding next_section enter_section type_name section_name
check_next_include_order header_type s =
    enter_section
      (codes "Found " ++ type_name header_type ++ codes " after " ++ section_name s.section)
      (next_section header_type s.section) s
