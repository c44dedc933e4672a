-- ===== src/Lint/Include/Order.antt =====
-- The order of includes that `CheckNextIncludeOrder` accepts.
use optimer.Prelude.{
  Bool, List, Option, [], all, arith, false, if◌then◌else◌, none, refl, some, true, ℕ, ◌&&◌, ◌∙◌,
  ◌∷◌, ◌≡◌, ◌≤◌,
}
use optimer.Lint.Include.{
  HeaderType, IncludeState, c_sys_header, check_next_include_order, cpp_sys_header,
  empty_include_state, likely_my_header, next_section, other_h_section, other_header,
  possible_my_header,
}
use optimer.Text.{is_empty}

-- No header makes the section go back.
pub section-check_next_include_order :
    (h : HeaderType) (s : IncludeState)
    → s.section ≤ other_h_section
    → (s.section ≤ (check_next_include_order h s).0.section)
      × ((check_next_include_order h s).0.section ≤ other_h_section)
unfolding check_next_include_order
section-check_next_include_order c_sys_header s h = ground arith
section-check_next_include_order cpp_sys_header s h = ground arith
section-check_next_include_order likely_my_header s h = ground arith
section-check_next_include_order possible_my_header s h = ground arith
section-check_next_include_order other_header s h = ground arith

-- Whether the headers of a file, one after the other, draw no message.
unfoldable pub quiet : IncludeState → List HeaderType → Bool
quiet s [] = true
quiet s (h ∷ hs) =
    let (s', message) = check_next_include_order h s in is_empty message && quiet s' hs

abbrev is_mine : HeaderType → Bool
is_mine likely_my_header = true
is_mine possible_my_header = true
is_mine _ = false

abbrev is_c : HeaderType → Bool
is_c c_sys_header = true
is_c _ = false

abbrev is_cpp : HeaderType → Bool
is_cpp cpp_sys_header = true
is_cpp _ = false

abbrev not_system : HeaderType → Bool
not_system c_sys_header = false
not_system cpp_sys_header = false
not_system _ = true

skip_while : (HeaderType → Bool) → List HeaderType → List HeaderType
skip_while p [] = []
skip_while p (h ∷ hs) = let rest = skip_while p hs in if p h then rest else h ∷ hs

-- own headers, then C headers, then C++ headers, then headers of which none is a system header
unfoldable pub in_order : List HeaderType → Bool
unfolding skip_while
in_order hs = all not_system (skip_while is_cpp (skip_while is_c (skip_while is_mine hs)))

abbrev is_some : Option ℕ → Bool
is_some none = false
is_some (some n) = true

abbrev or_keep : ℕ → Option ℕ → ℕ
or_keep section none = section
or_keep section (some n) = n

-- `quiet`, on the section alone
quiet_from : ℕ → List HeaderType → Bool
unfolding next_section
quiet_from section [] = true
quiet_from section (h ∷ hs) =
    is_some (next_section h section) && quiet_from (or_keep section (next_section h section)) hs

check-quiet :
    (h : HeaderType) (s : IncludeState)
    → (is_empty (check_next_include_order h s).1 ≡ is_some (next_section h s.section))
      × ((check_next_include_order h s).0.section ≡ or_keep s.section (next_section h s.section))
unfolding check_next_include_order
check-quiet c_sys_header s = ground arith
check-quiet cpp_sys_header s = ground arith
check-quiet likely_my_header s = ground arith
check-quiet possible_my_header s = ground arith
check-quiet other_header s = ground arith

quiet-quiet_from : (s : IncludeState) (hs : List HeaderType) → quiet s hs ≡ quiet_from s.section hs
unfolding quiet quiet_from
quiet-quiet_from s [] = refl
quiet-quiet_from s (h ∷ hs) =
    cc (
      (check-quiet h s).0,
      (check-quiet h s).1,
      quiet-quiet_from (check_next_include_order h s).0 hs,
    )

from_other : (hs : List HeaderType) → quiet_from 4 hs ≡ all not_system hs
unfolding quiet_from
from_other [] = refl
from_other (c_sys_header ∷ hs) = refl
from_other (cpp_sys_header ∷ hs) = refl
from_other (likely_my_header ∷ hs) = from_other hs
from_other (possible_my_header ∷ hs) = from_other hs
from_other (other_header ∷ hs) = from_other hs

from_cpp : (hs : List HeaderType) → quiet_from 3 hs ≡ all not_system (skip_while is_cpp hs)
unfolding quiet_from skip_while
from_cpp [] = refl
from_cpp (c_sys_header ∷ hs) = refl
from_cpp (cpp_sys_header ∷ hs) = from_cpp hs
from_cpp (likely_my_header ∷ hs) = from_other hs
from_cpp (possible_my_header ∷ hs) = from_other hs
from_cpp (other_header ∷ hs) = from_other hs

from_c :
    (hs : List HeaderType)
    → quiet_from 2 hs ≡ all not_system (skip_while is_cpp (skip_while is_c hs))
unfolding quiet_from skip_while
from_c [] = refl
from_c (c_sys_header ∷ hs) = from_c hs
from_c (cpp_sys_header ∷ hs) = from_cpp hs
from_c (likely_my_header ∷ hs) = from_other hs
from_c (possible_my_header ∷ hs) = from_other hs
from_c (other_header ∷ hs) = from_other hs

from_mine : (hs : List HeaderType) → quiet_from 1 hs ≡ in_order hs
unfolding quiet_from in_order
from_mine [] = refl
from_mine (c_sys_header ∷ hs) = from_c hs
from_mine (cpp_sys_header ∷ hs) = from_cpp hs
from_mine (likely_my_header ∷ hs) = from_mine hs
from_mine (possible_my_header ∷ hs) = from_mine hs
from_mine (other_header ∷ hs) = from_other hs

from_initial : (hs : List HeaderType) → quiet_from 0 hs ≡ in_order hs
unfolding quiet_from in_order
from_initial [] = refl
from_initial (c_sys_header ∷ hs) = from_c hs
from_initial (cpp_sys_header ∷ hs) = from_cpp hs
from_initial (likely_my_header ∷ hs) = from_mine hs
from_initial (possible_my_header ∷ hs) = from_mine hs
from_initial (other_header ∷ hs) = from_other hs

-- From the state of a new file, the headers draw no message exactly when they stand in the order:
-- own headers, C system headers, C++ system headers, headers of which none is a system header.
pub quiet-in_order : (hs : List HeaderType) → quiet empty_include_state hs ≡ in_order hs
quiet-in_order hs = quiet-quiet_from empty_include_state hs ∙ from_initial hs
