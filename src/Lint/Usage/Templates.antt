-- ===== src/Lint/Usage/Templates.antt =====
-- The templates of the standard library and their headers, in tools/cpplint.py.
use optimer.Prelude.{List, [], map, ◌++◌, ◌∷◌}
use optimer.Text.{Text, codes}
use optimer.Regex.{
  Regex, alt, any_code, boundary, cat, cls, group, lazy, lit, none_of, one, opt, spaces,
}

-- what is searched for, the name under which it is reported, and its header
pub record Usage : Type 0 where
  pub pattern : Regex
  pub template : Text
  pub header : Text

abbrev headers_containing_templates : List (Text × List Text)
headers_containing_templates =
    (codes "<deque>", codes "deque" ∷ [])
    ∷ (
      codes "<functional>",
      codes "unary_function"
          ∷ codes "binary_function"
          ∷ codes "plus"
          ∷ codes "minus"
          ∷ codes "multiplies"
          ∷ codes "divides"
          ∷ codes "modulus"
          ∷ codes "negate"
          ∷ codes "equal_to"
          ∷ codes "not_equal_to"
          ∷ codes "greater"
          ∷ codes "less"
          ∷ codes "greater_equal"
          ∷ codes "less_equal"
          ∷ codes "logical_and"
          ∷ codes "logical_or"
          ∷ codes "logical_not"
          ∷ codes "unary_negate"
          ∷ codes "not1"
          ∷ codes "binary_negate"
          ∷ codes "not2"
          ∷ codes "bind1st"
          ∷ codes "bind2nd"
          ∷ codes "pointer_to_unary_function"
          ∷ codes "pointer_to_binary_function"
          ∷ codes "ptr_fun"
          ∷ codes "mem_fun_t"
          ∷ codes "mem_fun"
          ∷ codes "mem_fun1_t"
          ∷ codes "mem_fun1_ref_t"
          ∷ codes "mem_fun_ref_t"
          ∷ codes "const_mem_fun_t"
          ∷ codes "const_mem_fun1_t"
          ∷ codes "const_mem_fun_ref_t"
          ∷ codes "const_mem_fun1_ref_t"
          ∷ codes "mem_fun_ref"
          ∷ [],
    )
    ∷ (codes "<limits>", codes "numeric_limits" ∷ [])
    ∷ (codes "<list>", codes "list" ∷ [])
    ∷ (codes "<map>", codes "map" ∷ codes "multimap" ∷ [])
    ∷ (codes "<memory>", codes "allocator" ∷ [])
    ∷ (codes "<queue>", codes "queue" ∷ codes "priority_queue" ∷ [])
    ∷ (codes "<set>", codes "set" ∷ codes "multiset" ∷ [])
    ∷ (codes "<stack>", codes "stack" ∷ [])
    ∷ (codes "<string>", codes "char_traits" ∷ codes "basic_string" ∷ [])
    ∷ (codes "<utility>", codes "pair" ∷ [])
    ∷ (codes "<vector>", codes "vector" ∷ [])
    ∷ (codes "<hash_map>", codes "hash_map" ∷ codes "hash_multimap" ∷ [])
    ∷ (codes "<hash_set>", codes "hash_set" ∷ codes "hash_multiset" ∷ [])
    ∷ (codes "<slist>", codes "slist" ∷ [])
    ∷ []

-- [^>.]\btemplate(<.*?>)?\([^\)]
re_call : Text → Regex
re_call template = cat (
    cls (none_of (codes ">."))
    ∷ boundary
    ∷ lit template
    ∷ opt (group 1 (cat (one b'<' ∷ lazy any_code ∷ one b'>' ∷ [])))
    ∷ one b'('
    ∷ cls (none_of (codes ")"))
    ∷ [])

-- (\<|\b)template\s*\<
re_template : Text → Regex
re_template template =
    cat (group 1 (alt (one b'<') boundary) ∷ lit template ∷ spaces ∷ one b'<' ∷ [])

call_usage : Text → Usage
unfolding re_call
call_usage template = record {
  pattern = re_call template;
  template = template;
  header = codes "<algorithm>";
}

-- _re_pattern_algorithm_header
unfoldable pub algorithm_usages : List Usage
unfolding call_usage
algorithm_usages = map call_usage (
    codes "copy"
    ∷ codes "max"
    ∷ codes "min"
    ∷ codes "min_element"
    ∷ codes "sort"
    ∷ codes "swap"
    ∷ codes "transform"
    ∷ [])

template_usage : Text → Text → Usage
unfolding re_template
template_usage header template = record {
  pattern = re_template template;
  template = template ++ codes "<>";
  header = header;
}

usages_of : List (Text × List Text) → List Usage
unfolding template_usage
usages_of [] = []
usages_of ((header, templates) ∷ rest) = map (template_usage header) templates ++ usages_of rest

-- _re_pattern_templates
unfoldable pub template_usages : List Usage
unfolding usages_of
template_usages = usages_of headers_containing_templates
