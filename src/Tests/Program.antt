-- ===== src/Tests/Program.antt =====
-- Runs of `main` of tools/cpplint.py, with the examples of its theorems.
use optimer.Prelude.{List, [], false, if◌then◌else◌, none, refl, some, ◌∷◌, ◌≡◌, ◌≢◌}
use optimer.Text.{Text, codes, split, strip, text_eq}
use optimer.Regex.{str}
use optimer.Lint.Cleanse.{
  collapse_strings, find_next_multi_line_comment_start, is_cpp_string, opens_comment,
}
use optimer.Lint.Nesting.Update.{apply_token}
use optimer.Lint.Process.{Environment, process_file}
use optimer.Lint.Process.Line.{process_line}
use optimer.Lint.State.{LintState, handle, handle_all, initial}
use optimer.Lint.Arguments.{
  Command, Exit, Parsed, Shell, exits, fails, hangs, main, parse_arguments, parsed,
}
use optimer.Lint.Arguments.Safety.{main-fails}
use optimer.Lint.Arguments.Counts.{Summed, main-Summed}
use optimer.Lint.Nesting.{apply_directive}
use optimer.Tests.Process.{ascii, files}

-- one file with a tab and no copyright, one that is not checked and one that is not there
abbrev environment : Environment
unfolding text_eq
environment = record {
  fs = files;
  unicode = ascii;
  read = λ name.
      if text_eq name (codes "a.cc")
      then some (codes "int\tx;\n")
      else if text_eq name (codes "b.txt")
      then some []
      else none;
  read_lines = λ name. none;
  root = none;
  dos_lines = false;
}

abbrev shell : Shell
shell = record {
  getopt = λ args. some ((codes "--counting", codes "detailed") ∷ [], args);
  int_of = λ val. none;
  pattern_of = λ root. str "";
}

abbrev names : List Text
names = codes "a.cc" ∷ codes "b.txt" ∷ codes "c.cc" ∷ []

main-fails_example : main shell environment (codes "usage") names initial ≢ fails
main-fails_example = main-fails shell environment (codes "usage") names initial

abbrev command_of : Parsed Command → Command
command_of (parsed c) = c
command_of _ = record { filenames = []; root = none; state = initial }

abbrev end_of : Exit → LintState
end_of (exits status t) = t
end_of _ = initial

abbrev command : Command
command = command_of (parse_arguments shell names initial)

abbrev ending : Exit
ending = main shell environment (codes "usage") names initial

arguments_parsed : parse_arguments shell names initial ≡ parsed command
unfolding parse_arguments split strip
arguments_parsed = refl

program_ends : main shell environment (codes "usage") names initial ≡ exits 1 (end_of ending)
unfolding main apply_token apply_directive split strip process_file process_line handle_all handle
    find_next_multi_line_comment_start opens_comment collapse_strings is_cpp_string
program_ends = refl

main-Summed_example : Summed environment command 1 (end_of ending)
main-Summed_example =
    main-Summed shell environment (codes "usage") names initial arguments_parsed program_ends

-- a file that begins with an indented block and a semicolon
abbrev braces_file : Environment
braces_file = record environment { read = λ name. some (codes "  { int x; };\n") }

program_hangs : main shell braces_file (codes "usage") names initial ≡ hangs
unfolding main apply_token apply_directive split strip process_file process_line
    find_next_multi_line_comment_start opens_comment collapse_strings is_cpp_string
program_hangs = refl
