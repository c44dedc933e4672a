-- ===== src/Lib.antt =====
-- Models and proofs for the Python tools of Optimer, the scripts under tools/ that generate solver
-- configurations, run the solver on them, report on the runs, and check the style of the C++ code.
--
-- Parts and files:
-- - Prelude, Text, Result: shared names; Python's strings as lists of codes, with the methods that
--   the tools call, in Text/Unicode those of unicode strings; exceptions as values. OsPath: the
--   functions of `os.path`.
-- - Regex: the `re` module for the patterns of the tools. A pattern is a tree, and matching lists
--   all ways to match in the order of the backtracking matcher, of which the first is the answer.
--   Groups are kept with their last text. A round of a repetition must take a code, so that the
--   length of the rest bounds the rounds; no body of a repetition in the tools matches the empty text.
-- - Generator: tools/config_generator.py. `process` and `process_childs` are the methods of the
--   tree, with the list that they add to passed on; `read_settings` reads the dicts of a settings
--   file, of which the keys that are asked for are modelled.
-- - Runner: tools/pms.py. `run_task` and `run_configs` over an unknown state of the outside, which
--   the processes of the solver, the writing of temporary files, and the reading and unlinking of
--   log files are parameters on; the state is passed on from one to the next. Runner/Session is
--   `main`, which joins the generator, the runner and the report; `yaml` and the time are parameters.
-- - Report: tools/pms_report.py. TaskName is `parse_task_name`, Logs `LineParser` and `LogData`,
--   Tables `build_table_data` and the two tables, Html `HtmlWriter` and `main`. Python's numbers,
--   `json.dumps` and the text of the script are parameters.
-- - Lint: tools/cpplint.py. Event holds what a check does to the outside, calls of the error
--   handler and new suppressions, as a list; State is `_CppLintState`, the suppressions and `Error`,
--   where `none` is a failed `assert`; Include is `_IncludeState`, Function `_FunctionState`,
--   Cleanse the removal of comments and strings, Expression the matching of brackets. Nesting holds
--   the blocks, the checkpoints of preprocessor conditionals and the smaller operations of
--   `_NestingState`, Nesting/Update its `Update`. FileInfo is `FileInfo` and the name that a header
--   guard should have, over a file system that is a parameter; HeaderGuard is the check of the guard.
--   IncludeLine is `_ClassifyInclude` and `CheckIncludeLine`, Angle the search for a matching angle
--   bracket, TextInside `_GetTextInside`, Bodies `CheckForFunctionLengths`, SameModule
--   `FilesBelongToSameModule`, and Lines has the checks of single lines: threads, increments,
--   comments, access labels.
--   Standard, Spacing, Sections, BraceStyle, Macros, Style, Language, Usage and WholeFile hold the
--   other checks, each named for the functions that its first line lists; Language/Casts,
--   Language/Calls, Language/Declarations and Language/Arrays are parts of `CheckLanguage`.
--   Process/Line is `ProcessLine` with the three states of a file, Process `ProcessFileData` and
--   `ProcessFile`, and Arguments `ParseArguments` and `main`. There a run is `endless` where a check
--   does not end, `assertion_error` where an `assert` fails, and `finished` with the state.
-- - Tests: the theorems at concrete inputs, and runs of the definitions.
--
-- Loops over lines and codes are recursions on them; a `while` loop has a number of rounds that is
-- computed from the number of lines or codes left, and each round passes at least one of them. Two
-- loops need not end, and `none` in the result of a check says so: that of `CheckBraces` has passed
-- all lines above after the rounds it is given, and the search of `RepositoryName` goes up at most as
-- often as the name of the directory has codes. Depths that can fall below 0 are differences of two
-- counters. Verbosity, confidence and line numbers are natural numbers.
--
-- `isspace`, `strip` and `split` on the lines of a file are those of unicode strings, with all
-- white space of Unicode. `isalnum`, `isdigit` and the classes of patterns are those of ASCII; codes
-- above 127 are in none of them, nor is other white space in `\s`. A dict is passed through in the
-- order in which its keys came. The tables of `unicodedata`, `getopt`, `int`, the file system, the
-- contents of files and the compilation of --root are parameters.
--
-- Not modelled: the C++ solvers under src/ and tests/, the libraries under contrib/, YAML, processes
-- and their timers. Of tools/cpplint.py: the text of the usage, which is a parameter, the writer
-- that takes the place of stderr, the cache of compiled patterns, and the width of a line that is no
-- unicode string, since `ProcessFile` decodes what it reads.
pub mod Prelude
pub mod Text
pub mod Regex
pub mod OsPath
pub mod Result
pub mod Generator
pub mod Report
pub mod Runner
pub mod Lint
mod Tests
