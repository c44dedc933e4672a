-- ===== src/Lint/FileInfo.antt =====
-- `FileInfo` and the header guard's name in tools/cpplint.py. The file system is a parameter.
use mathlib.Core.List.{reverse}
use mathlib.Core.Option
use optimer.Prelude.{
  Bool, Option, [], drop, if◌then◌else◌, length, none, not, some, suc, zero, ℕ, ◌&&◌, ◌++◌, ◌+◌,
  ◌==◌, ◌||◌, ◌∷◌,
}
use optimer.Text.{Text, codes, is_space, join, member, replace, text_eq, upper}
use optimer.Regex.{
  Regex, bol, cat, cls, eol, group, group_of, one, one_of, re_search, re_sub, seq, star, str,
}
use optimer.OsPath.{basename, commonprefix, dirname, path_join, splitext}

pub record FileSystem : Type 0 where
  pub abspath : Text → Text
  pub exists : Text → Bool

module _ (fs : FileSystem) where
  open fs use {abspath, exists}

  unfoldable pub full_name : Text → Text
  unfolding replace
  full_name filename = replace (abspath filename) (codes "\\") (codes "/")

  has_entry : Text → Text → Bool
  unfolding path_join
  has_entry dir entry = exists (path_join dir entry)

  -- The top of an SVN checkout: `one_up_dir` is the directory above `root_dir`. `none` where the
  -- loop does not end; a round that goes on at a directory of no shorter name would repeat for ever.
  svn_loop : ℕ → Text → Text → Option Text
  unfolding has_entry dirname
  svn_loop zero root_dir one_up_dir = none
  svn_loop (suc fuel) root_dir one_up_dir =
      let up = svn_loop fuel (dirname root_dir) (dirname one_up_dir) in
      if has_entry one_up_dir (codes ".svn") then up else some root_dir

  is_top : Text → Bool
  unfolding has_entry
  is_top dir =
      has_entry dir (codes ".git") || (has_entry dir (codes ".hg") || has_entry dir (codes ".svn"))

  -- The loop ends at a directory that is its own parent.
  top_loop : ℕ → Text → Text
  unfolding is_top dirname text_eq
  top_loop zero root_dir = root_dir
  top_loop (suc fuel) root_dir =
      let up = top_loop fuel (dirname root_dir) in
      if not (text_eq root_dir (dirname root_dir)) && not (is_top root_dir) then up else root_dir

  -- fullname[len(prefix) + 1:]
  behind : Text → Text → Text → Text
  unfolding commonprefix
  behind fullname root_dir project_dir =
      drop (length (commonprefix root_dir project_dir) + 1) fullname

  under_top : Text → Text → Text → Text
  unfolding behind is_top
  under_top fullname project_dir root_dir =
      if is_top root_dir then behind fullname root_dir project_dir else fullname

  name_in_repository : Text → Option Text
  unfolding svn_loop top_loop under_top
  name_in_repository fullname =
      let project_dir = dirname fullname in
      if not (exists fullname)
      then some fullname
      else if has_entry project_dir (codes ".svn")
      then Option.map (λ root. behind fullname root project_dir)
          (svn_loop (suc (length project_dir)) project_dir (dirname project_dir))
      else some (under_top fullname project_dir (top_loop (length project_dir) project_dir))

  unfoldable pub repository_name : Text → Option Text
  unfolding full_name name_in_repository
  repository_name filename = name_in_repository (full_name filename)

  -- (directory, basename, extension)
  unfoldable pub split_name : Text → Option (Text × Text × Text)
  unfolding repository_name basename splitext
  split_name filename =
      Option.map (λ name. let (root, ext) = splitext (basename name) in (dirname name, root, ext))
        (repository_name filename)

  unfoldable pub base_name : Text → Option Text
  unfolding split_name
  base_name filename = Option.map (λ (p : Text × Text × Text). p.1) (split_name filename)

  unfoldable pub extension : Text → Option Text
  unfolding split_name
  extension filename = Option.map (λ (p : Text × Text × Text). p.2) (split_name filename)

  unfoldable pub no_extension : Text → Option Text
  unfolding split_name join
  no_extension filename =
      Option.map (λ (p : Text × Text × Text). join (codes "/") (p.0 ∷ p.1 ∷ []))
        (split_name filename)

  unfoldable pub is_source : Text → Option Bool
  unfolding extension member
  is_source filename =
      Option.map
        (λ ext. member (drop 1 ext) (codes "c" ∷ codes "cc" ∷ codes "cpp" ∷ codes "cxx" ∷ []))
        (extension filename)

  -- _flymake\.h$
  flymake_header : Regex
  flymake_header = seq (str "_flymake.h") eol

  -- /\.flymake/([^/]*)$
  flymake_directory : Regex
  flymake_directory = cat (str "/.flymake/" ∷ group 1 (star (cls λ c. not (c == b'/'))) ∷ eol ∷ [])

  abbrev kept : Option Text → Text
  kept none = []
  kept (some t) = t

  -- re.sub(r'/\.flymake/([^/]*)$', r'/\1', filename): there is one match at most.
  without_flymake_directory : Text → Text
  unfolding flymake_directory re_search group_of
  without_flymake_directory filename = elim (re_search flymake_directory filename) [
    | none ↦ filename
    | some m ↦ reverse m.0.before ++ (b'/' ∷ kept (group_of 1 m.1.groups) ++ m.1.rest)
  ]

  -- the name below the directory of --root, whose text is read as a pattern
  below_root : Option Regex → Text → Text
  unfolding re_sub
  below_root none path = path
  below_root (some root) path = re_sub (cat (bol ∷ root ∷ one b'/' ∷ [])) [] path

  unfoldable pub get_header_guard_cpp_variable : Option Regex → Text → Option Text
  unfolding flymake_header without_flymake_directory below_root re_sub upper repository_name
  get_header_guard_cpp_variable root filename =
      Option.map
        (λ path.
          upper (
            re_sub (cls λ c. one_of (codes "-./") c || is_space c) (codes "_")
              (below_root root path))
          ++ codes "_")
        (repository_name (without_flymake_directory (re_sub flymake_header (codes ".h") filename)))
