-- ===== src/OsPath.antt =====
-- The functions of Python's `os.path`, for `/` paths, that tools/*.py call.
use optimer.Prelude.{
  Bool, List, Option, [], false, if◌then◌else◌, none, not, some, ◌&&◌, ◌++◌, ◌==◌, ◌||◌, ◌∷◌,
}
use optimer.Text.{Text, codes, ends_with, is_empty, join, split, starts_with, text_eq}
use mathlib.Core.List.{reverse}

-- the codes up to the first `/`, and the rest from there on
before_slash : Text → Text
before_slash [] = []
before_slash (c ∷ s) = let rest = before_slash s in if c == b'/' then [] else c ∷ rest

from_slash : Text → Text
from_slash [] = []
from_slash (c ∷ s) = if c == b'/' then c ∷ s else from_slash s

strip_slashes : Text → Text
strip_slashes [] = []
strip_slashes (c ∷ s) = if c == b'/' then strip_slashes s else c ∷ s

-- The slashes that end a head go, unless it is all slashes.
trim_head : Text → Text
trim_head head = let r = reverse (strip_slashes (reverse head)) in if is_empty r then head else r

-- the part behind the last slash
unfoldable pub basename : Text → Text
unfolding before_slash
basename p = reverse (before_slash (reverse p))

-- the part up to the last slash, with the slash
unfoldable pub head : Text → Text
unfolding from_slash
head p = reverse (from_slash (reverse p))

unfoldable pub dirname : Text → Text
unfolding trim_head strip_slashes
dirname p = trim_head (head p)

-- whether a text has a code other than `.` (a file name is more than its leading dots)
abbrev has_other : Text → Bool
has_other [] = false
has_other (c ∷ s) = not (c == b'.') || has_other s

-- The extension of a reversed last part: its codes up to the first dot, if more than dots follow.
ext_of : Text → Text → Option (Text × Text)
ext_of seen [] = none
ext_of seen (c ∷ s) =
    if c == b'.'
    then (if has_other s then some (reverse s, c ∷ seen) else none)
    else ext_of (c ∷ seen) s

-- (root, ext)
unfoldable pub splitext : Text → Text × Text
unfolding ext_of
splitext p = elim (ext_of [] (reverse (basename p))) [
  | none ↦ (p, [])
  | some (root, ext) ↦ (head p ++ root, ext)
]

-- a / b
unfoldable pub path_join : Text → Text → Text
unfolding starts_with ends_with
path_join a b =
    if starts_with b (codes "/")
    then b
    else if is_empty a || ends_with a (codes "/")
    then a ++ b
    else a ++ b'/' ∷ b

-- the parts of a path without empty ones, `.` and what `..` takes back; the last part stands first
norm_parts : Bool → List Text → List Text → List Text
unfolding text_eq
norm_parts rooted kept [] = kept
norm_parts rooted [] (p ∷ ps) =
    if is_empty p || (text_eq p (codes ".") || (rooted && text_eq p (codes "..")))
    then norm_parts rooted [] ps
    else norm_parts rooted (p ∷ []) ps
norm_parts rooted (k ∷ kept) (p ∷ ps) =
    let up = text_eq p (codes "..") && not (text_eq k (codes "..")) in
    norm_parts rooted
      (if is_empty p || text_eq p (codes ".") then k ∷ kept else if up then kept else p ∷ k ∷ kept)
      ps

leading_slashes : Text → Text
unfolding starts_with
leading_slashes p =
    if starts_with p (codes "//") && not (starts_with p (codes "///"))
    then codes "//"
    else if starts_with p (codes "/")
    then codes "/"
    else []

unfoldable pub normpath : Text → Text
unfolding norm_parts leading_slashes split join
normpath p =
    let start = leading_slashes p in
    let path =
      start ++ join (codes "/") (reverse (norm_parts (not (is_empty start)) [] (split b'/' p))) in
    if is_empty path then codes "." else path

-- os.path.commonprefix([a, b])
unfoldable pub commonprefix : Text → Text → Text
commonprefix [] b = []
commonprefix (x ∷ a) [] = []
commonprefix (x ∷ a) (y ∷ b) = let rest = commonprefix a b in if x == y then x ∷ rest else []
