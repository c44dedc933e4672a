-- ===== src/Lint/Usage/Missing.antt =====
-- What `CheckForIncludeWhatYouUse` of tools/cpplint.py does not report.
use optimer.Prelude.{
  Bool, Bool-cases, List, Option, [], arith, false, if◌then◌else◌, inl, inr, none, not, refl, some,
  true, ℕ, ◌&&◌, ◌++◌, ◌∷◌, ◌≡◌,
}
use optimer.Text.{Text, codes, ends_with, member}
use optimer.Regex.{Cursor, re_sub}
use optimer.Lint.SameModule.{common_path, files_belong_to_same_module}
use optimer.Lint.Event.{Event, report}
use optimer.Lint.Cleanse.{CleansedLines}
use optimer.Lint.Include.{IncludeState}
use optimer.Lint.FileInfo.{FileSystem, full_name}
use optimer.Lint.Usage.{
  Required, add_include, bare_header, check_for_include_what_you_use, include_of, included,
  look_for_headers, missing_events, re_flymake, read_includes, require_lines, update_include_state,
}

module _ (k : Text) where
  member-append : (xs ys : List Text) → member k xs ≡ true → member k (xs ++ ys) ≡ true
  unfolding member
  member-append [] ys h = cc
  member-append (x ∷ xs) ys h = ground (arith, member-append xs ys)

  member-add_include :
      (include : Text) (keys : List Text)
      → member k keys ≡ true
      → member k (add_include include keys) ≡ true
  unfolding add_include
  member-add_include include keys h = ground (arith, h, member-append keys (include ∷ []) h)

  member-include_of :
      (keys : List Text) (m : Option (Cursor × Cursor))
      → member k keys ≡ true
      → member k (include_of keys m) ≡ true
  unfolding include_of
  member-include_of keys none h = h
  member-include_of keys (some m) h = member-add_include _ keys h

  member-read_includes :
      (lines keys : List Text) → member k keys ≡ true → member k (read_includes lines keys) ≡ true
  unfolding read_includes
  member-read_includes [] keys h = h
  member-read_includes (line ∷ lines) keys h =
      member-read_includes lines _ (member-include_of keys _ h)

  member-update_include_state :
      (file : Option (List Text)) (keys : List Text)
      → member k keys ≡ true
      → member k (update_include_state file keys).0 ≡ true
  unfolding update_include_state
  member-update_include_state none keys h = h
  member-update_include_state (some lines) keys h = member-read_includes lines keys h

  -- The keys that are there stay.
  member-look_for_headers :
      (read : Text → Option (List Text)) (abs_filename : Text) (headers keys : List Text) (b : Bool)
      → member k keys ≡ true
      → member k (look_for_headers read abs_filename headers keys b).0 ≡ true
  unfolding look_for_headers
  member-look_for_headers read abs_filename [] keys b h = h
  member-look_for_headers read abs_filename (header ∷ headers) keys b h =
      let (same_module, common_path) = files_belong_to_same_module abs_filename header in
      let (keys', updated) = update_include_state (read (common_path ++ header)) keys in
      let kept = member-update_include_state (read (common_path ++ header)) keys h in
      member-look_for_headers read abs_filename headers (if same_module then keys' else keys) _
        (ground (arith, h, kept))

-- A report of a header that is needed and that the file does not include itself.
unfoldable pub IsMissing : Text → List Text → Event → Type 0
IsMissing filename keys e =
    (header : Text) × (linenum : ℕ) × (template : Text) × (e
      ≡ report filename linenum (codes "build/include_what_you_use") 4
          (codes "Add #include " ++ (header ++ (codes " for " ++ template))))
    × (member (bare_header header) keys ≡ false)

unfoldable pub AllMissing : Text → List Text → List Event → Type 0
unfolding IsMissing
AllMissing filename keys [] = Unit
AllMissing filename keys (e ∷ es) = IsMissing filename keys e × AllMissing filename keys es

missing_events-AllMissing :
    (filename : Text) (included_keys keys : List Text) (required : Required)
    → ((k : Text) → member k included_keys ≡ true → member k keys ≡ true)
    → AllMissing filename included_keys (missing_events filename keys required)
unfolding AllMissing missing_events
missing_events-AllMissing filename included_keys keys [] more = tt
missing_events-AllMissing filename included_keys keys ((header, linenum, template) ∷ rest) more =
    let others = missing_events-AllMissing filename included_keys keys rest more in
    elim (Bool-cases (member (bare_header header) keys)) [
      | inl there ↦ rw there others
      | inr absent ↦
          let own : member (bare_header header) included_keys ≡ false =
            ground (arith, absent, more (bare_header header)) in
          rw absent ((header, linenum, template, refl, own), others)
    ]

-- Every event of the check is the report of a header of which the name, without the brackets or
-- quotes, is not among the keys of the include state.
pub check_for_include_what_you_use-AllMissing :
    (fs : FileSystem) (read : Text → Option (List Text)) (filename : Text) (clean : CleansedLines)
    (s : IncludeState)
    → AllMissing filename (included s) (check_for_include_what_you_use fs read filename clean s)
unfolding check_for_include_what_you_use
check_for_include_what_you_use-AllMissing fs read filename clean s =
    let required = require_lines 0 clean.elided [] in
    let abs_filename = re_sub re_flymake (codes ".cc") (full_name fs filename) in
    let (keys, header_found) = look_for_headers read abs_filename (included s) (included s) false in
    elim (Bool-cases (ends_with filename (codes ".cc") && not header_found)) [
      | inl stops ↦ rw (check_for_include_what_you_use, stops) (unfold AllMissing in tt)
      | inr goes ↦
          rw (check_for_include_what_you_use, goes)
            (missing_events-AllMissing filename (included s) keys required
              λ k h. member-look_for_headers k read abs_filename (included s) (included s) false h)
    ]
