-- ===== src/Report/TaskName/Entries.antt =====
-- A task name that tools/config_generator.py has made gives its properties back.
use optimer.Prelude.{
  Bool, List, [], any, arith, false, if◌then◌else◌, refl, some, ◌++◌, ◌∙◌, ◌∷◌, ◌≡◌, ◌≢◌,
}
use optimer.Text.{Text, split, strip, text_eq}
use optimer.Text.Laws.{
  AllWithout, Without, split-Without, split-append, split-join, text_eq_iff, text_eq_refl,
}
use optimer.Generator.{config_name}
use optimer.Report.TaskName.{Dict, add_entries, add_entry, entries_of, insert, lookup}

pub lookup-insert {ℓ} :
    {V : Type ℓ} (key k : Text) (v : V) (d : Dict V)
    → lookup key (insert k v d) ≡ (if text_eq k key then some v else lookup key d)
unfolding lookup insert
lookup-insert key k v [] = refl
lookup-insert key k v ((j, w) ∷ d) =
    ground (arith, lookup-insert key k v d, text_eq_iff j k, text_eq_iff j key, text_eq_iff k key)

-- whether the line gives a value for the key
abbrev gives : Text → List Text → Bool
gives key (k ∷ v ∷ []) = text_eq (strip k) key
gives key _ = false

abbrev pub sets_key : Text → Text → Bool
sets_key key line = gives key (split b'=' line)

lookup-add_entry :
    (key : Text) (parts : List Text) (entries : Dict Text)
    → gives key parts ≡ false
    → lookup key (add_entry parts entries) ≡ lookup key entries
unfolding add_entry
lookup-add_entry key [] entries h = refl
lookup-add_entry key (k ∷ []) entries h = refl
lookup-add_entry key (k ∷ v ∷ []) entries h = rw (lookup-insert, h)
lookup-add_entry key (k ∷ v ∷ w ∷ ws) entries h = refl

lookup-add_entries :
    (key : Text) (lines : List Text) (entries : Dict Text)
    → any (sets_key key) lines ≡ false
    → lookup key (add_entries lines entries) ≡ lookup key entries
unfolding add_entries
lookup-add_entries key [] entries h = refl
lookup-add_entries key (line ∷ lines) entries h =
    let next = add_entry (split b'=' line) entries in
    lookup-add_entries key lines next (ground (arith, h))
    ∙ lookup-add_entry key (split b'=' line) entries (ground (arith, h))

add_entries-append :
    (xs ys : List Text) (entries : Dict Text)
    → add_entries (xs ++ ys) entries ≡ add_entries ys (add_entries xs entries)
unfolding add_entries
add_entries-append [] ys entries = refl
add_entries-append (x ∷ xs) ys entries = add_entries-append xs ys (add_entry (split b'=' x) entries)

abbrev pub property_line : Text → Text → Text
property_line key value = key ++ b'=' ∷ value

AllWithout-split_name :
    (lines : List Text)
    → lines ≢ []
    → AllWithout b':' lines
    → split b':' (config_name (record { lines = lines })) ≡ lines
unfolding config_name
AllWithout-split_name [] ne h = absurd (ne refl)
AllWithout-split_name (t ∷ ts) ne h = split-join b':' t ts h.0 h.1

append-ne-nil : (xs : List Text) (y : Text) (ys : List Text) → xs ++ y ∷ ys ≢ []
append-ne-nil [] y ys h = cc
append-ne-nil (x ∷ xs) y ys h = cc

lookup-property_line :
    (key value : Text) (entries : Dict Text)
    → Without b'=' key
    → Without b'=' value
    → lookup (strip key) (add_entry (split b'=' (property_line key value)) entries)
      ≡ some (strip value)
unfolding add_entry
lookup-property_line key value entries hk hv =
    rw (split-append b'=' key value hk, split-Without b'=' value hv, lookup-insert, text_eq_refl)

-- In a configuration whose lines hold no `:`, a property line whose key and value hold no `=`, and
-- whose key no later line sets again, is found in the entries of the configuration's name, key and
-- value stripped.
pub lookup-config_name :
    (before after : List Text) (key value : Text)
    → AllWithout b':' (before ++ property_line key value ∷ after)
    → Without b'=' key
    → Without b'=' value
    → any (sets_key (strip key)) after ≡ false
    → lookup
        (strip key)
        (entries_of (config_name (record { lines = before ++ property_line key value ∷ after })))
      ≡ some (strip value)
unfolding entries_of add_entries
lookup-config_name before after key value colons hk hv later =
    let line = property_line key value in
    rw (AllWithout-split_name (before ++ line ∷ after) (append-ne-nil before line after) colons) (
      rw (add_entries-append before (line ∷ after) []) (
        lookup-add_entries (strip key) after _ later
        ∙ lookup-property_line key value (add_entries before []) hk hv))
