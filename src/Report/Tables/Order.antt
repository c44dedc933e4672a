-- ===== src/Report/Tables/Order.antt =====
-- The rows of the report's table are sorted by their names.
use mathlib.Core.List.{Perm}
use mathlib.Core.List.Perm
use optimer.Prelude.{
  Bool-cases, List, [], ap, arith, false, inl, inr, refl, subst, sym, true, ◌++◌, ◌∷◌, ◌≡◌,
}
use optimer.Text.{Text, text_lt}
use optimer.Result.{>>=-eq-ok, ok, ok_injective}
use optimer.Report.TaskName.{Dict}
use optimer.Report.Logs.{LineParser, Numbers}
use optimer.Report.Tables.{
  TableData, build_rows, build_table_data, cells, insert_row, row_key, sort_rows,
}

-- no row comes after one with a greater key
abbrev Before : List Text → List (List Text) → Type 0
Before row [] = Unit
Before row (r ∷ rs) = text_lt (row_key r) (row_key row) ≡ false × Before row rs

abbrev IsSorted : List (List Text) → Type 0
IsSorted [] = Unit
IsSorted (r ∷ rs) = Before r rs × IsSorted rs

text_lt_asymm : (a b : Text) → text_lt a b ≡ true → text_lt b a ≡ false
unfolding text_lt
text_lt_asymm a [] h = cc
text_lt_asymm [] (y ∷ b) h = refl
text_lt_asymm (x ∷ a) (y ∷ b) h = ground (arith, text_lt_asymm a b)

text_le_trans : (a b c : Text) → text_lt b a ≡ false → text_lt c b ≡ false → text_lt c a ≡ false
unfolding text_lt
text_le_trans [] b c h k = refl
text_le_trans (x ∷ a) [] c h k = cc
text_le_trans (x ∷ a) (y ∷ b) [] h k = cc
text_le_trans (x ∷ a) (y ∷ b) (z ∷ c) h k = ground (arith, text_le_trans a b c)

Before-trans :
    (p r : List Text) (rs : List (List Text))
    → text_lt (row_key r) (row_key p) ≡ false
    → Before r rs
    → Before p rs
Before-trans p r [] h b = tt
Before-trans p r (q ∷ rs) h b =
    (text_le_trans (row_key p) (row_key r) (row_key q) h b.0, Before-trans p r rs h b.1)

Before-insert_row :
    (p row : List Text) (rs : List (List Text))
    → text_lt (row_key row) (row_key p) ≡ false
    → Before p rs
    → Before p (insert_row row rs)
unfolding insert_row
Before-insert_row p row [] h b = (h, tt)
Before-insert_row p row (r ∷ rs) h b = ground (arith, Before-insert_row p row rs h b.1)

IsSorted-insert_row :
    (row : List Text) (rs : List (List Text)) → IsSorted rs → IsSorted (insert_row row rs)
unfolding insert_row
IsSorted-insert_row row [] h = (tt, tt)
IsSorted-insert_row row (r ∷ rs) h = elim (Bool-cases (text_lt (row_key r) (row_key row))) [
  | inl less ↦ rw less (
    Before-insert_row r row rs (text_lt_asymm (row_key r) (row_key row) less) h.0,
    IsSorted-insert_row row rs h.1,
  )
  | inr more ↦ rw more ((more, Before-trans row r rs more h.0), h)
]

-- `sorted` gives rows of which none has a greater key than one behind it.
sort_rows-IsSorted : (rows : List (List Text)) → IsSorted (sort_rows rows)
unfolding sort_rows
sort_rows-IsSorted [] = tt
sort_rows-IsSorted (row ∷ rows) = IsSorted-insert_row row (sort_rows rows) (sort_rows-IsSorted rows)

insert_row-perm : (row : List Text) (rs : List (List Text)) → Perm (insert_row row rs) (row ∷ rs)
unfolding insert_row
insert_row-perm row [] = Perm.refl (row ∷ [])
insert_row-perm row (r ∷ rs) = elim (Bool-cases (text_lt (row_key r) (row_key row))) [
  | inl less ↦ rw less (Perm.trans (Perm.cons r (insert_row-perm row rs)) (Perm.swap row r rs))
  | inr more ↦ rw more (Perm.refl (row ∷ r ∷ rs))
]

sort_rows-perm : (rows : List (List Text)) → Perm (sort_rows rows) rows
unfolding sort_rows
sort_rows-perm [] = Perm.refl []
sort_rows-perm (row ∷ rows) =
    Perm.trans (insert_row-perm row (sort_rows rows)) (Perm.cons row (sort_rows-perm rows))

-- the names of the problem and of the settings, joined as `sorted` compares them
abbrev pub joined_names : List Text → Text
joined_names (problem_name ∷ solver ∷ cells) = problem_name ++ solver
joined_names _ = []

-- no row comes after one with greater names
abbrev pub NoGreater : List Text → List (List Text) → Type 0
NoGreater row [] = Unit
NoGreater row (r ∷ rs) = (text_lt (joined_names r) (joined_names row) ≡ false) × NoGreater row rs

abbrev pub IsOrdered : List (List Text) → Type 0
IsOrdered [] = Unit
IsOrdered (r ∷ rs) = NoGreater r rs × IsOrdered rs

row_key-joined_names : (row : List Text) → row_key row ≡ joined_names row
row_key-joined_names [] = refl
row_key-joined_names (a ∷ []) = refl
row_key-joined_names (a ∷ b ∷ row) = refl

Before-NoGreater : (row : List Text) (rs : List (List Text)) → Before row rs → NoGreater row rs
Before-NoGreater row [] h = tt
Before-NoGreater row (r ∷ rs) h = (
  rw (sym (row_key-joined_names r), sym (row_key-joined_names row)) h.0,
  Before-NoGreater row rs h.1,
)

IsSorted-IsOrdered : (rs : List (List Text)) → IsSorted rs → IsOrdered rs
IsSorted-IsOrdered [] h = tt
IsSorted-IsOrdered (r ∷ rs) h = (Before-NoGreater r rs h.0, IsSorted-IsOrdered rs h.1)

-- Where the table is built, its rows are those that were built for the tasks, each as often as it
-- was, in an order in which none has greater names than one behind it. The names are that of the
-- problem and those of the settings, joined.
pub build_table_data-IsOrdered :
    (numbers : Numbers) (ps : Dict (LineParser numbers.Value))
    (all_runs : Dict (List (Dict numbers.Value))) (t : TableData)
    → build_table_data numbers ps all_runs ≡ ok t
    → (rows : List (List Text)) × (build_rows numbers ps all_runs ≡ ok rows)
      × Perm t.rows rows
      × IsOrdered t.rows
unfolding build_table_data
build_table_data-IsOrdered numbers ps all_runs t h =
    let (rows, built, e) = >>=-eq-ok (build_rows numbers ps all_runs) _ h in
    let same : sort_rows rows ≡ t.rows = ap (λ (u : TableData). u.rows) (ok_injective e) in
    (
      rows,
      built,
      subst (λ (rs : List (List Text)). Perm rs rows) same (sort_rows-perm rows),
      subst IsOrdered same (IsSorted-IsOrdered (sort_rows rows) (sort_rows-IsSorted rows)),
    )
