-- ===== src/Report/Tables/Csv.antt =====
-- `create_csv_table` of tools/pms_report.py: the lines of the text are the rows of the table.
use optimer.Prelude.{List, [], arith, map, refl, ℕ, ◌++◌, ◌∷◌, ◌≡◌}
use optimer.Text.{Text, codes, join, split}
use optimer.Text.Laws.{AllWithout, Without, split-join}
use optimer.Report.Tables.{TableData, create_csv_table}

Without-append : (sep : ℕ) (s t : Text) → Without sep s → Without sep t → Without sep (s ++ t)
Without-append sep [] t h k = k
Without-append sep (c ∷ s) t h k = ground (arith, Without-append sep s t)

Without-join :
    (sep : ℕ) (glue : Text) (ts : List Text)
    → Without sep glue
    → AllWithout sep ts
    → Without sep (join glue ts)
unfolding join
Without-join sep glue [] g h = refl
Without-join sep glue (t ∷ []) g h = h.0
Without-join sep glue (t ∷ u ∷ ts) g h =
    Without-append sep t _ h.0 (Without-append sep glue _ g (Without-join sep glue (u ∷ ts) g h.1))

abbrev pub RowsWithout : ℕ → List (List Text) → Type 0
RowsWithout sep [] = Unit
RowsWithout sep (r ∷ rs) = AllWithout sep r × RowsWithout sep rs

AllWithout-rows :
    (rows : List (List Text))
    → RowsWithout b'\n' rows
    → AllWithout b'\n' (map (join (codes ", ")) rows)
AllWithout-rows [] h = tt
AllWithout-rows (r ∷ rs) h = (Without-join b'\n' (codes ", ") r refl h.0, AllWithout-rows rs h.1)

-- Where no cell and no title holds a newline, the lines of the CSV text are the header and the rows
-- in their order, the cells of each joined by `, `.
pub split-create_csv_table :
    (t : TableData)
    → AllWithout b'\n' t.header
    → RowsWithout b'\n' t.rows
    → split b'\n' (create_csv_table t) ≡ join (codes ", ") t.header ∷ map (join (codes ", ")) t.rows
unfolding create_csv_table
split-create_csv_table t h k =
    split-join b'\n' (join (codes ", ") t.header) (map (join (codes ", ")) t.rows)
      (Without-join b'\n' (codes ", ") t.header refl h) (AllWithout-rows t.rows k)
