-- ===== src/Report/Html/Grouping.antt =====
-- The runs of tools/pms_report.py, grouped by task.
use optimer.Prelude.{
  Bool, List, Option, [], append-nil, append_assoc, arith, false, if◌then◌else◌, none, refl, some,
  sym, true, ◌++◌, ◌∙◌, ◌∷◌, ◌≡◌,
}
use optimer.Text.{Text, text_eq}
use optimer.Text.Laws.{text_eq_iff}
use optimer.Result.{>>=-eq-ok, ok, ok_injective}
use optimer.Report.TaskName.{Dict, lookup, parse_task_name}
use optimer.Report.Logs.{LineParser, log_result}
use optimer.Report.Html.{Collected, LogRow, append_at, collect}

abbrev pub found_runs {ℓ} : {V : Type ℓ} → Option (List V) → List V
found_runs none = []
found_runs (some vs) = vs

-- the values under a key
abbrev pub runs_at {ℓ} : {V : Type ℓ} → Text → Dict (List V) → List V
runs_at key d = found_runs (lookup key d)

runs_at-append_at {ℓ} :
    {V : Type ℓ} (key k : Text) (v : V) (d : Dict (List V))
    → runs_at key (append_at k v d)
      ≡ (if text_eq k key then runs_at key d ++ v ∷ [] else runs_at key d)
unfolding lookup append_at
runs_at-append_at key k v [] = ground arith
runs_at-append_at key k v ((j, vs) ∷ d) =
    ground
      (arith, runs_at-append_at key k v d, text_eq_iff j k, text_eq_iff j key, text_eq_iff k key)

-- the results of the rows of one task, in order
unfoldable pub outputs_of : {V : Type 0} → Dict (LineParser V) → Text → List LogRow → List (Dict V)
outputs_of ps key [] = []
outputs_of ps key (row ∷ rows) =
    let rest = outputs_of ps key rows in
    if text_eq row.task_name key then log_result ps row.output ∷ rest else rest

add_or_keep {ℓ} :
    {A : Type ℓ} (b : Bool) (xs rest : List A) (v : A)
    → (if b then xs ++ v ∷ [] else xs) ++ rest ≡ xs ++ (if b then v ∷ rest else rest)
add_or_keep true xs rest v = append_assoc xs (v ∷ []) rest
add_or_keep false xs rest v = refl

-- If the rows are collected with no error, the runs under a task name are those that were there,
-- and behind them the results of the rows of that name, in the order of the file.
pub collect-runs_at :
    {V : Type 0} (ps : Dict (LineParser V)) (key : Text) (rows : List LogRow) (c d : Collected V)
    → collect ps rows c ≡ ok d
    → runs_at key d.entries ≡ runs_at key c.entries ++ outputs_of ps key rows
unfolding collect outputs_of
collect-runs_at ps key [] c d h = rw (ok_injective (sym h)) (sym (append-nil _))
collect-runs_at ps key (row ∷ rows) c d h =
    let (names, e, k) = >>=-eq-ok (parse_task_name row.task_name) _ h in
    let run = log_result ps row.output in
    collect-runs_at ps key rows _ d k
    ∙ rw (runs_at-append_at key row.task_name run c.entries) (
        add_or_keep (text_eq row.task_name key) (runs_at key c.entries) (outputs_of ps key rows)
          run)

-- Collecting succeeds exactly when every task name has the keys that the report needs.
abbrev pub AllNamed : List LogRow → Type 0
AllNamed [] = Unit
AllNamed (row ∷ rows) = ((n : Text × Text) × (parse_task_name row.task_name ≡ ok n)) × AllNamed rows

collect-AllNamed :
    {V : Type 0} (ps : Dict (LineParser V)) (rows : List LogRow) (c : Collected V)
    → AllNamed rows
    → (d : Collected V) × (collect ps rows c ≡ ok d)
unfolding collect
collect-AllNamed ps [] c h = (c, refl)
collect-AllNamed ps (row ∷ rows) c h = rw (h.0.1) (collect-AllNamed ps rows _ h.1)
