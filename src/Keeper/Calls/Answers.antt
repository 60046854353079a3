-- ===== src/Keeper/Calls/Answers.antt =====
-- The result of an action that a method of keeper/store stores, and what the keeper reads back.
pub mod Replay
use safe.Prelude.{
  GoString, ◌≡◌, Bool, false, List, [], ◌∷◌, ◌++◌, some, arith, str_eq, str_eq_refl, str_eq_comm,
  find, any,
}
use safe.Keeper.Store.Tables.{Db, ActionResultRow}
use safe.Keeper.Store.Clashes.{action_result_clash}

abbrev pub is_result : GoString → ActionResultRow → Bool
is_result output_id a = str_eq a.output_id output_id

-- `row` is the first result that is stored for its action.
abbrev pub Stored : ActionResultRow → Db → Type 0
Stored row db = find (is_result row.output_id) db.action_results ≡ some row

-- The row that is new is the first of its action.
pub find_new :
    (row : ActionResultRow) (rows : List ActionResultRow)
    → any (action_result_clash row) rows ≡ false
    → find (is_result row.output_id) (rows ++ (row ∷ [])) ≡ some row
unfolding action_result_clash
find_new row [] h = ground (arith, str_eq_refl row.output_id)
find_new row (x ∷ rows) h = ground (arith, str_eq_comm row.output_id x.output_id, find_new row rows)
