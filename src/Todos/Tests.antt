-- ===== src/Todos/Tests.antt =====
-- Small runs of runtime/todos.py.
use native.Mathlib.Decide.{ℕ_discrete}
use forgeharness.Todos.Render.{render_todos, todo_pinned_message, write_todos}
use forgeharness.Common.{
  ℕ, String, none, ℕ_eq, ◌==◌, if◌then◌else◌, ◌≡◌, refl, List, [], ◌∷◌, some, ok, raise,
  String_discrete,
}
use forgeharness.Todos.{
  TodoItem, TodoBoard, TodoStatus-discrete, Todos-discrete, in_progress, completed, set_of,
  validated, new_board, replace, restore, several_in_progress, invalid_revision, open_count,
  snapshot, pos,
}
use forgeharness.Todos.Board.{
  IsValid, BoardCall, replace_call, restore_call, reset_call, call_all, board-IsValid,
  replace-twice,
}

abbrev plan : List TodoItem
plan =
    record { id = "read"; content = "read the code"; status = completed }
    ∷ record { id = "fix"; content = "fix it"; status = in_progress }
    ∷ []

abbrev board : TodoBoard
board = record { todos = plan; revision = 1 }

board_built : new_board plan ≡ ok board
unfolding new_board validated set_of String_discrete ℕ_discrete TodoStatus-discrete
board_built = refl

one_open : open_count (snapshot board) ≡ 1
unfolding TodoStatus-discrete
one_open = refl

two_in_progress :
    let item : TodoItem = record { id = "test"; content = "test it"; status = in_progress } in
    replace (item ∷ plan) board ≡ (raise several_in_progress, board)
unfolding replace validated set_of String_discrete ℕ_discrete TodoStatus-discrete
two_in_progress = refl

revision_zero : restore plan (some (pos 0)) board ≡ (raise invalid_revision, board)
unfolding restore validated set_of String_discrete ℕ_discrete TodoStatus-discrete
revision_zero = refl

abbrev calls : List BoardCall
calls = replace_call [] ∷ restore_call plan (some (pos 7)) ∷ reset_call ∷ replace_call plan ∷ []

board-IsValid_example : IsValid (call_all calls board)
board-IsValid_example = board-IsValid plan board calls board_built

emptied : (replace [] board).0 ≡ ok (record { revision = 2; todos = [] })
unfolding replace validated set_of ℕ_discrete Todos-discrete
emptied = refl

replace-twice_example :
    replace [] (replace [] board).1
    ≡ (ok (record { revision = 2; todos = [] }), (replace [] board).1)
replace-twice_example = replace-twice [] board (record { revision = 2; todos = [] }) emptied

abbrev digit : ℕ → String
digit n = if n == 1 then "1" else "0"

plan_rendered :
    todo_pinned_message digit (snapshot board)
    ≡ some
        "[todo state: revision 1; 1 open, 1 completed]\n- [x] read: read the code (completed)\n- [~] fix: fix it (in_progress)\n[finish is refused while any item is open]"
unfolding todo_pinned_message render_todos ℕ_discrete TodoStatus-discrete
plan_rendered = refl

rejected_write :
    let item : TodoItem = record { id = "test"; content = "test it"; status = in_progress } in
    (write_todos digit (λ s r. "{}") (λ e. "two in progress") (item ∷ plan) none board).1 ≡ board
unfolding write_todos replace validated set_of String_discrete ℕ_discrete TodoStatus-discrete
rejected_write = refl
