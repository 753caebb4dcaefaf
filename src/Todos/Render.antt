-- ===== src/Todos/Render.antt =====
-- The text of a board that every request pins, and the tool that writes a board
-- (runtime/todos.py).
use Prim.Native.String.{count}
use forgeharness.Common.{
  ℕ, ◌+◌, ◌≤◌, String, true, false, Option, none, some, List, [], ◌∷◌, ◌++◌, map, Result, ok, raise,
  if◌then◌else◌, ltb, leb, concat, join_all, total, line_cost, count-join_all, arith,
}
use forgeharness.Domain.{ToolOutput}
use forgeharness.Todos.{
  TodoStatus, pending, in_progress, completed, TodoItem, TodoSnapshot, TodoBoard, TodoError,
  open_count, completed_count, status_value, replace,
}

abbrev pub max_rendered_chars : ℕ
max_rendered_chars = 4000

abbrev marker : TodoStatus → String
marker pending = " "
marker in_progress = "~"
marker completed = "x"

abbrev item_line : TodoItem → String
item_line i = concat (
    "- ["
    ∷ marker i.status
    ∷ "] "
    ∷ i.id
    ∷ ": "
    ∷ i.content
    ∷ " ("
    ∷ status_value i.status
    ∷ ")"
    ∷ [])

-- the lines that fit behind `used` characters, and the mark of a cut
abbrev pub keep_board : ℕ → List String → List String
keep_board used [] = []
keep_board used (line ∷ lines) =
    let more = used + count line + 1 in
    let rest = keep_board more lines in
    if ltb max_rendered_chars more then "[board truncated]" ∷ [] else line ∷ rest

module _ (decimal : ℕ → String) where
  abbrev pub board_header : TodoSnapshot → String
  board_header s = concat (
      "[todo state: revision "
      ∷ decimal s.revision
      ∷ "; "
      ∷ decimal (open_count s)
      ∷ " open, "
      ∷ decimal (completed_count s)
      ∷ " completed]"
      ∷ [])

  abbrev pub board_lines : TodoSnapshot → List String
  board_lines s =
      map item_line s.todos
      ++ (if ltb 0 (open_count s) then "[finish is refused while any item is open]" ∷ [] else [])

  unfoldable pub render_todos : TodoSnapshot → String
  render_todos s =
      let rendered = join_all "\n" (board_header s ∷ board_lines s) in
      if leb (count rendered) max_rendered_chars
      then rendered
      else join_all "\n" (board_header s ∷ keep_board (count (board_header s)) (board_lines s))

  abbrev pinned_text : TodoSnapshot → List TodoItem → Option String
  pinned_text s [] = none
  pinned_text s (i ∷ todos) = some (render_todos s)

  unfoldable pub todo_pinned_message : TodoSnapshot → Option String
  todo_pinned_message s = pinned_text s s.todos

  -- The metadata's JSON text, from a snapshot and the rationale, and the text of the board's error.
  module _ (metadata : TodoSnapshot → Option String → String)
      (error_text : TodoError → String) where
    abbrev written : Option String → Result TodoError TodoSnapshot → ToolOutput
    written rationale (ok s) = record {
      is_ok = true;
      content = render_todos s;
      error = none;
      metadata = metadata s rationale;
      usage = none;
      receipt = none;
    }
    written rationale (raise e) = record {
      is_ok = false;
      content = concat ("todo board rejected: " ∷ error_text e ∷ []);
      error = none;
      metadata = "{\"error_code\": \"invalid_todos\"}";
      usage = none;
      receipt = none;
    }

    -- `WriteTodosTool.execute`: the output and the board after it
    unfoldable pub write_todos : List TodoItem → Option String → TodoBoard → ToolOutput × TodoBoard
    write_todos todos rationale b = let (r, b') = replace todos b in (written rationale r, b')

keep_board-le :
    (used : ℕ) (lines : List String)
    → used ≤ max_rendered_chars
    → used + total line_cost (keep_board used lines) ≤ max_rendered_chars + 18
keep_board-le used [] h = omega arith
keep_board-le used (line ∷ lines) h =
    let ih = keep_board-le (used + count line + 1) lines in ground arith

-- Where the header fits: a rendered board is at most the limit and the mark of a cut long.
pub render_todos-le :
    (decimal : ℕ → String) (s : TodoSnapshot)
    → count (board_header decimal s) ≤ max_rendered_chars
    → count (render_todos decimal s) ≤ max_rendered_chars + 18
unfolding render_todos
render_todos-le decimal s h =
    let kept = keep_board (count (board_header decimal s)) (board_lines decimal s) in
    ground (
      arith,
      count-join_all (board_header decimal s) kept,
      keep_board-le (count (board_header decimal s)) (board_lines decimal s) h,
    )
