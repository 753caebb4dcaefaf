-- ===== src/Todos.antt =====
-- runtime/todos.py: the revisioned todo board of a run. A method leaves the board as it was when
-- it raises.
pub mod Board
pub mod Render
mod Tests
use forgeharness.Common.{
  ℕ, zero, suc, ◌+◌, ◌≡◌, ◌≤◌, String, Bool, true, false, not, Option, none, some, List, [], ◌∷◌,
  Result, ok, raise, Action, if◌then◌else◌, ◌==◌, Eq, ℕ_eq, String_eq, String_discrete, any, length,
  map, ltb, leb, select,
}

pub data TodoStatus : Type 0 where
  pending in_progress completed : TodoStatus

pub record TodoItem : Type 0 where
  pub id : String
  pub content : String
  pub status : TodoStatus

unfoldable pub TodoStatus-discrete : Discrete TodoStatus
TodoStatus-discrete = hlevel

unfoldable pub Todos-discrete : Discrete (List TodoItem)
Todos-discrete = hlevel String_discrete

instance abbrev pub TodoStatus_eq : Eq TodoStatus
TodoStatus_eq = record { discrete = TodoStatus-discrete }

instance abbrev pub Todos_eq : Eq (List TodoItem)
Todos_eq = record { discrete = Todos-discrete }

pub data TodoError : Type 0 where
  too_many duplicate_ids several_in_progress invalid_revision : TodoError

-- Python's `int`
pub data ℤ : Type 0 where
  pos : ℕ → ℤ
  negsuc : ℕ → ℤ

abbrev pub status_value : TodoStatus → String
status_value pending = "pending"
status_value in_progress = "in_progress"
status_value completed = "completed"

abbrev pub max_todos : ℕ
max_todos = 50

pub record TodoSnapshot : Type 0 where
  pub revision : ℕ
  pub todos : List TodoItem

abbrev pub is_open : TodoItem → Bool
is_open i = not (i.status == completed)

abbrev pub open_items : TodoSnapshot → List TodoItem
open_items s = select is_open s.todos

abbrev pub open_count : TodoSnapshot → ℕ
open_count s = length (open_items s)

abbrev pub completed_count : TodoSnapshot → ℕ
completed_count s = length (select (λ (i : TodoItem). i.status == completed) s.todos)

pub record TodoBoard : Type 0 where
  pub todos : List TodoItem
  pub revision : ℕ

abbrev pub snapshot : TodoBoard → TodoSnapshot
snapshot b = record { revision = b.revision; todos = b.todos }

-- the elements of `set(identifiers)`
unfoldable pub set_of : List String → List String
set_of [] = []
set_of (x ∷ xs) = let rest = set_of xs in if any (λ (y : String). x == y) xs then rest else x ∷ rest

abbrev pub identifiers : List TodoItem → List String
identifiers todos = map (λ (i : TodoItem). i.id) todos

abbrev pub in_progress_count : List TodoItem → ℕ
in_progress_count todos = length (select (λ (i : TodoItem). i.status == in_progress) todos)

unfoldable pub validated : List TodoItem → Result TodoError (List TodoItem)
validated todos =
    if ltb max_todos (length todos)
    then raise too_many
    else (if not (length (set_of (identifiers todos)) == length (identifiers todos))
        then raise duplicate_ids
        else (if ltb 1 (in_progress_count todos) then raise several_in_progress else ok todos))

abbrev pub initial_revision : List TodoItem → ℕ
initial_revision [] = 0
initial_revision (i ∷ todos) = 1

abbrev pub new_with : Result TodoError (List TodoItem) → Result TodoError TodoBoard
new_with (ok todos) = ok (record { todos = todos; revision = initial_revision todos })
new_with (raise e) = raise e

-- `__init__`
unfoldable pub new_board : List TodoItem → Result TodoError TodoBoard
unfolding validated
new_board todos = new_with (validated todos)

abbrev pub replace_with : Result TodoError (List TodoItem) → Action TodoBoard TodoError TodoSnapshot
replace_with (raise e) b = (raise e, b)
replace_with (ok todos) b =
    let b' : TodoBoard =
      if not (todos == b.todos) then record { todos = todos; revision = b.revision + 1 } else b in
    (ok (snapshot b'), b')

unfoldable pub replace : List TodoItem → Action TodoBoard TodoError TodoSnapshot
unfolding validated
replace todos = replace_with (validated todos)

unfoldable pub reset : TodoBoard → TodoBoard
reset b = record { todos = []; revision = 0 }

-- the revision that `restore` installs, none where it refuses the one supplied
abbrev pub restored_revision : List TodoItem → Option ℤ → Option ℕ
restored_revision todos none = some (initial_revision todos)
restored_revision todos (some (negsuc n)) = none
restored_revision todos (some (pos (suc n))) = some (suc n)
restored_revision [] (some (pos zero)) = some 0
restored_revision (i ∷ todos) (some (pos zero)) = none

abbrev pub install : List TodoItem → Option ℕ → Action TodoBoard TodoError TodoSnapshot
install todos none b = (raise invalid_revision, b)
install todos (some revision) b =
    let b' : TodoBoard = record { todos = todos; revision = revision } in (ok (snapshot b'), b')

abbrev pub restore_with :
    Result TodoError (List TodoItem) → Option ℤ → Action TodoBoard TodoError TodoSnapshot
restore_with (raise e) revision b = (raise e, b)
restore_with (ok todos) revision b = install todos (restored_revision todos revision) b

unfoldable pub restore : List TodoItem → Option ℤ → Action TodoBoard TodoError TodoSnapshot
unfolding validated
restore todos revision = restore_with (validated todos) revision
