-- ===== src/Registry.antt =====
-- state/task_registry.py: `SQLiteTaskRegistry`, the index from tasks to the workspaces that hold
-- their state. Times are numbers of microseconds.
pub mod Binding
mod Tests
use Prim.Native.Nat.{Ordering}
use Prim.Native.String.{compare}
use forgeharness.Common.{
  ℕ, String, Bool, true, false, Option, none, some, List, [], ◌∷◌, ◌++◌, if◌then◌else◌, is_some,
  String_discrete,
}
use forgeharness.Table.{find_key, update_key}

pub record TaskBinding : Type 0 where
  pub task_id : String
  pub workspace : String
  pub created_at : ℕ
  pub updated_at : ℕ

abbrev pub Bindings : Type 0
Bindings = List TaskBinding

abbrev pub binding_key : TaskBinding → String
binding_key b = b.task_id

-- `get`
unfoldable pub get : String → Bindings → Option TaskBinding
get task rows = find_key String_discrete binding_key task rows

abbrev pub creation : ℕ → Option TaskBinding → ℕ
creation now none = now
creation now (some b) = b.created_at

-- ON CONFLICT(task_id) DO UPDATE
abbrev pub rebound : TaskBinding → TaskBinding → TaskBinding
rebound new old = record old { workspace = new.workspace; updated_at = new.updated_at }

unfoldable pub upsert_binding : TaskBinding → Bindings → Bindings
upsert_binding new rows =
    if is_some (find_key String_discrete binding_key new.task_id rows)
    then update_key String_discrete binding_key new.task_id (λ _. true) (rebound new) rows
    else rows ++ new ∷ []

-- `bind`: the binding that it returns, and the table
unfoldable pub bind : ℕ → String → String → Bindings → TaskBinding × Bindings
unfolding get
bind now task workspace rows =
    let new : TaskBinding = record {
      task_id = task;
      workspace = workspace;
      created_at = creation now (get task rows);
      updated_at = now;
    } in
    (new, upsert_binding new rows)

abbrev precedes : String → String → Bool
precedes a b = elim (compare a b) [ Ordering.gt ↦ false | _ ↦ true ]

abbrev insert_binding : TaskBinding → Bindings → Bindings
insert_binding a [] = a ∷ []
insert_binding a (b ∷ rows) =
    if precedes a.task_id b.task_id then a ∷ b ∷ rows else b ∷ insert_binding a rows

-- `all_bindings`: ORDER BY task_id
unfoldable pub all_bindings : Bindings → Bindings
all_bindings [] = []
all_bindings (b ∷ rows) = insert_binding b (all_bindings rows)
