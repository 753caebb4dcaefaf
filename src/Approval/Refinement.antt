-- ===== src/Approval/Refinement.antt =====
-- The two ledgers of state/approval.py against what they know of each id.
use forgeharness.Common.{
  ℕ, ◌≡◌, refl, sym, ap, ◌∙◌, String, true, Option, none, some, ◌∷◌, arith, Result, ok, raise,
  String_discrete, map_option, if◌then◌else◌, String_eq,
}
use forgeharness.Table.{update_key, find_key-update, find_key-key, key_test}
use forgeharness.Domain.{ToolCall}
use forgeharness.Approval.{
  ApprovalError, ApprovalGrant, Digest, Ledger, GrantRow, Grants, row_key, grant_row, mark,
  row_entry, sql_entry, memory_entry,
}
use forgeharness.Approval.Memory
use forgeharness.Approval.Sqlite.{consume, matches}

-- Both ledgers have issued the same grants and had the same ones consumed.
pub record Agree (m : Ledger) (t : Grants) : Type 0 where
  pub at : (id : String) → memory_entry id m ≡ sql_entry id t

module _ (digest : Digest) (binding : String) (now : ℕ) (grant : ApprovalGrant) (task_id : String)
    (call : ToolCall) (m : Ledger) (t : Grants) (agree : Agree m t)
    (bound : grant.binding_digest ≡ binding) where
  abbrev in_memory : Result ApprovalError (Unit {0}) × Ledger
  in_memory = Memory.consume digest now grant task_id call m

  abbrev in_table : Result ApprovalError (Unit {0}) × Grants
  in_table = consume digest binding now grant task_id call t

  same_answer : in_memory.0 ≡ in_table.0
  unfolding Memory.consume consume matches
  same_answer = ground (arith, agree.at grant.id)

  marked_found :
      (id : String) (o : Option GrantRow)
      → grant_row id t ≡ o
      → memory_entry id (record m { consumed = grant.id ∷ m.consumed })
        ≡ row_entry (
            map_option
              (λ r. if key_test String_discrete row_key grant.id (λ _. true) r then mark r else r)
              o)
  marked_found id none found = ground (arith, agree.at id)
  marked_found id (some r) found =
      ground (arith, agree.at id, find_key-key String_discrete row_key id t r found)

  marked_entries :
      (id : String)
      → memory_entry id (record m { consumed = grant.id ∷ m.consumed })
        ≡ sql_entry id (update_key String_discrete row_key grant.id (λ _. true) mark t)
  marked_entries id =
      marked_found id (grant_row id t) refl
      ∙ ap row_entry (
          sym (
            find_key-update String_discrete row_key
              (key_test String_discrete row_key grant.id (λ _. true)) mark (λ r. refl) id t))

  memory_marked : in_memory.0 ≡ ok tt → in_memory.1 ≡ record m { consumed = grant.id ∷ m.consumed }
  unfolding Memory.consume
  memory_marked used = ground arith

  table_marked :
      in_table.0 ≡ ok tt
      → in_table.1 ≡ update_key String_discrete row_key grant.id (λ _. true) mark t
  unfolding consume matches
  table_marked used = ground arith

  after_consume :
      (id : String) → in_table.0 ≡ ok tt → memory_entry id in_memory.1 ≡ sql_entry id in_table.1
  after_consume id used =
      rw (memory_marked (same_answer ∙ used), table_marked used) (marked_entries id)

  after_refusal :
      (id : String) (e : ApprovalError)
      → in_table.0 ≡ raise e
      → memory_entry id in_memory.1 ≡ sql_entry id in_table.1
  unfolding Memory.consume consume matches
  after_refusal id e refused = ground (arith, agree.at grant.id, agree.at id)

  entries_agree :
      (r : Result ApprovalError (Unit {0}))
      → in_table.0 ≡ r
      → (id : String) → memory_entry id in_memory.1 ≡ sql_entry id in_table.1
  entries_agree (ok tt) e id = after_consume id e
  entries_agree (raise x) e id = after_refusal id x e

-- The two ledgers implement one contract: where both know the same of every id, and the grant
-- presented carries the binding of the database's ledger, consuming it gives the same answer in
-- memory and in the database, error by error, and afterwards both know the same again.
pub consume-refines :
    (digest : Digest) (binding : String) (now : ℕ) (grant : ApprovalGrant) (task_id : String)
    (call : ToolCall) (m : Ledger) (t : Grants)
    → Agree m t
    → grant.binding_digest ≡ binding
    → let in_memory = Memory.consume digest now grant task_id call m in
      let in_table = consume digest binding now grant task_id call t in
      (in_memory.0 ≡ in_table.0) × Agree in_memory.1 in_table.1
consume-refines digest binding now grant task_id call m t agree bound = (
  same_answer digest binding now grant task_id call m t agree bound,
  record { at = entries_agree digest binding now grant task_id call m t agree bound _ refl },
)
