-- ===== src/Approval/OneShot.antt =====
-- When `SQLiteApprovalLedger` lets a grant be consumed (state/approval.py), and that it does so
-- once.
use forgeharness.Common.{
  ℕ, ◌≡◌, String, Bool, true, Option, none, some, List, [], ◌∷◌, ◌++◌, ok, raise, String_eq, ℕ_eq,
  String_discrete, arith, refl, ap, ◌↔◌,
}
use forgeharness.Domain.{
  RunContext, ToolCall, ToolCall_eq, RunStatus_eq, Messages_eq, Evidence_eq, Context_eq, Usage_eq,
  Identifier_eq,
}
use forgeharness.Table.{update_key, find_key-update, find_key-update_self, key_test}
use forgeharness.Approval.{
  ApprovalError, already_consumed, ApprovalGrant, ApprovalGrant_eq, Digest, GrantRow, Grants,
  row_key, sql_entry, grant_row, mark,
}
use forgeharness.Approval.Sqlite.{new_grant, unused_row, issue, consume, matches, IsAdmissible}

module _ (digest : Digest) (binding : String) (now : ℕ) (grant : ApprovalGrant) (task_id : String)
    (call : ToolCall) (rows : Grants) where
  consume-IsAdmissible :
      (row : GrantRow)
      → grant_row grant.id rows ≡ some row
      → (consume digest binding now grant task_id call rows).0 ≡ ok tt
      → IsAdmissible digest binding now grant task_id call row
  unfolding consume matches
  consume-IsAdmissible row found h = record {
    issued = ground arith;
    unused = ground arith;
    unexpired = ground arith;
    bound_task = ground arith;
    bound_call = ground arith;
    bound_context = ground arith;
  }

  pub admissible-consume :
      (row : GrantRow)
      → grant_row grant.id rows ≡ some row
      → IsAdmissible digest binding now grant task_id call row
      → consume digest binding now grant task_id call rows
        ≡ (ok tt, update_key String_discrete row_key grant.id (λ _. true) mark rows)
  unfolding consume matches
  admissible-consume row found a = ground arith

  pub consume-raises :
      (e : ApprovalError)
      → (consume digest binding now grant task_id call rows).0 ≡ raise e
      → consume digest binding now grant task_id call rows ≡ (raise e, rows)
  unfolding consume matches
  consume-raises e h = ground arith

  some-row :
      (found : Option GrantRow)
      → grant_row grant.id rows ≡ found
      → (consume digest binding now grant task_id call rows).0 ≡ ok tt
      → (row : GrantRow) × (grant_row grant.id rows ≡ some row)
  unfolding consume
  some-row none e h = ground arith
  some-row (some row) e h = (row, e)

-- A grant is consumed exactly when the table has the very grant that is presented, unused and
-- unexpired, and the grant names the task, the call and the execution context.
pub consume_iff :
    (digest : Digest) (binding : String) (now : ℕ) (grant : ApprovalGrant) (task_id : String)
    (call : ToolCall) (rows : Grants)
    → ((consume digest binding now grant task_id call rows).0 ≡ ok tt) ↔ (
        (row : GrantRow) × (grant_row grant.id rows ≡ some row)
        × IsAdmissible digest binding now grant task_id call row)
consume_iff digest binding now grant task_id call rows =
    let to : (consume digest binding now grant task_id call rows).0 ≡ ok tt
        → ((row : GrantRow) × (grant_row grant.id rows ≡ some row)
            × IsAdmissible digest binding now grant task_id call row) =
      λ h.
        let (row, found) =
          some-row digest binding now grant task_id call rows (grant_row grant.id rows) refl h in
        (row, found, consume-IsAdmissible digest binding now grant task_id call rows row found h) in
    let back : ((row : GrantRow) × (grant_row grant.id rows ≡ some row)
          × IsAdmissible digest binding now grant task_id call row)
        → (consume digest binding now grant task_id call rows).0 ≡ ok tt =
      λ (row, found, a).
        rw (admissible-consume digest binding now grant task_id call rows row found a) refl in
    (to, back)

-- A call of the ledger's methods, with the id and the time that it draws.
pub data LedgerCall : Type 0 where
  issue_call : String → ℕ → String → ToolCall → String → ℕ → Option RunContext → LedgerCall
  consume_call : ℕ → ApprovalGrant → String → ToolCall → LedgerCall

abbrev pub spent : ApprovalGrant → Option (ApprovalGrant × Bool)
spent grant = some (grant, true)

module _ (digest : Digest) (binding : String) where
  unfoldable pub make : LedgerCall → Grants → Grants
  make (issue_call id now task_id call granted_by ttl context) rows =
      (issue digest binding id now task_id call granted_by ttl context rows).1
  make (consume_call now grant task_id call) rows =
      (consume digest binding now grant task_id call rows).1

  unfoldable pub make_all : List LedgerCall → Grants → Grants
  unfolding make
  make_all [] rows = rows
  make_all (c ∷ calls) rows = make_all calls (make c rows)

  entry-mark :
      (id i : String) (rows : Grants) (g : ApprovalGrant)
      → sql_entry i rows ≡ spent g
      → sql_entry i (update_key String_discrete row_key id (λ _. true) mark rows) ≡ spent g
  entry-mark id i rows g h = ground (
    arith,
    find_key-update String_discrete row_key (key_test String_discrete row_key id (λ _. true)) mark
        (λ r. refl) i rows,
  )

  entry-consume :
      (now : ℕ) (grant : ApprovalGrant) (task_id : String) (call : ToolCall) (rows : Grants)
      (g : ApprovalGrant)
      → sql_entry g.id rows ≡ spent g
      → sql_entry g.id (consume digest binding now grant task_id call rows).1 ≡ spent g
  unfolding consume
  entry-consume now grant task_id call rows g h = ground (arith, entry-mark grant.id g.id rows g h)

  entry-append :
      (rows : Grants) (x : GrantRow) (g : ApprovalGrant)
      → sql_entry g.id rows ≡ spent g
      → sql_entry g.id (rows ++ x ∷ []) ≡ spent g
  entry-append [] x g h = cc
  entry-append (r ∷ rows) x g h = ground (arith, entry-append rows x g)

  entry-issue :
      (id : String) (now : ℕ) (task_id : String) (call : ToolCall) (by : String) (ttl : ℕ)
      (context : Option RunContext) (rows : Grants) (g : ApprovalGrant)
      → sql_entry g.id rows ≡ spent g
      → sql_entry g.id (issue digest binding id now task_id call by ttl context rows).1 ≡ spent g
  unfolding issue
  entry-issue id now task_id call by ttl context rows g h =
      let row = unused_row (new_grant digest binding id now task_id call by ttl context) in
      ground (arith, entry-append rows row g h)

  entry-make :
      (c : LedgerCall) (rows : Grants) (g : ApprovalGrant)
      → sql_entry g.id rows ≡ spent g
      → sql_entry g.id (make c rows) ≡ spent g
  unfolding make
  entry-make (issue_call id now task_id call by ttl context) rows g h =
      entry-issue id now task_id call by ttl context rows g h
  entry-make (consume_call now grant task_id call) rows g h =
      entry-consume now grant task_id call rows g h

  entry-make_all :
      (calls : List LedgerCall) (rows : Grants) (g : ApprovalGrant)
      → sql_entry g.id rows ≡ spent g
      → sql_entry g.id (make_all calls rows) ≡ spent g
  unfolding make_all
  entry-make_all [] rows g h = h
  entry-make_all (c ∷ calls) rows g h = entry-make_all calls (make c rows) g (entry-make c rows g h)

  pub entry-consumed :
      (now : ℕ) (grant : ApprovalGrant) (task_id : String) (call : ToolCall) (rows : Grants)
      → (consume digest binding now grant task_id call rows).0 ≡ ok tt
      → sql_entry grant.id (consume digest binding now grant task_id call rows).1 ≡ spent grant
  entry-consumed now grant task_id call rows h =
      let (row, found, a) = (consume_iff digest binding now grant task_id call rows).0 h in
      let e = admissible-consume digest binding now grant task_id call rows row found a in
      let u =
        find_key-update_self String_discrete row_key mark (λ r. refl) grant.id (λ _. true) rows row
          found refl in
      rw (e, u) (ap (λ g. spent g) a.issued)

  refuse-spent :
      (now : ℕ) (grant : ApprovalGrant) (task_id : String) (call : ToolCall) (rows : Grants)
      → sql_entry grant.id rows ≡ spent grant
      → consume digest binding now grant task_id call rows ≡ (raise already_consumed, rows)
  unfolding consume
  refuse-spent now grant task_id call rows h = ground arith

-- A grant is consumed once: after a consume that succeeds, whatever the ledger is called for
-- next, at whatever times and for whatever task and call, a second consume of the grant is
-- refused and changes nothing.
pub consume-once :
    (digest : Digest) (binding : String) (now : ℕ) (grant : ApprovalGrant) (task_id : String)
    (call : ToolCall) (rows : Grants)
    → (consume digest binding now grant task_id call rows).0 ≡ ok tt
    → (calls : List LedgerCall) (later : ℕ) (other_task : String) (other_call : ToolCall)
    → let after =
        make_all digest binding calls (consume digest binding now grant task_id call rows).1 in
      consume digest binding later grant other_task other_call after
      ≡ (raise already_consumed, after)
consume-once digest binding now grant task_id call rows h calls later other_task other_call =
    refuse-spent digest binding later grant other_task other_call _ (
      entry-make_all digest binding calls _ grant
        (entry-consumed digest binding now grant task_id call rows h))
