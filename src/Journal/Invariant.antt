-- ===== src/Journal/Invariant.antt =====
-- The integrity of the journal's tables under every method of state/invocation_journal.py.
use forgeharness.Common.{
  ℕ, String, ◌≡◌, ◌≢◌, refl, Bool, true, Option, none, some, List, [], ◌∷◌, ◌++◌, arith, All,
  All-append, String_discrete, Keeps, keeps_rules, map_option, sym, ◌∙◌, inl, inr, Bool-cases,
}
use forgeharness.Table
use forgeharness.Table.{
  HasUniqueKeys, unique-append, unique-update, find_key-update, find_key-append, key_test, find_key,
}
use forgeharness.Domain.{Error, ToolOutput}
use forgeharness.Journal.Records.{
  InvocationState, failed, RecoveryDecision, InvocationRecord, AttemptRecord,
}
use forgeharness.Journal.Rows.{
  InvocationRow, Db, Codec, Exec, row_of, row_of_call, update_one, logical_call,
  logical_call-discrete, load_by_id,
}
use forgeharness.Journal.Store.{
  claim, mark_started, restart, settle, record_recovery_decision, claimed_row, decided_row,
  started_row, restarted_row, settled_row, settle_invocation,
}
use forgeharness.Journal.Attempts.{
  attempt_key, numbered, numbered-discrete, attempt_of, attempt_numbered, start_attempt,
  finish_attempt, reconcile_in_transaction, begun, reconciled_row, finished_row, is_open,
}

abbrev pub row_key : InvocationRow → String
row_key r = r.invocation_id

-- The schema's constraints: two primary keys, two UNIQUE pairs and a foreign key.
pub record IsValid (db : Db) : Type 0 where
  pub ids : HasUniqueKeys String_discrete row_key db.invocations
  pub calls : HasUniqueKeys logical_call-discrete logical_call db.invocations
  pub attempt_ids : HasUniqueKeys String_discrete attempt_key db.attempts
  pub numbers : HasUniqueKeys numbered-discrete numbered db.attempts
  pub owned : All (λ a. row_of a.invocation_id db ≢ none) db.attempts

map_option-none : {A B : Type 0} (f : A → B) (o : Option A) → map_option f o ≡ none → o ≡ none
map_option-none f none h = refl
map_option-none f (some a) h = cc

module _ (db db' : Db) (more : (id : String) → row_of id db ≢ none → row_of id db' ≢ none) where
  owned_by_more :
      (l : List AttemptRecord)
      → All (λ a. row_of a.invocation_id db ≢ none) l
      → All (λ a. row_of a.invocation_id db' ≢ none) l
  owned_by_more [] h = tt
  owned_by_more (a ∷ l) h = (more a.invocation_id h.0, owned_by_more l h.1)

module _ (p : InvocationRow → Bool) (f : InvocationRow → InvocationRow)
    (keeps_id : (r : InvocationRow) → row_key (f r) ≡ row_key r)
    (keeps_call : (r : InvocationRow) → logical_call (f r) ≡ logical_call r) where
  pub update-IsValid :
      (db : Db)
      → IsValid db
      → IsValid (record db { invocations = Table.update_where p f db.invocations })
  update-IsValid db v = record {
    ids = unique-update String_discrete row_key p f keeps_id db.invocations v.ids;
    calls = unique-update logical_call-discrete logical_call p f keeps_call db.invocations v.calls;
    attempt_ids = v.attempt_ids;
    numbers = v.numbers;
    owned =
        owned_by_more db (record db { invocations = Table.update_where p f db.invocations })
          (λ id h e. h (
            map_option-none _ (row_of id db)
              (sym (find_key-update String_discrete row_key p f keeps_id id db.invocations) ∙ e)))
          db.attempts v.owned;
  }

-- An UPDATE of one row that leaves its keys alone.
module _ (f : InvocationRow → InvocationRow)
    (keeps_id : (r : InvocationRow) → row_key (f r) ≡ row_key r)
    (keeps_call : (r : InvocationRow) → logical_call (f r) ≡ logical_call r) where
  pub update_one-Safe :
      (id : String) (test : InvocationRow → Bool) (e : Error)
      → Keeps IsValid (update_one id test f e)
  unfolding update_one
  update_one-Safe id test e = record {
    at = λ db v. ground (
      arith,
      update-IsValid (key_test String_discrete row_key id test) f keeps_id keeps_call db v,
    );
  }

pub insert-IsValid :
    (r : InvocationRow) (db : Db)
    → IsValid db
    → row_of r.invocation_id db ≡ none
    → row_of_call r.run_id r.logical_call_id db ≡ none
    → IsValid (record db { invocations = db.invocations ++ r ∷ [] })
insert-IsValid r db v new_id new_call = record {
  ids = unique-append String_discrete row_key db.invocations r v.ids new_id;
  calls = unique-append logical_call-discrete logical_call db.invocations r v.calls new_call;
  attempt_ids = v.attempt_ids;
  numbers = v.numbers;
  owned =
      owned_by_more db (record db { invocations = db.invocations ++ r ∷ [] })
        (λ id h e. ground (arith, find_key-append String_discrete row_key id db.invocations r))
        db.attempts v.owned;
}

pub insert_attempt-IsValid :
    (a : AttemptRecord) (db : Db)
    → IsValid db
    → attempt_of a.attempt_id db ≡ none
    → attempt_numbered a.invocation_id a.attempt_no db ≡ none
    → row_of a.invocation_id db ≢ none
    → IsValid (record db { attempts = db.attempts ++ a ∷ [] })
insert_attempt-IsValid a db v new_id new_number owner = record {
  ids = v.ids;
  calls = v.calls;
  attempt_ids = unique-append String_discrete attempt_key db.attempts a v.attempt_ids new_id;
  numbers = unique-append numbered-discrete numbered db.attempts a v.numbers new_number;
  owned = All-append _ db.attempts (a ∷ []) v.owned (owner, tt);
}

pub update_attempts-IsValid :
    (p : AttemptRecord → Bool) (now : ℕ) (b : AttemptRecord) (db : Db)
    → IsValid db
    → IsValid (record db { attempts = Table.update_where p (finished_row now b) db.attempts })
update_attempts-IsValid p now b db v = record {
  ids = v.ids;
  calls = v.calls;
  attempt_ids =
      unique-update String_discrete attempt_key p (finished_row now b) (λ r. refl) db.attempts
        v.attempt_ids;
  numbers =
      unique-update numbered-discrete numbered p (finished_row now b) (λ r. refl) db.attempts
        v.numbers;
  owned = owned_after db.attempts v.owned;
}
  where
    owned_after :
        (l : List AttemptRecord)
        → All (λ a. row_of a.invocation_id db ≢ none) l
        → All (λ a. row_of a.invocation_id db ≢ none) (Table.update_where p (finished_row now b) l)
    owned_after [] h = tt
    owned_after (a ∷ l) h = elim (Bool-cases (p a)) [
      | inl e ↦ rw e (h.0, owned_after l h.1)
      | inr e ↦ rw e (h.0, owned_after l h.1)
    ]

abbrev pub Safe : {A : Type 0} → Exec A → Type 0
Safe m = Keeps IsValid m

pub claim-Safe : (r : InvocationRecord) → Safe (claim r)
unfolding claim
claim-Safe r = record { at = λ db v. ground (arith, insert-IsValid (claimed_row r) db v) }

pub record_recovery_decision-Safe :
    (now : ℕ) (id : String) (state : InvocationState) (decision : RecoveryDecision)
    → Safe (record_recovery_decision now id state decision)
unfolding record_recovery_decision
record_recovery_decision-Safe now id state decision = record {
  at = λ db v.
      update-IsValid (key_test String_discrete row_key id (λ _. true))
        (decided_row now state decision) (λ r. refl) (λ r. refl) db v;
}

module _ (codec : Codec) where
  load_by_id-Safe : (id : String) → Safe (load_by_id codec id)
  unfolding load_by_id
  load_by_id-Safe id = record { at = λ db v. ground arith }

  pub mark_started-Safe :
      (now : ℕ) (id : String) (revision : ℕ) → Safe (mark_started codec now id revision)
  unfolding mark_started
  mark_started-Safe now id revision = search (
    keeps_rules,
    update_one-Safe (started_row now revision) (λ r. refl) (λ r. refl),
    load_by_id-Safe,
  )

  pub restart-Safe :
      (now : ℕ) (rec : InvocationRecord) (revision : ℕ) → Safe (restart codec now rec revision)
  unfolding restart
  restart-Safe now rec revision = search (
    keeps_rules,
    update_one-Safe (restarted_row now revision) (λ r. refl) (λ r. refl),
    load_by_id-Safe,
  )

  pub settle-Safe : (now : ℕ) (rec : InvocationRecord) → Safe (settle codec now rec)
  unfolding settle
  settle-Safe now rec =
      search (keeps_rules, update_one-Safe (settled_row codec now rec) (λ r. refl) (λ r. refl))

  pub reconcile-Safe :
      (same : Bool) (now : ℕ) (rec : InvocationRecord) (output : ToolOutput)
      → Safe (reconcile_in_transaction codec same now rec output)
  unfolding reconcile_in_transaction
  reconcile-Safe same now rec output = search (
    keeps_rules,
    update_one-Safe
        (reconciled_row codec output (settle_invocation codec rec output now failed) now)
        (λ r. refl) (λ r. refl),
  )

pub start_attempt-Safe : (a : AttemptRecord) → Safe (start_attempt a)
unfolding start_attempt
start_attempt-Safe a = record { at = λ db v. ground (arith, insert_attempt-IsValid (begun a) db v) }

pub finish_attempt-Safe : (now : ℕ) (a : AttemptRecord) → Safe (finish_attempt now a)
unfolding finish_attempt
finish_attempt-Safe now a = record {
  at = λ db v. ground (
    arith,
    update_attempts-IsValid (key_test String_discrete attempt_key a.attempt_id is_open) now a db v,
  );
}
