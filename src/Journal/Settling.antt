-- ===== src/Journal/Settling.antt =====
-- What the methods that start and settle an invocation leave in its row, and how the row is read
-- back.
use forgeharness.Common.{
  ℕ, String, ◌≡◌, refl, Bool, true, false, not, none, some, arith, map_option, Result, ok, raise,
  Outcome, Ends, Ends-bind, Ends-after, Keeps-guard, String_discrete, [], ◌∷◌, ◌++◌, subst, pure,
  ◌==◌,
}
use forgeharness.Table.{find_key-append, find_key-other}
use forgeharness.Domain.{
  Error, ToolOutput, non_terminal, result_too_large, already_terminal, not_claimed,
}
use forgeharness.Journal.Records.{claimed, terminal, InvocationState_eq, InvocationRecord}
use forgeharness.Journal.Rows.{
  InvocationRow, Db, Codec, RoundTrips, update_one, logical_call, logical_call-discrete,
  row_to_record, to_record, load_by_id,
}
use forgeharness.Journal.Store.{
  claim, claimed_row, mark_started, started_row, settle, settled_row, is_unsettled, too_large,
  is_known, load, is_known, load,
}
use forgeharness.Journal.Invariant.{IsValid, row_key, update_one-Safe, insert-IsValid}
use forgeharness.Journal.Final.{Stands}
use forgeharness.Journal.Updates.{update_one-ok}

-- The tables are valid and the invocation's row is `r`.
pub record Holds (i : String) (r : InvocationRow) (db : Db) : Type 0 where
  pub valid : IsValid db
  pub stands : Stands i r db

module _ (f : InvocationRow → InvocationRow)
    (keeps_id : (r : InvocationRow) → row_key (f r) ≡ row_key r)
    (keeps_call : (r : InvocationRow) → logical_call (f r) ≡ logical_call r) where
  update_one-Ends :
      (id : String) (test : InvocationRow → Bool) (e : Error) (r : InvocationRow)
      → test r ≡ true
      → Ends (Holds id r) (λ _ db. Holds id (f r) db) (update_one id test f e)
  update_one-Ends id test e r passes = record {
    at = λ db h.
        let (ended, row) = update_one-ok f keeps_id id test e db r h.valid.ids h.stands passes in
        after (update_one id test f e db).0 (update_one id test f e db).1 ended (record {
          valid = (update_one-Safe f keeps_id keeps_call id test e).at db h.valid;
          stands = row;
        });
  }
    where
      after :
          (res : Result Error (Unit {0})) (db : Db)
          → res ≡ ok tt
          → Holds id (f r) db
          → Outcome (Holds id r) (λ _ db. Holds id (f r) db) (res, db)
      after (ok a) db e h = h
      after (raise e) db p h = cc

module _ (codec : Codec) where
  -- Settling an unsettled row with a terminal record writes that record's result into the row, or
  -- raises and leaves the row as it was.
  pub settle-Ends :
      (now : ℕ) (rec : InvocationRecord) (r : InvocationRow)
      → is_unsettled r ≡ true
      → Ends
          (Holds rec.invocation_id r)
          (λ rec' db. (rec' ≡ rec) × Holds rec.invocation_id (settled_row codec now rec r) db)
          (settle codec now rec)
  unfolding settle
  settle-Ends now rec r open_row =
      Ends-bind _ _ (Keeps-guard (terminal rec.state) non_terminal) λ _.
        Ends-bind _ _
          (Keeps-guard (not (too_large (map_option codec.dump rec.result))) result_too_large)
          λ _.
            Ends-after (Holds rec.invocation_id r)
              (λ _ db. Holds rec.invocation_id (settled_row codec now rec r) db)
              (λ rec' db. (rec' ≡ rec) × Holds rec.invocation_id (settled_row codec now rec r) db) _
              (λ _. pure rec)
              (update_one-Ends (settled_row codec now rec) (λ r. refl) (λ r. refl) rec.invocation_id
                is_unsettled already_terminal r open_row)
              (λ _ db h. (refl, h))

  pub settle_at-Ends :
      (now : ℕ) (rec : InvocationRecord) (r : InvocationRow) (id : String)
      → rec.invocation_id ≡ id
      → is_unsettled r ≡ true
      → Ends
          (Holds id r)
          (λ rec' db. (rec' ≡ rec) × Holds id (settled_row codec now rec r) db)
          (settle codec now rec)
  settle_at-Ends now rec r id e open_row =
      subst
        (λ i.
          Ends (Holds i r) (λ rec' db. (rec' ≡ rec) × Holds i (settled_row codec now rec r) db)
            (settle codec now rec))
        e (settle-Ends now rec r open_row)

  -- The record that `load_by_id` makes of a row with no result.
  pub row_to_record-fresh :
      (r : InvocationRow)
      → r.result ≡ none
      → r.version ≡ 1
      → row_to_record codec r ≡ ok (to_record r none)
  unfolding row_to_record
  row_to_record-fresh r no_result current = rw no_result (ground arith)

  load_by_id-fresh :
      (id : String) (r : InvocationRow) (db : Db)
      → Stands id r db
      → r.result ≡ none
      → r.version ≡ 1
      → load_by_id codec id db ≡ (ok (some (to_record r none)), db)
  unfolding load_by_id
  load_by_id-fresh id r db h no_result current =
      ground (arith, row_to_record-fresh r no_result current)

  -- A claimed row with no result is started.
  pub mark_started-ok :
      (now : ℕ) (id : String) (revision : ℕ) (r : InvocationRow) (db : Db)
      → r.state ≡ claimed
      → r.result ≡ none
      → r.version ≡ 1
      → Holds id r db
      → (db' : Db) × (mark_started codec now id revision db
          ≡ (ok (to_record (started_row now revision r) none), db'))
        × Holds id (started_row now revision r) db'
  unfolding mark_started
  mark_started-ok now id revision r db is_claimed no_result current h =
      let (ended, row) =
        update_one-ok (started_row now revision) (λ r. refl) id (λ r. r.state == claimed)
          not_claimed db r h.valid.ids h.stands (ground arith) in
      let db' =
        (update_one id (λ r. r.state == claimed) (started_row now revision) not_claimed db).1 in
      (
        db',
        ground (arith, load_by_id-fresh id (started_row now revision r) db' row no_result current),
        record {
          valid =
              (update_one-Safe (started_row now revision) (λ r. refl) (λ r. refl) id
                  (λ r. r.state == claimed) not_claimed).at
                db h.valid;
          stands = row;
        },
      )

  -- The record that `_row_to_record` makes of a row with the text of an output and its digest.
  pub row_to_record-settled :
      (r : InvocationRow) (o : ToolOutput)
      → r.result ≡ some (codec.dump o)
      → r.result_digest ≡ some (codec.sha256 (codec.dump o))
      → r.version ≡ 1
      → RoundTrips codec o
      → row_to_record codec r ≡ ok (to_record r (some o))
  unfolding row_to_record
  row_to_record-settled r o text digest current t =
      rw (text, digest) (ground (arith, t.parses, t.is_text))

  -- What `load` returns for the row of a logical call.
  pub load-row :
      (id run call : String) (r : InvocationRow) (rec : InvocationRecord) (db : Db)
      → Holds id r db
      → r.run_id ≡ run
      → r.logical_call_id ≡ call
      → row_to_record codec r ≡ ok rec
      → load codec run call db ≡ (ok (some rec), db)
  unfolding load
  load-row id run call r rec db h e f readable =
      let found =
        find_key-other String_discrete row_key logical_call-discrete logical_call id db.invocations
          r h.valid.calls h.stands in
      ground (arith, found)

-- A call that is not yet in the journal is claimed.
pub claim-ok :
    (rec : InvocationRecord) (db : Db)
    → IsValid db
    → is_known rec db ≡ false
    → (db' : Db) × (claim rec db ≡ (ok rec, db')) × Holds rec.invocation_id (claimed_row rec) db'
unfolding claim
claim-ok rec db v fresh = (
  record db { invocations = db.invocations ++ claimed_row rec ∷ [] },
  ground arith,
  record {
    valid = ground (arith, insert-IsValid (claimed_row rec) db v);
    stands = ground (
      arith,
      find_key-append String_discrete row_key rec.invocation_id db.invocations (claimed_row rec),
    );
  },
)
