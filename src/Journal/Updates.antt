-- ===== src/Journal/Updates.antt =====
-- What the journal's UPDATE of one invocation does to each row.
use forgeharness.Common.{
  String, ◌≡◌, Bool, true, false, none, some, arith, String_discrete, if◌then◌else◌, map_option, ok,
  raise,
}
use forgeharness.Table
use forgeharness.Table.{
  find_key-update, find_key-key, find_key-append, key_test, count_key-some, count_key-none,
  HasUniqueKeys,
}
use forgeharness.Domain.{Error}
use forgeharness.Journal.Rows.{InvocationRow, Db, row_of, update_one}
use forgeharness.Journal.Invariant.{row_key}

module _ (f : InvocationRow → InvocationRow)
    (keeps_id : (r : InvocationRow) → row_key (f r) ≡ row_key r) (id : String)
    (test : InvocationRow → Bool) (e : Error) (db : Db) where
  abbrev updated : Db
  updated = record db {
    invocations = Table.update_where (key_test String_discrete row_key id test) f db.invocations;
  }

  row_of-updated :
      (i : String)
      → row_of i updated
        ≡ map_option
            (λ r. if key_test String_discrete row_key id test r then f r else r)
            (row_of i db)
  row_of-updated i =
      find_key-update String_discrete row_key (key_test String_discrete row_key id test) f keeps_id
        i db.invocations

  -- The row is there and passes the test: it alone is rewritten.
  pub update_one-ok :
      (r : InvocationRow)
      → HasUniqueKeys String_discrete row_key db.invocations
      → row_of id db ≡ some r
      → test r ≡ true
      → ((update_one id test f e db).0 ≡ ok tt)
        × (row_of id (update_one id test f e db).1 ≡ some (f r))
  unfolding update_one
  update_one-ok r unique found passes = ground (
    arith,
    row_of-updated id,
    count_key-some String_discrete row_key id test db.invocations r unique found,
    find_key-key String_discrete row_key id db.invocations r found,
  )

  pub update_one-missing : row_of id db ≡ none → update_one id test f e db ≡ (raise e, db)
  unfolding update_one
  update_one-missing absent =
      ground (arith, count_key-none String_discrete row_key id test db.invocations absent)

  pub update_one-refused :
      (r : InvocationRow)
      → HasUniqueKeys String_discrete row_key db.invocations
      → row_of id db ≡ some r
      → test r ≡ false
      → update_one id test f e db ≡ (raise e, db)
  unfolding update_one
  update_one-refused r unique found fails =
      ground (arith, count_key-some String_discrete row_key id test db.invocations r unique found)

  -- A row that the statement does not meet stays as it is.
  pub update_one-other :
      (i : String) (r : InvocationRow)
      → row_of i db ≡ some r
      → key_test String_discrete row_key id test r ≡ false
      → row_of i (update_one id test f e db).1 ≡ some r
  unfolding update_one
  update_one-other i r found fails = ground (arith, row_of-updated i)
