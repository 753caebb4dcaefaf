-- ===== src/Todos/Board.antt =====
-- What holds of every board that runtime/todos.py builds.
use forgeharness.Common.{
  ℕ, zero, suc, ◌+◌, ◌≡◌, ◌≤◌, refl, ap, subst, String, false, Option, none, some, List, [], ◌∷◌,
  arith, Result, ok, raise, any, length, ◌==◌, String_eq, Bool-cases, inl, inr,
}
use forgeharness.Todos.{
  TodoItem, TodoError, TodoBoard, TodoSnapshot, Todos_eq, max_todos, set_of, identifiers,
  in_progress_count, ℤ, pos, negsuc, validated, replace_with, replace, reset, restore, restore_with,
  install, restored_revision, initial_revision, new_board, new_with,
}

-- No text of the list comes again in it.
abbrev pub IsUnique : List String → Type 0
IsUnique [] = Unit
IsUnique (x ∷ xs) = (any (λ (y : String). x == y) xs ≡ false) × IsUnique xs

length-set_of : (xs : List String) → length (set_of xs) ≤ length xs
unfolding set_of
length-set_of [] = omega arith
length-set_of (x ∷ xs) = ground (arith, length-set_of xs)

set_of-IsUnique : (xs : List String) → length (set_of xs) ≡ length xs → IsUnique xs
unfolding set_of
set_of-IsUnique [] h = tt
set_of-IsUnique (x ∷ xs) h =
    (ground (arith, length-set_of xs), set_of-IsUnique xs (ground (arith, length-set_of xs)))

pub record IsValid (b : TodoBoard) : Type 0 where
  pub few : length b.todos ≤ max_todos
  pub distinct : IsUnique (identifiers b.todos)
  pub one_in_progress : in_progress_count b.todos ≤ 1
  pub revised : b.revision ≡ 0 → b.todos ≡ []

validated-ok :
    (todos l : List TodoItem)
    → validated todos ≡ ok l
    → (l ≡ todos)
      × (length todos ≤ max_todos)
      × IsUnique (identifiers todos)
      × (in_progress_count todos ≤ 1)
unfolding validated
validated-ok todos l h =
    (ground arith, ground arith, set_of-IsUnique (identifiers todos) (ground arith), ground arith)

replace_with-IsValid :
    (todos : List TodoItem) (r : Result TodoError (List TodoItem)) (b : TodoBoard)
    → validated todos ≡ r
    → IsValid b
    → IsValid (replace_with r b).1
replace_with-IsValid todos (raise e) b h v = v
replace_with-IsValid todos (ok l) b h v =
    let (same, few, distinct, one) = validated-ok todos l h in
    let changed : IsValid (record { todos = l; revision = b.revision + 1 }) = record {
      few = rw same few;
      distinct = rw same distinct;
      one_in_progress = rw same one;
      revised = λ e. absurd (omega (arith, e));
    } in
    elim (Bool-cases (l == b.todos)) [ inl e ↦ rw e v | inr e ↦ rw e changed ]

install-IsValid :
    (l : List TodoItem) (revision : Option ℕ) (b : TodoBoard)
    → length l ≤ max_todos
    → IsUnique (identifiers l)
    → in_progress_count l ≤ 1
    → (revision ≡ some 0 → l ≡ [])
    → IsValid b
    → IsValid (install l revision b).1
install-IsValid l none b few distinct one empty v = v
install-IsValid l (some n) b few distinct one empty v = record {
  few = few;
  distinct = distinct;
  one_in_progress = one;
  revised = λ e. empty (ap (λ m. some m) e);
}

restored_revision-zero :
    (l : List TodoItem) (revision : Option ℤ) → restored_revision l revision ≡ some 0 → l ≡ []
restored_revision-zero [] revision h = refl
restored_revision-zero (i ∷ l) none h = ground arith
restored_revision-zero (i ∷ l) (some (negsuc n)) h = cc
restored_revision-zero (i ∷ l) (some (pos zero)) h = cc
restored_revision-zero (i ∷ l) (some (pos (suc n))) h = ground arith

restore_with-IsValid :
    (todos : List TodoItem) (revision : Option ℤ) (r : Result TodoError (List TodoItem))
    (b : TodoBoard)
    → validated todos ≡ r
    → IsValid b
    → IsValid (restore_with r revision b).1
restore_with-IsValid todos revision (raise e) b h v = v
restore_with-IsValid todos revision (ok l) b h v =
    let (same, few, distinct, one) = validated-ok todos l h in
    install-IsValid l (restored_revision l revision) b (rw same few) (rw same distinct)
      (rw same one) (restored_revision-zero l revision) v

-- A call of a board's methods.
pub data BoardCall : Type 0 where
  replace_call : List TodoItem → BoardCall
  restore_call : List TodoItem → Option ℤ → BoardCall
  reset_call : BoardCall

unfoldable pub call : BoardCall → TodoBoard → TodoBoard
call (replace_call todos) b = (replace todos b).1
call (restore_call todos revision) b = (restore todos revision b).1
call reset_call b = reset b

unfoldable pub call_all : List BoardCall → TodoBoard → TodoBoard
unfolding call
call_all [] b = b
call_all (c ∷ calls) b = call_all calls (call c b)

call-IsValid : (c : BoardCall) (b : TodoBoard) → IsValid b → IsValid (call c b)
unfolding call replace restore reset
call-IsValid (replace_call todos) b v = replace_with-IsValid todos (validated todos) b refl v
call-IsValid (restore_call todos revision) b v =
    restore_with-IsValid todos revision (validated todos) b refl v
call-IsValid reset_call b v = record {
  few = omega arith;
  distinct = tt;
  one_in_progress = omega arith;
  revised = λ e. refl;
}

call_all-IsValid : (calls : List BoardCall) (b : TodoBoard) → IsValid b → IsValid (call_all calls b)
unfolding call_all
call_all-IsValid [] b v = v
call_all-IsValid (c ∷ calls) b v = call_all-IsValid calls (call c b) (call-IsValid c b v)

empty-IsValid : IsValid (record { todos = []; revision = 0 })
empty-IsValid = record {
  few = omega arith;
  distinct = tt;
  one_in_progress = omega arith;
  revised = λ e. refl;
}

new_with-IsValid :
    (todos : List TodoItem) (r : Result TodoError (List TodoItem)) (b : TodoBoard)
    → validated todos ≡ r
    → new_with r ≡ ok b
    → IsValid b
new_with-IsValid todos (raise e) b h made = cc
new_with-IsValid todos (ok l) b h made =
    let (same, few, distinct, one) = validated-ok todos l h in
    let built =
      install-IsValid l (some (initial_revision l)) (record { todos = []; revision = 0 })
        (rw same few) (rw same distinct) (rw same one) (restored_revision-zero l none)
        empty-IsValid in
    let is_b : record { todos = l; revision = initial_revision l } ≡ b = ground arith in
    subst IsValid is_b built

-- Every board that is built and then called in any way, whether the calls return or raise, has at
-- most 50 items with different ids, at most one of them in progress, and a positive revision
-- unless it is empty.
pub board-IsValid :
    (todos : List TodoItem) (b : TodoBoard) (calls : List BoardCall)
    → new_board todos ≡ ok b
    → IsValid (call_all calls b)
unfolding new_board
board-IsValid todos b calls made =
    call_all-IsValid calls b (new_with-IsValid todos (validated todos) b refl made)

-- Replacing a board is idempotent: a replacement that has succeeded, when it is made again,
-- returns the same snapshot, revision included, and leaves the board as it is.
pub replace-twice :
    (todos : List TodoItem) (b : TodoBoard) (s : TodoSnapshot)
    → (replace todos b).0 ≡ ok s
    → replace todos (replace todos b).1 ≡ (ok s, (replace todos b).1)
unfolding replace
replace-twice todos b s h = repeated (validated todos) h
  where
    repeated :
        (r : Result TodoError (List TodoItem))
        → (replace_with r b).0 ≡ ok s
        → replace_with r (replace_with r b).1 ≡ (ok s, (replace_with r b).1)
    repeated (raise e) h = cc
    repeated (ok l) h = ground arith
