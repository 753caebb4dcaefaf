-- ===== src/Table.antt =====
-- SQL tables as lists of rows in insertion order, for the statements that the stores run: a row
-- is selected and updated by its primary key, with a further condition on the row.
use forgeharness.Common.{
  ℕ, ◌+◌, ◌≡◌, ◌≢◌, refl, Bool, true, ◌&&◌, Option, none, some, List, [], ◌∷◌, ◌++◌, arith,
  if◌then◌else◌, holds, map_option, or_else,
}

module _ {A : Type 0} (p : A → Bool) where
  abbrev pub update_where : (A → A) → List A → List A
  update_where f [] = []
  update_where f (r ∷ l) = (if p r then f r else r) ∷ update_where f l

  abbrev pub count_where : List A → ℕ
  count_where [] = 0
  count_where (r ∷ l) = (if p r then 1 else 0) + count_where l

module _ {K A : Type 0} (d : Discrete K) (key : A → K) where
  -- SELECT ... WHERE key = k, one row
  abbrev pub find_key : K → List A → Option A
  find_key k [] = none
  find_key k (r ∷ l) = if holds (d k (key r)) then some r else find_key k l

  abbrev pub key_test : K → (A → Bool) → A → Bool
  key_test k guard r = holds (d k (key r)) && guard r

  -- UPDATE ... WHERE key = k AND guard
  abbrev pub update_key : K → (A → Bool) → (A → A) → List A → List A
  update_key k guard f l = update_where (key_test k guard) f l

  -- the `rowcount` of that statement
  abbrev pub count_key : K → (A → Bool) → List A → ℕ
  count_key k guard l = count_where (key_test k guard) l

  -- The primary key is unique.
  abbrev pub HasUniqueKeys : List A → Type 0
  HasUniqueKeys [] = Unit
  HasUniqueKeys (r ∷ l) = (find_key (key r) l ≡ none) × HasUniqueKeys l

  pub count_key-none :
      (k : K) (guard : A → Bool) (l : List A) → find_key k l ≡ none → count_key k guard l ≡ 0
  count_key-none k guard [] h = refl
  count_key-none k guard (r ∷ l) h = ground (arith, count_key-none k guard l)

  pub find_key-key : (k : K) (l : List A) (r : A) → find_key k l ≡ some r → key r ≡ k
  find_key-key k [] r h = cc
  find_key-key k (x ∷ l) r h = ground (arith, find_key-key k l r)

  pub count_key-some :
      (k : K) (guard : A → Bool) (l : List A) (r : A)
      → HasUniqueKeys l
      → find_key k l ≡ some r
      → count_key k guard l ≡ (if guard r then 1 else 0)
  count_key-some k guard [] r u h = cc
  count_key-some k guard (x ∷ l) r u h =
      elim (d k (key x)) as Q [
        | yes p ↦ λ e. ground (arith, count_key-none k guard l (rw p u.0))
        | no p ↦ λ e. ground (arith, count_key-some k guard l r u.1 e)
      ]
        h
    where
      Q : Dec (k ≡ key x) → Type 0
      Q t =
          (if holds t then some x else find_key k l) ≡ some r
          → (if holds t && guard x then 1 else 0) + count_key k guard l ≡ (if guard r then 1 else 0)

  pub find_key-append :
      (k : K) (l : List A) (x : A)
      → find_key k (l ++ x ∷ [])
        ≡ or_else (map_option some (find_key k l)) (if holds (d k (key x)) then some x else none)
  find_key-append k [] x = refl
  find_key-append k (r ∷ l) x = ground (arith, find_key-append k l x)

  pub unique-append :
      (l : List A) (x : A)
      → HasUniqueKeys l
      → find_key (key x) l ≡ none
      → HasUniqueKeys (l ++ x ∷ [])
  unique-append [] x u h = (refl, tt)
  unique-append (r ∷ l) x u h = ground (arith, unique-append l x u.1, find_key-append (key r) l x)

  module _ (p : A → Bool) (f : A → A) (keeps : (r : A) → key (f r) ≡ key r) where
    pub find_key-update :
        (i : K) (l : List A)
        → find_key i (update_where p f l) ≡ map_option (λ r. if p r then f r else r) (find_key i l)
    find_key-update i [] = refl
    find_key-update i (r ∷ l) = ground (arith, keeps r, find_key-update i l)

    pub unique-update : (l : List A) → HasUniqueKeys l → HasUniqueKeys (update_where p f l)
    unique-update [] u = tt
    unique-update (r ∷ l) u =
        ground (arith, keeps r, unique-update l u.1, find_key-update (key r) l)

module _ {K J A : Type 0} (d : Discrete K) (key : A → K) (d' : Discrete J) (key' : A → J) where
  -- A row that is found by one key is found by another that is unique.
  pub find_key-other :
      (k : K) (l : List A) (r : A)
      → HasUniqueKeys d' key' l
      → find_key d key k l ≡ some r
      → find_key d' key' (key' r) l ≡ some r
  find_key-other k [] r u h = cc
  find_key-other k (x ∷ l) r u h = ground (arith, find_key-other k l r u.1)

module _ {K A : Type 0} (d : Discrete K) (key : A → K) (f : A → A)
    (keeps : (r : A) → key (f r) ≡ key r) (k : K) (guard : A → Bool) (l : List A) (r : A)
    (found : find_key d key k l ≡ some r) (passes : guard r ≡ true) where
  -- The row that an UPDATE by key meets.
  pub find_key-update_self : find_key d key k (update_key d key k guard f l) ≡ some (f r)
  find_key-update_self = ground (
    arith,
    find_key-update d key (key_test d key k guard) f keeps k l,
    find_key-key d key k l r found,
  )

  pub count_key_self : HasUniqueKeys d key l → count_key d key k guard l ≡ 1
  count_key_self u = rw (count_key-some d key k guard l r u found) (rw passes)

module _ {K A : Type 0} (d : Discrete K) (key : A → K) (f : A → A)
    (keeps : (r : A) → key (f r) ≡ key r) (k other : K) (apart : k ≢ other) where
  -- The rows that an UPDATE by another key leaves.
  pub find_key-update_other :
      (guard : A → Bool) (l : List A)
      → find_key d key other (update_key d key k guard f l) ≡ find_key d key other l
  find_key-update_other guard [] = refl
  find_key-update_other guard (r ∷ l) = ground (arith, keeps r, find_key-update_other guard l)

  pub find_key-append_other :
      (l : List A) (x : A) → key x ≡ k → find_key d key other (l ++ x ∷ []) ≡ find_key d key other l
  find_key-append_other [] x e = ground (arith, apart)
  find_key-append_other (r ∷ l) x e = ground (arith, find_key-append_other l x e)
