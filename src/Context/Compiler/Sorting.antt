-- ===== src/Context/Compiler/Sorting.antt =====
-- The order in which context/compiler.py decides on the items.
use forgeharness.Common.{
  ℕ, ◌+◌, ◌≡◌, refl, Bool, true, false, List, [], ◌∷◌, if◌then◌else◌, arith, total, Bool-cases, inl,
  inr,
}
use forgeharness.Context.Order.{text_precedes-asymmetric}
use forgeharness.Context.Compiler.{ContextItem, precedes, insert_item, sort_items}

module _ {Score : Type 0} (is_same is_above : Score → Score → Bool) where
  -- No item precedes the one before it.
  abbrev pub IsSorted : List (ContextItem is_same is_above) → Type 0
  IsSorted [] = Unit
  IsSorted (i ∷ []) = Unit
  IsSorted (i ∷ j ∷ items) = (precedes is_same is_above j i ≡ false) × IsSorted (j ∷ items)

  pub total-sort_items :
      (weight : ContextItem is_same is_above → ℕ) (items : List (ContextItem is_same is_above))
      → total weight (sort_items is_same is_above items) ≡ total weight items
  total-sort_items weight [] = refl
  total-sort_items weight (i ∷ items) = omega (
    arith,
    total-insert_item i (sort_items is_same is_above items),
    total-sort_items weight items,
  )
    where
      total-insert_item :
          (a : ContextItem is_same is_above) (l : List (ContextItem is_same is_above))
          → total weight (insert_item is_same is_above a l) ≡ weight a + total weight l
      total-insert_item a [] = refl
      total-insert_item a (i ∷ l) = elim (Bool-cases (precedes is_same is_above i a)) [
        | inl e ↦ rw e (omega (arith, total-insert_item a l))
        | inr e ↦ rw e refl
      ]

  module _ (same_both : (s t : Score) → is_same s t ≡ is_same t s)
      (not_both : (s t : Score) → is_above s t ≡ true → is_above t s ≡ false) where
    precedes-asymmetric :
        (i j : ContextItem is_same is_above)
        → precedes is_same is_above i j ≡ true
        → precedes is_same is_above j i ≡ false
    precedes-asymmetric i j h = ground (
      arith,
      same_both i.score j.score,
      not_both i.score j.score,
      text_precedes-asymmetric i.id j.id,
    )

    insert_item-IsSorted :
        (a : ContextItem is_same is_above) (l : List (ContextItem is_same is_above))
        → IsSorted l
        → IsSorted (insert_item is_same is_above a l)
    insert_item-IsSorted a [] h = tt
    insert_item-IsSorted a (i ∷ []) h = elim (Bool-cases (precedes is_same is_above i a)) [
      | inl e ↦ rw e (precedes-asymmetric i a e, tt)
      | inr e ↦ rw e (e, tt)
    ]
    insert_item-IsSorted a (i ∷ j ∷ l) h = elim (Bool-cases (precedes is_same is_above i a)) [
      | inl e ↦ rw e (
          after i a j l (insert_item is_same is_above a l) (precedes is_same is_above j a) e h.0
            (insert_item-IsSorted a (j ∷ l) h.1))
      | inr e ↦ rw e (e, h)
    ]
      where
        after :
            (i a j : ContextItem is_same is_above) (l rest : List (ContextItem is_same is_above))
            (ahead : Bool)
            → precedes is_same is_above i a ≡ true
            → precedes is_same is_above j i ≡ false
            → IsSorted (if ahead then j ∷ rest else a ∷ j ∷ l)
            → IsSorted (i ∷ (if ahead then j ∷ rest else a ∷ j ∷ l))
        after i a j l rest true e first h = (first, h)
        after i a j l rest false e first h = (precedes-asymmetric i a e, h)

    pub sort_items-IsSorted :
        (items : List (ContextItem is_same is_above)) → IsSorted (sort_items is_same is_above items)
    sort_items-IsSorted [] = tt
    sort_items-IsSorted (i ∷ items) =
        insert_item-IsSorted i (sort_items is_same is_above items) (sort_items-IsSorted items)
