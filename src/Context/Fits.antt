-- ===== src/Context/Fits.antt =====
-- What `assemble` returns fits the window and leaves the reserved tokens free.
use forgeharness.Common.{
  ℕ, ◌+◌, ◌-◌, ◌≤◌, ◌≡◌, ap, sym, subst, true, false, not, String, Option, none, some, List, [],
  ◌∷◌, length, All, any, ok, leb, ltb, ◌==◌, take, total, arith, Returned, Returned-if,
  Returned-choice, Returned-ok,
}
use forgeharness.Domain.{Message, system}
use forgeharness.Context.Units.{TurnUnit, turn_units, tokens_of, Role_eq}
use forgeharness.Context.Windows.{longest_fitting, newest_units_within-longest_fitting}
use forgeharness.Context.Result.{
  ContextAssembler, AssembledContext, estimate, result, leading_system, after_system, summary_part,
  not_system_pinned, spill_dropped, collected_pins, over_budget,
}
use forgeharness.Context.Assembly.{
  Selection, summary_of, included_of, dropped_of, room_of, selection, select_from, assemble_tail,
  summarized, summary_text, compact, assemble_units, assemble,
}
use forgeharness.Context.Selection.{
  unit_weight, total-sent_messages, longest_fitting-Divided, longest_fitting-le,
  longest_fitting-All, IsSized, turn_units-IsSized, total-IsSized, required_units-All,
  optional_units-All,
}

module _ (a : ContextAssembler) where
  abbrev Fits : ℕ → AssembledContext → Type 0
  Fits reserved r = r.estimated_tokens + reserved ≤ a.max_tokens

  result-estimated :
      (leading pinned : List Message) (included required : List TurnUnit)
      (c : Option (Message × List TurnUnit)) (original : List Message) (objective : Option ℕ)
      (reference : Option String)
      → (result a leading pinned included required c original objective reference).estimated_tokens
        ≡ total (estimate a) leading
          + total (estimate a) pinned
          + total (estimate a) (summary_part c)
          + total (unit_weight (estimate a)) included
          + total (unit_weight (estimate a)) required
  unfolding result
  result-estimated leading pinned included required c original objective reference =
      total-sent_messages (estimate a) leading pinned included required c objective

  -- What is assumed of a selection: its turns are sized, and the budget is not yet exceeded.
  record IsWithin (reserved : ℕ) (s : Selection a) : Type 0 where
    required_sized : All (IsSized (estimate a)) s.required
    optional_sized : All (IsSized (estimate a)) s.optional
    within :
        total (estimate a) s.leading
          + total (estimate a) s.pinned
          + total tokens_of s.required
          + s.remaining
          + reserved
        ≤ a.max_tokens

  window_of : Selection a → ℕ
  window_of s = s.remaining - estimate a (summary_of a s.optional a.summary_chars none)

  included-longest : (s : Selection a) → included_of a s ≡ longest_fitting s.optional (window_of s)
  unfolding window_of
  included-longest s = newest_units_within-longest_fitting s.optional (window_of s)

  included-le : (s : Selection a) → total tokens_of (included_of a s) ≤ s.remaining
  unfolding window_of
  included-le s =
      let le = longest_fitting-le s.optional (window_of s) in
      let e = ap (total tokens_of) (included-longest s) in omega (arith, e, le)

  included-All :
      (P : TurnUnit → Type 0) (s : Selection a) → All P s.optional → All P (included_of a s)
  included-All P s h =
      subst (All P) (sym (included-longest s)) (longest_fitting-All P s.optional (window_of s) h)

  pub included-dropped :
      (w : TurnUnit → ℕ) (s : Selection a)
      → total w (dropped_of a s) + total w (included_of a s) ≡ total w s.optional
  included-dropped w s =
      subst
        (λ l.
          total w (take (length s.optional - length l) s.optional) + total w l ≡ total w s.optional)
        (sym (included-longest s)) (longest_fitting-Divided w s.optional (window_of s))

  summarized-Fits :
      (reserved : ℕ) (s : Selection a) (reference : Option (Option String))
      → IsWithin reserved s
      → Returned (Fits reserved) (summarized a s reference)
  summarized-Fits reserved s none h = tt
  summarized-Fits reserved s (some reference) h =
      let summary = summary_text a s reference in
      Returned-if (Fits reserved) (ltb (room_of a s) (estimate a summary)) over_budget _ (λ e.
        let c : Option (Message × List TurnUnit) = some (summary, dropped_of a s) in
        omega (
          arith,
          within_room e,
          h.within,
          included-le s,
          total-IsSized (estimate a) s.required h.required_sized,
          total-IsSized (estimate a) (included_of a s)
              (included-All (IsSized (estimate a)) s h.optional_sized),
          result-estimated s.leading s.pinned (included_of a s) s.required c s.original s.objective
              reference,
        ))
    where
      within_room : {n m : ℕ} → ltb n m ≡ false → m ≤ n
      within_room e = ground arith

  compact-Fits :
      (reserved : ℕ) (s : Selection a)
      → IsWithin reserved s
      → Returned (Fits reserved) (compact a s)
  unfolding compact
  compact-Fits reserved s h = summarized-Fits reserved s (spill_dropped a (dropped_of a s)) h

  select_from-Fits :
      (reserved : ℕ) (s : Selection a)
      → IsWithin reserved s
      → Returned (Fits reserved) (select_from a s)
  select_from-Fits reserved s h =
      Returned-choice (Fits reserved) (leb (total tokens_of s.optional) s.remaining) _ _
        (λ e. omega (
          arith,
          within_room e,
          h.within,
          total-IsSized (estimate a) s.required h.required_sized,
          total-IsSized (estimate a) s.optional h.optional_sized,
          result-estimated s.leading s.pinned s.optional s.required none s.original s.objective
              none,
        ))
        (λ e. compact-Fits reserved s h)
    where
      within_room : {n m : ℕ} → leb n m ≡ true → n ≤ m
      within_room e = ground arith

  assemble_units-Fits :
      (leading pinned : List Message) (units : List TurnUnit) (original : List Message)
      (reserved : ℕ)
      → All (IsSized (estimate a)) units
      → Returned (Fits reserved) (
          assemble_units a leading pinned units original
            (total (estimate a) leading + total (estimate a) pinned)
            reserved)
  unfolding assemble_units
  assemble_units-Fits leading pinned units original reserved h =
      let base = total (estimate a) leading + total (estimate a) pinned in
      let s = selection a leading pinned units original base reserved in
      Returned-if (Fits reserved) _ over_budget (select_from a s) (λ e.
        select_from-Fits reserved s (record {
          required_sized = required_units-All a units (IsSized (estimate a)) h;
          optional_sized = optional_units-All a units (IsSized (estimate a)) h;
          within = ground arith;
        }))

  assemble_tail-Fits :
      (leading pinned tail original : List Message) (reserved : ℕ)
      → Returned (Fits reserved) (
          assemble_tail a leading pinned tail original
            (total (estimate a) leading + total (estimate a) pinned)
            reserved)
  assemble_tail-Fits leading pinned [] original reserved =
      let e = result-estimated leading pinned [] [] none original none none in
      Returned-if (Fits reserved)
        (ltb a.max_tokens (total (estimate a) leading + total (estimate a) pinned + reserved))
        over_budget (ok (result a leading pinned [] [] none original none none))
        (λ h. ground (arith, e))
  assemble_tail-Fits leading pinned (m ∷ tail) original reserved =
      assemble_units-Fits leading pinned (turn_units (estimate a) (length leading) (m ∷ tail))
        original reserved (turn_units-IsSized (estimate a) (length leading) (m ∷ tail))

  -- The messages that `assemble` returns, whichever way it has selected them, take within the
  -- window what the reserved tokens leave.
  pub assemble-le :
      (messages : List Message) (reserved : ℕ) (pinned : List Message) {r : AssembledContext}
      → assemble a messages reserved pinned ≡ ok r
      → r.estimated_tokens + reserved ≤ a.max_tokens
  unfolding assemble
  assemble-le messages reserved pinned e =
      let pins = collected_pins a pinned in
      Returned-ok (Fits reserved) _
        (Returned-if (Fits reserved) (any (λ (m : Message). not (m.role == system)) pins)
          not_system_pinned _
          (λ _.
            assemble_tail-Fits (leading_system messages) pins (after_system messages) messages
              reserved))
        e
