-- ===== src/Context/Compiler/Chosen.antt =====
-- Which fragments `ContextCompiler.compile` takes, and the text they make (context/compiler.py).
use Prim.Native.String.{◌++◌ as append_text, count}
use Prim.Native.String.append
use Prim.Native.String.count.{nil, cons}
use mathlib.Core.List.{map-append}
use forgeharness.Common.{
  ℕ, ◌≤◌, ◌≡◌, refl, sym, ap, ◌∙◌, String, Bool, true, false, not, ◌&&◌, ◌||◌, List, [], ◌∷◌, ◌++◌,
  map, Result, ok, raise, if◌then◌else◌, ◌==◌, ℕ_eq, String_eq, String_discrete, holds, leb, length,
  arith, Returned, Returned-if, Returned-ok, join_all, join_all-last, total,
}
use forgeharness.Todos.{set_of}
use forgeharness.Context.Result.{ContextDecision}
use forgeharness.Context.Compiler.{
  CompileError, duplicate_items, over_limit, CompiledContext, ContextItem, fragment, addition_to,
  decision_on, noting, choose, compile, sort_items,
}
use forgeharness.Context.Compiler.Sorting.{IsSorted, total-sort_items, sort_items-IsSorted}

full : (t : String) → (String.◌∷◌ "<" t == "") ≡ false
full t = elim (String_discrete (String.◌∷◌ "<" t) "") as (λ d. holds d ≡ false) [
  | yes e ↦ absurd (omega (arith, ap count e, cons "<" t, nil))
  | no _ ↦ refl
]

module _ {Score : Type 0} (is_same is_above : Score → Score → Bool) (max_tokens : ℕ)
    (estimator : String → ℕ) (repr : String → String) where
  -- the text of some items: their fragments with a blank line between them
  abbrev pub text_of : List (ContextItem is_same is_above) → String
  text_of items = join_all "\n\n" (map (fragment is_same is_above max_tokens estimator repr) items)

  -- After the items `done` are taken: one decision on each item in order, which takes it just when
  -- the text with it is within the limit, and a required item always. The text is that of the
  -- items taken.
  abbrev pub IsChosen :
      List (ContextItem is_same is_above)
      → List (ContextItem is_same is_above)
      → List ContextDecision
      → String
      → Type 0
  IsChosen done [] [] text = text ≡ text_of done
  IsChosen done [] (d ∷ decisions) text = ⊥
  IsChosen done (i ∷ items) [] text = ⊥
  IsChosen done (i ∷ items) (d ∷ decisions) text =
      (d.item_id ≡ i.id)
      × (not i.required || d.included ≡ true)
      × (d.included ≡ leb (estimator (text_of (done ++ i ∷ []))) max_tokens)
      × IsChosen (if d.included then done ++ i ∷ [] else done) items decisions text

  -- What `compile` makes of some items.
  pub record IsCompiled (items : List (ContextItem is_same is_above)) (c : CompiledContext)
      : Type 0 where
    pub within : c.estimated_tokens ≤ max_tokens
    pub estimated : c.estimated_tokens ≡ estimator c.text
    pub ordered : List (ContextItem is_same is_above)
    pub same_items :
        (weight : ContextItem is_same is_above → ℕ) → total weight ordered ≡ total weight items
    pub sorted : IsSorted is_same is_above ordered
    pub chosen : IsChosen [] ordered c.decisions c.text

  record IsFilled (done items : List (ContextItem is_same is_above)) (c : CompiledContext)
      : Type 0 where
    within : c.estimated_tokens ≤ max_tokens
    estimated : c.estimated_tokens ≡ estimator c.text
    chosen : IsChosen done items c.decisions c.text

  -- A fragment is not empty, so a text that holds one is not.
  text_of-full :
      (i : ContextItem is_same is_above) (items : List (ContextItem is_same is_above))
      → (text_of (i ∷ items) == "") ≡ false
  text_of-full i [] =
      ap (λ t. t == "") (append.cons "<" "context source=" _)
      ∙ full (append_text "context source=" _)
  text_of-full i (j ∷ items) =
      ap (λ t. append_text t (append_text "\n\n" (text_of (j ∷ items))) == "")
        (append.cons "<" "context source=" _)
      ∙ ap (λ t. t == "") (append.cons "<" _ _)
      ∙ full _

  addition-text_of :
      (done : List (ContextItem is_same is_above)) (i : ContextItem is_same is_above)
      → append_text
          (text_of done)
          (addition_to is_same is_above max_tokens estimator repr (text_of done) i)
        ≡ text_of (done ++ i ∷ [])
  unfolding String_discrete
  addition-text_of [] i =
      append.nil (append_text "" (fragment is_same is_above max_tokens estimator repr i))
      ∙ append.nil (fragment is_same is_above max_tokens estimator repr i)
  addition-text_of (d ∷ done) i =
      ap
        (λ (b : Bool). append_text (text_of (d ∷ done)) (
          append_text (if b then "" else "\n\n")
            (fragment is_same is_above max_tokens estimator repr i)))
        (text_of-full d done)
      ∙ sym (
          join_all-last "\n\n" (fragment is_same is_above max_tokens estimator repr d)
            (map (fragment is_same is_above max_tokens estimator repr) done)
            (fragment is_same is_above max_tokens estimator repr i))
      ∙ ap (join_all "\n\n") (
          sym
            (map-append (fragment is_same is_above max_tokens estimator repr) (d ∷ done) (i ∷ [])))

  noting-IsFilled :
      (done items : List (ContextItem is_same is_above)) (i : ContextItem is_same is_above)
      (d : ContextDecision) (r : Result CompileError CompiledContext)
      → d.item_id ≡ i.id
      → not i.required || d.included ≡ true
      → d.included ≡ leb (estimator (text_of (done ++ i ∷ []))) max_tokens
      → Returned (IsFilled (if d.included then done ++ i ∷ [] else done) items) r
      → Returned (IsFilled done (i ∷ items)) (noting is_same is_above max_tokens estimator repr d r)
  noting-IsFilled done items i d (raise e) same included fits h = tt
  noting-IsFilled done items i d (ok c) same included fits h = record {
    within = h.within;
    estimated = h.estimated;
    chosen = (same, included, fits, h.chosen);
  }

  choose-IsFilled :
      (done items : List (ContextItem is_same is_above)) (text : String) (used : ℕ)
      → text ≡ text_of done
      → used ≤ max_tokens
      → used ≡ estimator text
      → Returned
          (IsFilled done items)
          (choose is_same is_above max_tokens estimator repr items text used)
  unfolding choose
  choose-IsFilled done [] text used t le e = record { within = le; estimated = e; chosen = t }
  choose-IsFilled done (i ∷ items) text used t le e =
      let candidate =
        append_text text (addition_to is_same is_above max_tokens estimator repr text i) in
      let fits = leb (estimator candidate) max_tokens in
      let next = if fits then candidate else text in
      let spent = if fits then estimator candidate else used in
      let taken = if fits then done ++ i ∷ [] else done in
      let whole : candidate ≡ text_of (done ++ i ∷ []) =
        ap (λ s. append_text s (addition_to is_same is_above max_tokens estimator repr s i)) t
        ∙ addition-text_of done i in
      let read : next ≡ text_of taken =
        on_branch fits candidate text (done ++ i ∷ []) done whole t in
      let ih = choose-IsFilled taken items next spent read (ground arith) (ground arith) in
      let d = decision_on is_same is_above max_tokens estimator repr i text fits in
      let rest = choose is_same is_above max_tokens estimator repr items next spent in
      Returned-if (IsFilled done (i ∷ items)) (i.required && not fits) over_limit
        (noting is_same is_above max_tokens estimator repr d rest)
        (λ h.
          noting-IsFilled done items i d rest refl (ground arith)
            (ap (λ s. leb (estimator s) max_tokens) whole) ih)
    where
      on_branch :
          (b : Bool) (s t : String) (l m : List (ContextItem is_same is_above))
          → s ≡ text_of l
          → t ≡ text_of m
          → (if b then s else t) ≡ text_of (if b then l else m)
      on_branch true s t l m p q = p
      on_branch false s t l m p q = q

  -- Where an empty text has no tokens and the scores' tests are a symmetric and an asymmetric
  -- relation: what `compile` returns is within the limit by the estimate of its whole text, which
  -- is the fragments of the items taken, a blank line between each two. It decides on the given
  -- items, by every weight of them, in an order in which none precedes the one before it; an item
  -- is taken just when the text with it is within the limit, and a required item always is.
  pub compile-IsCompiled :
      (items : List (ContextItem is_same is_above)) {c : CompiledContext}
      → estimator "" ≡ 0
      → ((s t : Score) → is_same s t ≡ is_same t s)
      → ((s t : Score) → is_above s t ≡ true → is_above t s ≡ false)
      → compile is_same is_above max_tokens estimator repr items ≡ ok c
      → IsCompiled items c
  unfolding compile
  compile-IsCompiled items {c = c} empty same_both not_both e =
      let ids = map (λ (i : ContextItem is_same is_above). i.id) items in
      let order = sort_items is_same is_above items in
      let filled : IsFilled [] order c =
        Returned-ok (IsFilled [] order) _
          (Returned-if (IsFilled [] order) (not (length (set_of ids) == length ids)) duplicate_items
            (choose is_same is_above max_tokens estimator repr order "" 0)
            (λ h. choose-IsFilled [] order "" 0 refl (omega arith) (omega (arith, empty))))
          e in
      record {
        within = filled.within;
        estimated = filled.estimated;
        ordered = order;
        same_items = λ weight. total-sort_items is_same is_above weight items;
        sorted = sort_items-IsSorted is_same is_above same_both not_both items;
        chosen = filled.chosen;
      }
