-- ===== src/Context/Compiler.antt =====
-- context/compiler.py: complete fragments chosen by requirement, relevance and identity.
pub mod Sorting
pub mod Chosen
use Prim.Native.Nat.{◌/◌}
use Prim.Native.String.{count, ◌++◌}
use forgeharness.Common.{
  ℕ, ◌+◌, ◌≤◌, ◌≡◌, refl, max, String, Bool, true, false, not, ◌&&◌, ◌||◌, List, [], ◌∷◌, map,
  Result, ok, raise, if◌then◌else◌, ◌==◌, ℕ_eq, String_eq, leb, length, concat, arith, Returned,
  Returned-if, Returned-ok,
}
use forgeharness.Context.Order.{text_precedes}
use forgeharness.Todos.{set_of}
use forgeharness.Context.Result.{ContextDecision}

pub data CompileError : Type 0 where
  duplicate_items over_limit : CompileError

-- `CharacterTokenEstimator.estimate`
unfoldable pub character_estimate : String → ℕ
character_estimate text = if text == "" then 0 else max 1 ((count text + 3) / 4)

pub record CompiledContext : Type 0 where
  pub text : String
  pub estimated_tokens : ℕ
  pub decisions : List ContextDecision

-- Scores are floats: a number type with the two tests that sorting needs.
module _ {Score : Type 0} (is_same is_above : Score → Score → Bool) where
  pub record ContextItem : Type 0 where
    pub id : String
    pub source : String
    pub content : String
    pub score : Score
    pub required : Bool

  -- `<` on the sorting keys `(not required, -score, id)`
  abbrev pub precedes : ContextItem → ContextItem → Bool
  precedes a b =
      if a.required && not b.required
      then true
      else (if b.required && not a.required
          then false
          else (if is_same a.score b.score
              then text_precedes a.id b.id
              else is_above a.score b.score))

  abbrev pub insert_item : ContextItem → List ContextItem → List ContextItem
  insert_item a [] = a ∷ []
  insert_item a (i ∷ items) =
      let rest = insert_item a items in if precedes i a then i ∷ rest else a ∷ i ∷ items

  abbrev pub sort_items : List ContextItem → List ContextItem
  sort_items [] = []
  sort_items (i ∷ items) = insert_item i (sort_items items)

  -- A compiler's token limit and estimator, and Python's `repr` of a text.
  module _ (max_tokens : ℕ) (estimator : String → ℕ) (repr : String → String) where
    abbrev pub fragment : ContextItem → String
    fragment i =
        concat ("<context source=" ∷ repr i.source ∷ ">\n" ∷ i.content ∷ "\n</context>" ∷ [])

    abbrev pub addition_to : String → ContextItem → String
    addition_to text i = (if text == "" then "" else "\n\n") ++ fragment i

    abbrev pub decision_on : ContextItem → String → Bool → ContextDecision
    decision_on i text fits = record {
      item_id = i.id;
      source = i.source;
      estimated_tokens = estimator (addition_to text i);
      included = fits;
      reason =
          if fits
          then (if i.required then "required" else "selected by relevance")
          else "token budget exhausted";
    }

    abbrev pub noting :
        ContextDecision → Result CompileError CompiledContext → Result CompileError CompiledContext
    noting d (ok c) = ok (record c { decisions = d ∷ c.decisions })
    noting d (raise e) = raise e

    -- the loop of `compile`, on the text chosen so far and its tokens
    unfoldable pub choose : List ContextItem → String → ℕ → Result CompileError CompiledContext
    choose [] text used = ok (record { text = text; estimated_tokens = used; decisions = [] })
    choose (i ∷ items) text used =
        let candidate = text ++ addition_to text i in
        let fits = leb (estimator candidate) max_tokens in
        let rest =
          choose items (if fits then candidate else text)
            (if fits then estimator candidate else used) in
        if i.required && not fits then raise over_limit else noting (decision_on i text fits) rest

    -- `compile`
    unfoldable pub compile : List ContextItem → Result CompileError CompiledContext
    compile items =
        let ids = map (λ (i : ContextItem). i.id) items in
        if not (length (set_of ids) == length ids)
        then raise duplicate_items
        else choose (sort_items items) "" 0
