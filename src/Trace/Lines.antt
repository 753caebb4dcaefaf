-- ===== src/Trace/Lines.antt =====
-- `splitlines` on the text of a trace file (observability/hash_chain.py).
use native.Mathlib.Decide.{ℕ_discrete}
use Prim.Native.Char.{Char, code}
use Prim.Native.String.{◌++◌ as append_text}
use Prim.Native.String.append
use forgeharness.Common.{
  ◌≡◌, refl, sym, ap, ◌∙◌, String, Bool, true, false, not, ◌&&◌, ◌||◌, List, [], ◌∷◌, ◌++◌, ◌⊎◌,
  inl, inr, if◌then◌else◌, ◌==◌, ℕ_eq, String_eq, arith, leb, String_discrete, append-nil,
  append_assoc,
}

-- The characters that end a line: line feed, vertical tab, form feed, carriage return, the three
-- separators of ASCII, next line, line separator and paragraph separator.
unfoldable pub is_break : Char → Bool
is_break c =
    let n = code c in
    (leb 10 n && leb n 13) || (leb 28 n && leb n 30) || n == 133 || n == 8232 || n == 8233

-- The lines of a text that goes on a line begun by `word`. A line feed after a carriage return
-- (`after`) ends no line of its own, and the text's end begins none.
unfoldable pub split_from : Bool → String → String → List String
split_from after word String.[] = if word == "" then [] else word ∷ []
split_from after word (String.◌∷◌ c s) =
    let kept = append_text word (String.◌∷◌ c String.[]) in
    let rest = split_from (code c == 13) (if is_break c then "" else kept) s in
    if after && (code c == 10) then rest else (if is_break c then word ∷ rest else rest)

-- `splitlines`
unfoldable pub split_lines : String → List String
unfolding split_from
split_lines s = split_from false "" s

-- A text without a line break.
unfoldable pub is_line : String → Bool
is_line String.[] = true
is_line (String.◌∷◌ c s) = not (is_break c) && is_line s

-- A text that is empty or whose last character is a line feed.
abbrev pub EndsLine : String → Type 0
EndsLine t = (t ≡ "") ⊎ ((s : String) × (t ≡ append_text s "\n"))

-- A written line ends the text.
pub append-EndsLine : (t line : String) → EndsLine (append_text t (append_text line "\n"))
append-EndsLine t line = inr (append_text t line, sym (append_assoc t line "\n"))

break-return : (c : Char) → is_break c ≡ false → (code c == 13) ≡ false
unfolding is_break
break-return c h = ground arith

kept_on :
    (b r : Bool) (word kept s : String)
    → b ≡ false
    → r ≡ false
    → (let rest = split_from r (if b then "" else kept) s in if b then word ∷ rest else rest)
      ≡ split_from false kept s
kept_on b r word kept s none_ends none_returns = rw (none_ends, none_returns) refl

-- One line and its end.
split_from-line :
    (word line : String)
    → is_line line ≡ true
    → split_from false word (append_text line "\n") ≡ append_text word line ∷ []
unfolding split_from is_line is_break String_discrete
split_from-line word String.[] h = ap (λ t. t ∷ []) (sym (append-nil word))
split_from-line word (String.◌∷◌ c line) h =
    let kept = append_text word (String.◌∷◌ c String.[]) in
    let on : is_break c ≡ false = ground arith in
    let shifted : append_text kept line ≡ append_text word (String.◌∷◌ c line) =
      append_assoc word (String.◌∷◌ c String.[]) line
      ∙ ap (append_text word)
          (append.cons c String.[] line ∙ ap (λ t. String.◌∷◌ c t) (append.nil line)) in
    ap (split_from false word) (append.cons c line "\n")
    ∙ kept_on (is_break c) (code c == 13) word kept (append_text line "\n") on (break-return c on)
    ∙ split_from-line kept line (ground arith)
    ∙ ap (λ t. t ∷ []) shifted

feed : (rest : String) → append_text "\n" rest ≡ String.◌∷◌ "\n" rest
feed rest = append.cons "\n" "" rest ∙ ap (λ t. String.◌∷◌ "\n" t) (append.nil rest)

split_from-feed :
    (after : Bool) (word rest : String)
    → split_from after word (String.◌∷◌ "\n" rest)
      ≡ split_from after word "\n" ++ split_from false "" rest
unfolding split_from is_break String_discrete ℕ_discrete
split_from-feed true word rest = refl
split_from-feed false word rest = refl

append-if :
    (skipped ended : Bool) (word : String) (longer rest more : List String)
    → longer ≡ rest ++ more
    → (if skipped then longer else (if ended then word ∷ longer else longer))
      ≡ (if skipped then rest else (if ended then word ∷ rest else rest)) ++ more
append-if true ended word longer rest more h = h
append-if false true word longer rest more h = ap (λ l. word ∷ l) h
append-if false false word longer rest more h = h

-- What follows a line feed begins a line.
split_from-ended :
    (after : Bool) (word s rest : String)
    → split_from after word (append_text s (append_text "\n" rest))
      ≡ split_from after word (append_text s "\n") ++ split_from false "" rest
unfolding split_from String_discrete
split_from-ended after word String.[] rest =
    ap (split_from after word) (append.nil (append_text "\n" rest) ∙ feed rest)
    ∙ split_from-feed after word rest
split_from-ended after word (String.◌∷◌ c s) rest =
    let kept = append_text word (String.◌∷◌ c String.[]) in
    let ih = split_from-ended (code c == 13) (if is_break c then "" else kept) s rest in
    ap (split_from after word) (append.cons c s (append_text "\n" rest))
    ∙ append-if (after && (code c == 10)) (is_break c) word _ _ _ ih
    ∙ ap (λ t. split_from after word t ++ split_from false "" rest) (sym (append.cons c s "\n"))

-- A line written to a text whose last line is ended adds one line.
pub split_lines-append :
    (t line : String)
    → EndsLine t
    → is_line line ≡ true
    → split_lines (append_text t (append_text line "\n")) ≡ split_lines t ++ line ∷ []
unfolding split_lines String_discrete
split_lines-append t line (inl empty) one = rw empty (
    ap (split_from false "") (append.nil (append_text line "\n"))
    ∙ split_from-line "" line one
    ∙ ap (λ s. s ∷ []) (append.nil line))
split_lines-append t line (inr (s, ended)) one = rw ended (
    ap (split_from false "") (append_assoc s "\n" (append_text line "\n"))
    ∙ split_from-ended false "" s (append_text line "\n")
    ∙ ap (λ l. split_from false "" (append_text s "\n") ++ l)
        (split_from-line "" line one ∙ ap (λ s. s ∷ []) (append.nil line)))
