-- ===== src/Trace/Tampering.antt =====
-- What a verified trace commits to (observability/hash_chain.py): its last hash and its length
-- determine every event, unless SHA-256 has a collision.
use Prim.Native.String.{◌++◌ as append_text, len, slice}
use text.Mathlib.TextPositions.{len-append, slice-append_left, slice-append_right}
use forgeharness.Common.{
  ℕ, zero, ◌+◌, ◌≡◌, ◌≢◌, ◌⊎◌, inl, inr, refl, sym, ap, subst, ◌∙◌, true, String, some, List, [],
  ◌∷◌, arith, length, map, String_discrete,
}
use forgeharness.Trace.{TraceEnvelope, Formats, last_hash, load_envelopes, verify_trace, chained}
use forgeharness.Trace.Verified.{IsChain, verify_from-IsChain}

append_tail : (q a b : String) → append_text q a ≡ append_text q b → a ≡ b
append_tail q a b e =
    let sizes : len q + len a ≡ len q + len b = sym (len-append q a) ∙ ap len e ∙ len-append q b in
    sym (slice-append_right q a)
    ∙ ap (λ t. slice t (len q) (len q + len a)) e
    ∙ ap (λ n. slice (append_text q b) (len q) n) sizes
    ∙ slice-append_right q b

append_split :
    (p q a b : String) → len p ≡ len q → append_text p a ≡ append_text q b → (p ≡ q) × (a ≡ b)
append_split p q a b same e =
    let heads : p ≡ q =
      sym (slice-append_left p a)
      ∙ ap (λ t. slice t zero (len p)) e
      ∙ ap (λ n. slice (append_text q b) zero n) same
      ∙ slice-append_left q b in
    (heads, append_tail q a b (subst (λ t. append_text t a ≡ append_text q b) heads e))

module _ (formats : Formats) where
  -- what `verify_trace` hashes for an envelope
  abbrev hashed : TraceEnvelope → String
  hashed e = append_text e.previous_hash (formats.dumps e.event)

  -- At some position the two files hash different texts to one digest.
  abbrev pub Collide : List TraceEnvelope → List TraceEnvelope → Type 0
  Collide (e ∷ es) (d ∷ ds) =
      ((hashed e ≢ hashed d) × (formats.sha256 (hashed e) ≡ formats.sha256 (hashed d)))
      ⊎ Collide es ds
  Collide _ _ = ⊥

module _ (formats : Formats)
    (digests : (s t : String) → len (formats.sha256 s) ≡ len (formats.sha256 t)) where
  abbrev texts : List TraceEnvelope → List String
  texts envelopes = map (λ (e : TraceEnvelope). formats.dumps e.event) envelopes

  -- One link: equal hashes of two envelopes whose previous hashes have one length.
  link :
      (p q : String) (e d : TraceEnvelope)
      → len p ≡ len q
      → e.previous_hash ≡ p
      → d.previous_hash ≡ q
      → e.hash ≡ chained formats p e.event
      → d.hash ≡ chained formats q d.event
      → e.hash ≡ d.hash
      → ((p ≡ q) × (formats.dumps e.event ≡ formats.dumps d.event))
        ⊎ ((hashed formats e ≢ hashed formats d)
            × (formats.sha256 (hashed formats e) ≡ formats.sha256 (hashed formats d)))
  link p q e d same pe qd he hd h =
      let left : hashed formats e ≡ append_text p (formats.dumps e.event) =
        ap (λ t. append_text t (formats.dumps e.event)) pe in
      let right : hashed formats d ≡ append_text q (formats.dumps d.event) =
        ap (λ t. append_text t (formats.dumps d.event)) qd in
      elim (String_discrete (hashed formats e) (hashed formats d)) [
        | yes equal ↦ inl (
            append_split p q (formats.dumps e.event) (formats.dumps d.event) same
              (sym left ∙ equal ∙ right))
        | no differ ↦
            inr (differ, ap formats.sha256 left ∙ sym he ∙ h ∙ hd ∙ sym (ap formats.sha256 right))
      ]

  chains_agree :
      (p q : String) (n m : ℕ) (es ds : List TraceEnvelope)
      → IsChain formats p n es
      → IsChain formats q m ds
      → len p ≡ len q
      → length es ≡ length ds
      → last_hash p es ≡ last_hash q ds
      → ((p ≡ q) × (texts es ≡ texts ds)) ⊎ Collide formats es ds
  chains_agree p q n m [] [] ce cd same sizes h = inl (h, refl)
  chains_agree p q n m [] (d ∷ ds) ce cd same sizes h = absurd (omega (arith, sizes))
  chains_agree p q n m (e ∷ es) [] ce cd same sizes h = absurd (omega (arith, sizes))
  chains_agree p q n m (e ∷ es) (d ∷ ds) ce cd same sizes h =
      let widths : len e.hash ≡ len d.hash =
        ap len ce.2
        ∙ digests (append_text p (formats.dumps e.event)) (append_text q (formats.dumps d.event))
        ∙ sym (ap len cd.2) in
      elim (chains_agree e.hash d.hash (n + 1) (m + 1) es ds ce.3 cd.3 widths (omega (arith, sizes))
        h) [
          | inl (hashes, rest) ↦ elim (link p q e d same ce.1 cd.1 ce.2 cd.2 hashes) [
            | inl (before, here) ↦
                inl (before, ap (λ x. x ∷ texts es) here ∙ ap (λ l. formats.dumps d.event ∷ l) rest)
            | inr c ↦ inr (inl c)
          ]
          | inr c ↦ inr (inr c)
        ]

-- Where all SHA-256 digests have one length, two trace files that both pass `verify_trace` and
-- have as many events and the same last hash have the same canonical text of every event, or
-- else at one position they hash two different texts to one digest.
pub same_hash-same_events :
    (formats : Formats)
    → ((s t : String) → len (formats.sha256 s) ≡ len (formats.sha256 t))
    → (one other : String) (es ds : List TraceEnvelope) → load_envelopes formats one ≡ some es
    → load_envelopes formats other ≡ some ds
    → (verify_trace formats one).is_valid ≡ true
    → (verify_trace formats other).is_valid ≡ true
    → length es ≡ length ds
    → last_hash "" es ≡ last_hash "" ds
    → (map (λ (e : TraceEnvelope). formats.dumps e.event) es
        ≡ map (λ (e : TraceEnvelope). formats.dumps e.event) ds)
      ⊎ Collide formats es ds
unfolding verify_trace
same_hash-same_events formats digests one other es ds loads_one loads_other valid_one valid_other
      sizes hashes =
    let ce = verify_from-IsChain formats "" 0 es (ground (arith, valid_one, loads_one)) in
    let cd = verify_from-IsChain formats "" 0 ds (ground (arith, valid_other, loads_other)) in
    elim (chains_agree formats digests "" "" 0 0 es ds ce cd refl sizes hashes) [
      | inl (_, same) ↦ inl same
      | inr c ↦ inr c
    ]
