-- ===== src/Trace/Verified.antt =====
-- What `HashChainedJSONLTrace` writes passes `verify_trace` (observability/hash_chain.py).
use Prim.Native.String.{◌++◌ as append_text}
use forgeharness.Trace.Lines.{EndsLine, append-EndsLine, split_lines, split_lines-append}
use forgeharness.Common.{
  subst, String_discrete, String_eq, ◌==◌, ℕ, ◌+◌, ◌≡◌, refl, sym, ap, ◌∙◌, true, String, Option,
  none, some, List, [], ◌∷◌, ◌++◌, arith, ok, All, length, length-append, map_option, Bool-cases,
  inl, inr,
}
use forgeharness.Trace.{
  Json, TraceEnvelope, TraceVerification, Formats, ReadsBack, Trace, last_hash, load_envelopes,
  parse_lines, verify_from, verify_trace, open_trace, next_event, next_envelope, append, chained,
  prepend, verify_loaded, resume,
}

abbrev pub passes : ℕ → TraceVerification
passes events = record { is_valid = true; events = events; error = none }

pub data Entry : Type 0 where
  entry : String → ℕ → Json → Entry

module _ (formats : Formats) where
  unfoldable pub append_all : List Entry → Trace → Trace
  append_all [] t = t
  append_all (entry event_type now payload ∷ entries) t =
      append_all entries (append formats event_type now payload t).1

  -- Each envelope has its number, the hash before it, and the hash of its event.
  abbrev pub IsChain : String → ℕ → List TraceEnvelope → Type 0
  IsChain previous n [] = Unit
  IsChain previous n (e ∷ envelopes) =
      (e.event.sequence ≡ n + 1)
      × (e.previous_hash ≡ previous)
      × (e.hash ≡ chained formats previous e.event)
      × IsChain e.hash (n + 1) envelopes

  pub verify_from-IsChain :
      (previous : String) (n : ℕ) (envelopes : List TraceEnvelope)
      → (verify_from formats previous n envelopes).is_valid ≡ true
      → IsChain previous n envelopes
  unfolding verify_from
  verify_from-IsChain previous n [] h = tt
  verify_from-IsChain previous n (e ∷ envelopes) h =
      let rest = verify_from-IsChain e.hash (n + 1) envelopes (ground arith) in
      (ground arith, ground arith, ground arith, rest)

  pub IsChain-verify_from :
      (previous : String) (n : ℕ) (envelopes : List TraceEnvelope)
      → IsChain previous n envelopes
      → verify_from formats previous n envelopes ≡ passes (n + length envelopes)
  unfolding verify_from
  IsChain-verify_from previous n [] h = ap passes (omega arith)
  IsChain-verify_from previous n (e ∷ envelopes) h =
      let moved : (n + 1) + length envelopes ≡ n + length (e ∷ envelopes) = omega arith in
      ground (arith, IsChain-verify_from e.hash (n + 1) envelopes h.3, ap passes moved)

  last_hash-append :
      (previous : String) (envelopes : List TraceEnvelope) (e : TraceEnvelope)
      → last_hash previous (envelopes ++ e ∷ []) ≡ e.hash
  last_hash-append previous [] e = refl
  last_hash-append previous (x ∷ envelopes) e = last_hash-append x.hash envelopes e

  IsChain-append :
      (previous : String) (n : ℕ) (envelopes : List TraceEnvelope) (e : TraceEnvelope)
      → IsChain previous n envelopes
      → e.event.sequence ≡ n + length envelopes + 1
      → e.previous_hash ≡ last_hash previous envelopes
      → e.hash ≡ chained formats (last_hash previous envelopes) e.event
      → IsChain previous n (envelopes ++ e ∷ [])
  IsChain-append previous n [] e h a b c = (omega (arith, a), b, c, tt)
  IsChain-append previous n (x ∷ envelopes) e h a b c =
      (h.0, h.1, h.2, IsChain-append x.hash (n + 1) envelopes e h.3 (omega (arith, a)) b c)

  prepend-snoc :
      (o : Option TraceEnvelope) (r : Option (List TraceEnvelope)) (e : TraceEnvelope)
      → prepend formats o (map_option (λ envelopes. envelopes ++ e ∷ []) r)
        ≡ map_option (λ envelopes. envelopes ++ e ∷ []) (prepend formats o r)
  prepend-snoc none r e = refl
  prepend-snoc (some x) none e = refl
  prepend-snoc (some x) (some envelopes) e = refl

  parse_lines-append :
      (lines : List String) (e : TraceEnvelope)
      → ReadsBack formats e
      → parse_lines formats (lines ++ formats.dump_line e ∷ [])
        ≡ map_option (λ envelopes. envelopes ++ e ∷ []) (parse_lines formats lines)
  unfolding parse_lines
  parse_lines-append [] e reads = rw (reads.parses, reads.is_written) refl
  parse_lines-append (line ∷ lines) e reads =
      let moved = prepend-snoc (formats.parse_line line) (parse_lines formats lines) e in
      elim (Bool-cases (formats.is_blank line)) [
        | inl blank ↦ rw (blank, parse_lines-append lines e reads) refl
        | inr written ↦ rw (written, parse_lines-append lines e reads) moved
      ]

  load_envelopes-append :
      (file : String) (e : TraceEnvelope)
      → EndsLine file
      → ReadsBack formats e
      → load_envelopes formats (append_text file (append_text (formats.dump_line e) "\n"))
        ≡ map_option (λ envelopes. envelopes ++ e ∷ []) (load_envelopes formats file)
  unfolding load_envelopes
  load_envelopes-append file e ended reads =
      ap (parse_lines formats)
        (split_lines-append file (formats.dump_line e) ended reads.is_one_line)
      ∙ parse_lines-append (split_lines file) e reads

  -- The file of a trace is a chain of whole lines that ends where the trace goes on.
  pub record IsOpen (t : Trace) (envelopes : List TraceEnvelope) : Type 0 where
    pub ended : EndsLine t.file
    pub loads : load_envelopes formats t.file ≡ some envelopes
    pub chain : IsChain "" 0 envelopes
    pub counts : t.sequence ≡ length envelopes
    pub ends : t.previous_hash ≡ last_hash "" envelopes

  abbrev written : Entry → Trace → TraceEnvelope
  written (entry event_type now payload) t =
      next_envelope formats t (next_event formats t event_type now payload)

  append-IsOpen :
      (event_type : String) (now : ℕ) (payload : Json) (t : Trace) (envelopes : List TraceEnvelope)
      → ReadsBack formats (written (entry event_type now payload) t)
      → IsOpen t envelopes
      → IsOpen
          (append formats event_type now payload t).1
          (envelopes ++ written (entry event_type now payload) t ∷ [])
  unfolding append
  append-IsOpen event_type now payload t envelopes reads o =
      let e = written (entry event_type now payload) t in
      record {
        ended = append-EndsLine t.file (formats.dump_line e);
        loads = load_envelopes-append t.file e o.ended reads ∙ ap (map_option _) o.loads;
        chain =
            IsChain-append "" 0 envelopes e o.chain (omega (arith, o.counts)) o.ends
              (ap (λ p. chained formats p e.event) o.ends);
        counts = omega (arith, o.counts, length-append envelopes (e ∷ []));
        ends = sym (last_hash-append "" envelopes e);
      }

  -- The envelopes that a sequence of appends writes.
  unfoldable pub all_written : List Entry → Trace → List TraceEnvelope
  all_written [] t = []
  all_written (entry event_type now payload ∷ entries) t =
      written (entry event_type now payload) t
      ∷ all_written entries (append formats event_type now payload t).1

  append_all-IsOpen :
      (entries : List Entry) (t : Trace) (envelopes : List TraceEnvelope)
      → All (ReadsBack formats) (all_written entries t)
      → IsOpen t envelopes
      → (more : List TraceEnvelope) × IsOpen (append_all entries t) more
        × (length more ≡ length envelopes + length entries)
  unfolding append_all all_written
  append_all-IsOpen [] t envelopes reads o = (envelopes, o, omega arith)
  append_all-IsOpen (entry event_type now payload ∷ entries) t envelopes reads o =
      let e = written (entry event_type now payload) t in
      let (more, o', counted) =
        append_all-IsOpen entries (append formats event_type now payload t).1 (envelopes ++ e ∷ [])
          reads.1 (append-IsOpen event_type now payload t envelopes reads.0 o) in
      (more, o', omega (arith, counted, length-append envelopes (e ∷ [])))

  IsOpen-verify :
      (t : Trace) (envelopes : List TraceEnvelope)
      → IsOpen t envelopes
      → verify_trace formats t.file ≡ passes (length envelopes)
  unfolding verify_trace
  IsOpen-verify t envelopes o =
      let none_before : 0 + length envelopes ≡ length envelopes = omega arith in
      rw o.loads (IsChain-verify_from "" 0 envelopes o.chain ∙ ap passes none_before)

  resume-IsOpen :
      (task_id file : String) (r : Option (List TraceEnvelope)) (t : Trace)
      → EndsLine file
      → load_envelopes formats file ≡ r
      → (verify_loaded formats r).is_valid ≡ true
      → resume formats task_id file r ≡ ok t
      → (envelopes : List TraceEnvelope) × IsOpen t envelopes
  resume-IsOpen task_id file none t ended e v h = cc
  resume-IsOpen task_id file (some []) t ended e v h = cc
  resume-IsOpen task_id file (some (x ∷ envelopes)) t ended e v h =
      let same : t.file ≡ file = ground arith in
      (
        x ∷ envelopes,
        record {
          ended = subst EndsLine (sym same) ended;
          loads = ap (load_envelopes formats) same ∙ e;
          chain = verify_from-IsChain "" 0 (x ∷ envelopes) v;
          counts = ground arith;
          ends = ground arith;
        },
      )

  fresh-IsOpen :
      (task_id : String)
      → IsOpen (record { task_id = task_id; sequence = 0; previous_hash = ""; file = "" }) []
  unfolding load_envelopes split_lines String_discrete
  fresh-IsOpen task_id = record {
    ended = inl refl;
    loads = refl;
    chain = tt;
    counts = refl;
    ends = refl;
  }

  open_trace-IsOpen :
      (task_id file : String) (t : Trace)
      → EndsLine file
      → open_trace formats task_id file ≡ ok t
      → (envelopes : List TraceEnvelope) × IsOpen t envelopes
  unfolding open_trace
  open_trace-IsOpen task_id file t ended h = elim (Bool-cases (file == "")) [
    | inl e ↦
        let same : record { task_id = task_id; sequence = 0; previous_hash = ""; file = "" } ≡ t =
          ground arith in
        ([], subst (λ u. IsOpen u []) same (fresh-IsOpen task_id))
    | inr e ↦ elim (Bool-cases (verify_trace formats file).is_valid) [
      | inl v ↦
          resume-IsOpen task_id file (load_envelopes formats file) t ended refl v (ground arith)
      | inr v ↦ cc
    ]
  ]

-- A trace that opens goes on to pass its verification: after any events are appended to a trace
-- that `__init__` accepted, `verify_trace` on the text of the file finds every line valid and counts
-- the events that were there and the new ones. The accepted file must be empty or end with a line
-- feed, and the JSON of each new envelope must be read back, not be blank and hold no line break of
-- `splitlines`.
pub append_all-verify_trace :
    (formats : Formats) (task_id file : String) (t : Trace) (entries : List Entry)
    → EndsLine file
    → All (ReadsBack formats) (all_written formats entries t)
    → open_trace formats task_id file ≡ ok t
    → verify_trace formats (append_all formats entries t).file
      ≡ passes (t.sequence + length entries)
append_all-verify_trace formats task_id file t entries ended reads opened =
    let (envelopes, o) = open_trace-IsOpen formats task_id file t ended opened in
    let (more, o', counted) = append_all-IsOpen formats entries t envelopes reads o in
    let total : length more ≡ t.sequence + length entries = omega (arith, counted, o.counts) in
    IsOpen-verify formats (append_all formats entries t) more o' ∙ ap passes total
