-- ===== src/Kernel/Refusals.antt =====
-- A kernel that has finished refuses every call but `emit`, and keeps its checkpoints (sdk/kernel.py).
use forgeharness.Common.{
  ◌≡◌, refl, ap, ◌∙◌, true, List, [], ◌∷◌, ok, raise, continue, ◌>>=◌, arith, Bool-cases, ◌⊎◌, inl,
  inr, String_discrete,
}
use forgeharness.Table.{HasUniqueKeys}
use forgeharness.Domain.{RunStatus_eq}
use forgeharness.Checkpoint.{task_key}
use forgeharness.Kernel.Setting.{
  Host, Kernel, KernelError, misused, Run, ensure_active, start, checkpoint, emit,
}
use forgeharness.Kernel.Calls.{call_model, call_tool}
use forgeharness.Kernel.Finish.{
  verify, finish, KernelCall, start_call, checkpoint_call, emit_call, model_call, tool_call,
  verify_call, finish_call, after_call, after_calls,
}

abbrev pub IsKeyed : Kernel → Type 0
IsKeyed k = HasUniqueKeys String_discrete task_key k.checkpoints

abbrev pub IsClosed : Kernel → Type 0
IsClosed k = (k.started ≡ true) × (k.finished ≡ true)

pub ensure_active-closed :
    (k : Kernel) → IsClosed k → ensure_active k ≡ (raise (misused "kernel already finished"), k)
unfolding ensure_active
ensure_active-closed k c = ground arith

pub ensure_active-cases :
    (k : Kernel)
    → ((ensure_active k ≡ (ok tt, k)) × (k.started ≡ true))
      ⊎ ((e : KernelError) × (ensure_active k ≡ (raise e, k)))
unfolding ensure_active
ensure_active-cases k = elim (Bool-cases k.started) [
  | inl s ↦ elim (Bool-cases k.finished) [
    | inl f ↦ inr (misused "kernel already finished", ground arith)
    | inr f ↦ inl (ground arith, s)
  ]
  | inr s ↦ inr (misused "kernel not started", ground arith)
]

raises_first :
    {A B : Type 0} (m : Run A) (f : A → Run B) (e : KernelError) (k : Kernel)
    → m k ≡ (raise e, k)
    → (m >>= f) k ≡ (raise e, k)
raises_first m f e k h = ap (λ p. continue p.0 f p.1) h

-- Nothing that is kept of a closed kernel's run is changed.
abbrev Unchanged : Kernel → Kernel → Type 0
Unchanged k k' =
    (k'.checkpoints ≡ k.checkpoints) × (k'.started ≡ k.started) × (k'.finished ≡ k.finished)

module _ (h : Host) where
  refused :
      {A B : Type 0} (f : A → Run B) (m : Run A) (k : Kernel)
      → m k ≡ (raise (misused "kernel already finished"), k)
      → Unchanged k ((m >>= f) k).1
  refused f m k e =
      let same = ap (λ p. p.1) (raises_first m f (misused "kernel already finished") k e) in
      (
        ap (λ (c : Kernel). c.checkpoints) same,
        ap (λ (c : Kernel). c.started) same,
        ap (λ (c : Kernel). c.finished) same,
      )

  after_call-Unchanged : (c : KernelCall) (k : Kernel) → IsClosed k → Unchanged k (after_call h c k)
  unfolding after_call start checkpoint emit call_model call_tool verify finish
  after_call-Unchanged (start_call now task instructions) k c =
      (ground arith, ground arith, ground arith)
  after_call-Unchanged checkpoint_call k c = refused _ ensure_active k (ensure_active-closed k c)
  after_call-Unchanged (emit_call event_type payload) k c =
      (ground arith, ground arith, ground arith)
  after_call-Unchanged (model_call now messages) k c =
      refused _ ensure_active k (ensure_active-closed k c)
  after_call-Unchanged (tool_call now call) k c =
      refused _ ensure_active k (ensure_active-closed k c)
  after_call-Unchanged (verify_call final) k c =
      refused _ ensure_active k (ensure_active-closed k c)
  after_call-Unchanged (finish_call final status error) k c =
      refused _ ensure_active k (ensure_active-closed k c)

  pub after_calls-Unchanged :
      (calls : List KernelCall) (k : Kernel)
      → IsClosed k
      → (after_calls h calls k).checkpoints ≡ k.checkpoints
  unfolding after_calls
  after_calls-Unchanged [] k c = refl
  after_calls-Unchanged (c ∷ calls) k closed =
      let (same, started, finished) = after_call-Unchanged c k closed in
      after_calls-Unchanged calls (after_call h c k) (started ∙ closed.0, finished ∙ closed.1)
      ∙ same
