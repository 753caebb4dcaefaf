-- ===== src/Registry/Binding.antt =====
-- What a binding changes in the registry (state/task_registry.py).
use forgeharness.Common.{
  ℕ, ◌≡◌, ◌≢◌, refl, sym, arith, String, true, some, Option-cases, inl, inr, String_discrete,
}
use forgeharness.Table.{
  find_key-update, find_key-append, find_key-update_other, find_key, find_key-key, key_test,
}
use forgeharness.Registry.{
  TaskBinding, Bindings, binding_key, get, creation, rebound, upsert_binding, bind,
}

module _ (now : ℕ) (task workspace : String) (rows : Bindings) where
  abbrev bound : TaskBinding
  bound = record {
    task_id = task;
    workspace = workspace;
    created_at = creation now (find_key String_discrete binding_key task rows);
    updated_at = now;
  }

  -- After a task is bound, its lookup gives what the call returned: the new workspace, the time of
  -- this call, and the creation time of its first binding where there was one; the lookup of every
  -- other task is as it was.
  pub bind-get :
      (other : String)
      → other ≢ task
      → let (b, rows') = bind now task workspace rows in
        (get task rows' ≡ some b)
        × (b.workspace ≡ workspace)
        × (b.updated_at ≡ now)
        × (b.created_at ≡ creation now (get task rows))
        × (get other rows' ≡ get other rows)
  unfolding bind get upsert_binding
  bind-get other apart = elim (Option-cases (find_key String_discrete binding_key task rows)) [
    | inl absent ↦ (
      ground (arith, absent, find_key-append String_discrete binding_key task rows bound),
      refl,
      refl,
      refl,
      ground (arith, absent, find_key-append String_discrete binding_key other rows bound),
    )
    | inr (old, found) ↦
        let update =
          find_key-update String_discrete binding_key
            (key_test String_discrete binding_key task (λ _. true)) (rebound bound) (λ r. refl) in
        (
          ground (
            arith,
            found,
            update task rows,
            find_key-key String_discrete binding_key task rows old found,
          ),
          refl,
          refl,
          refl,
          rw found (
              find_key-update_other String_discrete binding_key (rebound bound) (λ r. refl) task
                other (λ e. apart (sym e)) (λ _. true) rows),
        )
  ]
