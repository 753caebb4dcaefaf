-- ===== src/Registry/Tests.antt =====
-- A registry in which a task is bound again.
use text.Mathlib.TextEquality.{eq_iff}
use forgeharness.Common.{◌≡◌, ◌≢◌, arith, String, some, [], ◌∷◌}
use forgeharness.Registry.{Bindings, bind, get, creation}
use forgeharness.Registry.Binding.{bind-get}

abbrev rows : Bindings
rows = record { task_id = "t1"; workspace = "old"; created_at = 3; updated_at = 5 } ∷ []

another : ◌≢◌ {A = String} "t2" "t1"
another e = ground (arith, eq_iff "t2" "t1")

bind-get_example :
    let (b, rows') = bind 9 "t1" "new" rows in
    (get "t1" rows' ≡ some b)
    × (b.workspace ≡ "new")
    × (b.updated_at ≡ 9)
    × (b.created_at ≡ creation 9 (get "t1" rows))
    × (get "t2" rows' ≡ get "t2" rows)
bind-get_example = bind-get 9 "t1" "new" rows "t2" another
