-- ===== src/Tests/Calls.antt =====
-- A query to two members.
use old_derecho.Base.{ℕ, ◌≡◌, refl, ◌≢◌, ◌⊎◌, true, false, [], ◌∷◌}
use old_derecho.Tests.Data.{a_query}
use old_derecho.Rpc.Pending.{Pending, Error, ok, err, contains, set_value, value, remove_nodes}
use old_derecho.Rpc.Pending.Laws.{IsTracked, Kept, answer, is_set, remove_nodes_lem, set_value_once}

remove_nodes_lem_example :
    (q : Pending ℕ) × (remove_nodes (20 ∷ []) a_query ≡ ok q)
    × ((n : ℕ)
        → contains (20 ∷ []) n ≡ true
        → contains a_query.dest_nodes n ≡ true
        → is_set (q.promises n) ≡ true)
    × Kept a_query q
unfolding contains
remove_nodes_lem_example = remove_nodes_lem (20 ∷ []) a_query (λ n. refl) refl

set_value_once_example :
    ((contains a_query.set_nodes 10 ≡ false)
      × (set_value a_query 10 5 ≡ ok (answer a_query 10 (value 5)))
      × ((n : ℕ) → n ≢ 10 → (answer a_query 10 (value 5)).promises n ≡ a_query.promises n)
      × IsTracked (answer a_query 10 (value 5)))
    ⊎ ((contains a_query.set_nodes 10 ≡ true)
        × (set_value a_query 10 5 ≡ err Error.promise_already_satisfied))
unfolding contains
set_value_once_example = set_value_once a_query 10 5 (λ n. refl)
