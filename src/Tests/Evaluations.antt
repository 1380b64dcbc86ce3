-- ===== src/Tests/Evaluations.antt =====
-- Tests of the store, of its lookups and of hashing.
use cpp_client_sdk.Dict.{Dict}
use cpp_client_sdk.Hashing.{djb2, polynomial_hash, djb2-polynomial_hash}
use cpp_client_sdk.Prelude.{String, ◌≡◌, refl, none, some, List, [], ◌∷◌}
use cpp_client_sdk.Store.{new_store}
use cpp_client_sdk.Store.Lifecycle.{
  StoreCall, resets, finalizes, sets, run, IsConsistent, run-IsConsistent, update_calls, answer_of,
  run-update_calls,
}
use cpp_client_sdk.Tests.Toy.{toy_json, insertion_order, sample_user, sample_result}
use cpp_client_sdk.Text.{codes, to_string}
use cpp_client_sdk.Text.Order.{str_lt}
use cpp_client_sdk.User.{make_cache_key}
use cpp_client_sdk.User.Keys.{make_cache_key-separators}

abbrev sample_calls : List StoreCall
sample_calls = resets ∷ sets (some sample_result) ∷ finalizes ∷ resets ∷ sets none ∷ finalizes ∷ []

run-IsConsistent_example : IsConsistent (run new_store sample_calls)
run-IsConsistent_example = run-IsConsistent sample_calls

run-update_calls_example :
    run new_store (update_calls (some sample_result)) ≡ answer_of (some sample_result)
run-update_calls_example = run-update_calls new_store (some sample_result)

djb2-polynomial_hash_example : djb2 "a_gate" ≡ to_string (polynomial_hash 0 (codes "a_gate"))
djb2-polynomial_hash_example = djb2-polynomial_hash "a_gate"

abbrev two_ids : Dict String
two_ids = ("a", "1") ∷ ("b", "2") ∷ []

make_cache_key-separators_example :
    make_cache_key "key" (record sample_user { custom_ids = two_ids })
    ≡ make_cache_key "key" (record sample_user { custom_ids = ("a", "1,b-2") ∷ [] })
make_cache_key-separators_example =
    make_cache_key-separators "key" "a" "b" "1" "2" sample_user (unfold str_lt in refl)
