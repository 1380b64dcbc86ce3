-- ===== src/Tests/Races.antt =====
-- Tests of answers that come while the user is updated.
use cpp_client_sdk.Client.{update_user_sync, finish_update}
use cpp_client_sdk.Client.Races.{takes_answer, finish_compared, update_between}
use cpp_client_sdk.Dict.Sorted.{sorted_emplace, sorted_map}
use cpp_client_sdk.Hashing.{char_to_word, djb2_step, djb2_loop, djb2}
use cpp_client_sdk.Prelude.{◌≡◌, refl, true, false, some, []}
use cpp_client_sdk.Result.{succeed}
use cpp_client_sdk.Store.Lifecycle.{put_values}
use cpp_client_sdk.Tests.Clients.{other_user}
use cpp_client_sdk.Tests.Toy.{toy_json, insertion_order, sample_user, sample_result, sample_context}
use cpp_client_sdk.Text.{to_string}
use cpp_client_sdk.User.{
  unwrap_string, normalize_user, write_pairs, create_sorted_map_string, hash_pairs,
  get_full_user_hash, are_users_equal,
}
use cpp_client_sdk.User.Keys.{are_users_equal_self}

-- The two users' ids hash apart.
other_user_differs :
    are_users_equal ⦃o = insertion_order⦄ sample_user
      (normalize_user other_user sample_context.options)
    ≡ false
unfolding are_users_equal get_full_user_hash hash_pairs write_pairs create_sorted_map_string
    unwrap_string normalize_user djb2 djb2_loop djb2_step char_to_word to_string sorted_map
    sorted_emplace
other_user_differs = refl

answer_is_taken : takes_answer sample_user (succeed sample_result) sample_context ≡ true
unfolding takes_answer
answer_is_taken = are_users_equal_self sample_user

update_between_example :
    let c = sample_context in
    let updated = (update_user_sync "https://statsigapi.net" [] other_user c).0 in
    let result = succeed sample_result in
    let raced =
      (finish_compared "https://statsigapi.net" []
        (takes_answer sample_user result c)
        result
        updated).0 in
    let in_order = (finish_update "https://statsigapi.net" [] sample_user result updated).0 in
    (raced.user ≡ normalize_user other_user c.options)
    × (raced.store.values ≡ put_values (some sample_result) updated.store.values)
    × (in_order.user ≡ normalize_user other_user c.options)
    × (in_order.store.values ≡ updated.store.values)
update_between_example =
    update_between "https://statsigapi.net" [] sample_user other_user (succeed sample_result)
      sample_context answer_is_taken other_user_differs
