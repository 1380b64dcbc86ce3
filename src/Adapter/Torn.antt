-- ===== src/Adapter/Torn.antt =====
-- What GetDataSync of src/statsig/internal/statsig_evaluations_data_adapter.hpp makes of a file whose write
-- was cut short: WriteStringToFile truncates the file and writes it in place, so a process that ends on
-- the way leaves a part of the text.
use cpp_client_sdk.Adapter.{
  get_cache_key, answer_file, read_from_cache_file, answer_read, get_data_sync,
}
use cpp_client_sdk.Adapter.Answers.{get_data_sync_miss}
use cpp_client_sdk.Adapter.Sessions.{next_session}
use cpp_client_sdk.Details.{DataAdapterResult}
use cpp_client_sdk.Dict.{find}
use cpp_client_sdk.Files.{CacheDirectory, do_write}
use cpp_client_sdk.Files.Writes.{do_write-read}
use cpp_client_sdk.Json.Requests.{data_adapter_result_to_json, deserialize_data_adapter_result}
use cpp_client_sdk.JsonLib.{JsonLib}
use cpp_client_sdk.JsonLib.Laws.{MemberLaws, PrefixLaw}
use cpp_client_sdk.Prelude.{String, ◌≡◌, refl, ap, ◌∙◌, ◌≢◌, true, none, some, ℤ}
use cpp_client_sdk.Result.{json_failure_data_adapter_result, StatsigResult, fail}
use cpp_client_sdk.Text.{concat}
use cpp_client_sdk.User.{StatsigUser}

module _ ⦃J : JsonLib⦄ where
  -- The directory after the first part of a write.
  pub cut_write : ℤ → String → String → CacheDirectory → CacheDirectory
  unfolding do_write
  cut_write now key part d = do_write now (some (key, part)) d

  deserialize_broken :
      (text : String)
      → J.parse text ≡ none
      → deserialize_data_adapter_result text ≡ fail json_failure_data_adapter_result
  unfolding deserialize_data_adapter_result
  deserialize_broken text broken = rw (broken, deserialize_data_adapter_result) refl

  read_cut :
      (now : ℤ) (d : CacheDirectory) (key part : String)
      → d.is_created ≡ true
      → J.parse part ≡ none
      → (read_from_cache_file (cut_write now key part d) key).1
        ≡ fail json_failure_data_adapter_result
  unfolding read_from_cache_file answer_file cut_write
  read_cut now d key part there broken =
      ap answer_file (do_write-read now d key part there) ∙ rw (deserialize_broken part broken) refl

  -- A new session reads no values from a file whose write was cut short, whatever the file held before.
  pub get_data_sync-cut_write :
      (law : PrefixLaw J) (members : MemberLaws J) (now : ℤ) (d : CacheDirectory) (sdk_key : String)
      (user : StatsigUser) (r : DataAdapterResult) (part rest : String)
      → d.is_created ≡ true
      → J.dump (data_adapter_result_to_json r) ≡ some (concat part rest)
      → rest ≢ ""
      → (get_data_sync
          (next_session sdk_key (cut_write now (get_cache_key sdk_key user) part d))
          user).1
        ≡ fail json_failure_data_adapter_result
  unfolding answer_read find
  get_data_sync-cut_write law members now d sdk_key user r part rest there split some_left =
      let key = get_cache_key sdk_key user in
      let torn = cut_write now key part d in
      let broken : J.parse part ≡ none =
        law.parse_prefix (data_adapter_result_to_json r) part rest
          (unfold data_adapter_result_to_json in members.is_object-of_map _) split some_left in
      ap (λ t. t.1) (get_data_sync_miss (next_session sdk_key torn) user refl)
      ∙ ap
          (λ (t : StatsigResult DataAdapterResult).
            (answer_read
              (record (next_session sdk_key torn) { directory = (read_from_cache_file torn key).0 })
              key t.code t.value).1)
          (read_cut now d key part there broken)
