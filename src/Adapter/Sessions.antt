-- ===== src/Adapter/Sessions.antt =====
-- From the answer to a fetch in one session to the values that the next session starts with.
use cpp_client_sdk.Adapter.{
  cached_evaluations_prefix, get_cache_key, add_to_in_memory_cache, DataAdapter, answer_file,
  read_from_cache_file, answer_read, get_data_sync, Delivery, deliver_latest, write_to_cache_file,
}
use cpp_client_sdk.Adapter.Answers.{get_data_sync_miss}
use cpp_client_sdk.Details.{cache, network, DataAdapterResult}
use cpp_client_sdk.Dict.{find}
use cpp_client_sdk.Files.{CacheDirectory, ensure_cache_directory_exists, read_from_cache, do_write}
use cpp_client_sdk.Files.Eviction.{run_cache_eviction_total}
use cpp_client_sdk.Files.Writes.{do_write-read}
use cpp_client_sdk.Json.Requests.{
  data_adapter_result_to_json, serialize_data_adapter_result, deserialize_data_adapter_result,
}
use cpp_client_sdk.Json.RoundTrip.{deserialize-serialize_data_adapter_result}
use cpp_client_sdk.JsonLib.{JsonLib}
use cpp_client_sdk.JsonLib.Laws.{IsInt64, JsonLaws, IsPrintable}
use cpp_client_sdk.Prelude.{String, ◌≡◌, refl, ap, ◌∙◌, true, none, some, [], arith, ℤ}
use cpp_client_sdk.Result.{StatsigResult, succeed}
use cpp_client_sdk.User.{StatsigUser}

-- The adapter of a session that starts with the directory.
abbrev pub next_session : String → CacheDirectory → DataAdapter
next_session sdk_key d = record { sdk_key = sdk_key; in_memory_cache = []; directory = d }

-- A result as a fetch gives it.
abbrev pub from_network : DataAdapterResult → DataAdapterResult
from_network r = record r { source = network }

-- The directory after the write that a delivery has due.
abbrev pub after_write : ⦃J : JsonLib⦄ → ℤ → Delivery → CacheDirectory
after_write now delivery = do_write now delivery.write delivery.adapter.directory

module _ ⦃J : JsonLib⦄ (laws : JsonLaws J) where
  -- In a directory that is there, a result from the network is written under the key of the user.
  deliver_latest_writes :
      (a : DataAdapter) (user : StatsigUser) (r : DataAdapterResult) (text : String)
      → a.directory.is_created ≡ true
      → serialize_data_adapter_result (from_network r) ≡ some (succeed text)
      → (delivery : Delivery) × (deliver_latest a user (succeed (from_network r)) ≡ some delivery)
        × (delivery.write ≡ some (get_cache_key a.sdk_key user, text))
        × (delivery.adapter.directory.is_created ≡ true)
  unfolding deliver_latest write_to_cache_file ensure_cache_directory_exists
  deliver_latest_writes a user r text there printed =
      let key = get_cache_key a.sdk_key user in
      let (d', ran) = run_cache_eviction_total a.directory cached_evaluations_prefix there in
      (
        record {
          adapter = record a {
            in_memory_cache = add_to_in_memory_cache key (from_network r) a.in_memory_cache;
            directory = ensure_cache_directory_exists d';
          };
          write = some (key, text);
          answer = some (succeed (from_network r));
        },
        rw (ran, printed, write_to_cache_file) refl,
        refl,
        ground arith,
      )

  read_from_cache_file-from_network :
      (d : CacheDirectory) (key : String) (r : DataAdapterResult) (text : String)
      → deserialize_data_adapter_result text ≡ succeed (from_network r)
      → (read_from_cache d key).1 ≡ some text
      → (read_from_cache_file d key).1 ≡ succeed (record r { source = cache })
  unfolding read_from_cache_file answer_file
  read_from_cache_file-from_network d key r text read held =
      ap answer_file held
      ∙ ap
          (λ (t : StatsigResult DataAdapterResult). record t {
            value = elim t.value [ none ↦ none | some r ↦ some (record r { source = cache }) ];
          })
          read

  -- What a session fetches is what the next one starts with: a result from the network, once it is
  -- delivered and its file is written, is what GetDataSync of a new session reads for the same user
  -- from the cache directory, with the source Cache, if the directory is there, the time is of 64
  -- bits and the JSON library can print the result.
  pub get_data_sync-deliver_latest :
      (now : ℤ) (a : DataAdapter) (user : StatsigUser) (r : DataAdapterResult)
      → a.directory.is_created ≡ true
      → IsInt64 r.received_at
      → IsPrintable J (data_adapter_result_to_json (from_network r))
      → (delivery : Delivery) × (deliver_latest a user (succeed (from_network r)) ≡ some delivery)
        × ((get_data_sync (next_session a.sdk_key (after_write now delivery)) user).1
            ≡ succeed (record r { source = cache }))
  unfolding answer_read find
  get_data_sync-deliver_latest now a user r there h printable =
      let (text, printed, read) =
        deserialize-serialize_data_adapter_result laws (from_network r) refl h printable in
      let (delivery, given, write, kept) = deliver_latest_writes a user r text there printed in
      let next = next_session a.sdk_key (after_write now delivery) in
      let key = get_cache_key a.sdk_key user in
      let held : (read_from_cache (after_write now delivery) key).1 ≡ some text =
        ap (λ w. (read_from_cache (do_write now w delivery.adapter.directory) key).1) write
        ∙ do_write-read now delivery.adapter.directory key text kept in
      (
        delivery,
        given,
        ap (λ t. t.1) (get_data_sync_miss next user refl)
            ∙ ap
                (λ (t : StatsigResult DataAdapterResult).
                  (answer_read
                    (record next { directory = (read_from_cache_file next.directory key).0 }) key
                    t.code t.value).1)
                (read_from_cache_file-from_network next.directory key r text read held),
      )
