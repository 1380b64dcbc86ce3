-- ===== src/Json/RoundTrip.antt =====
-- What is written to the cache directory reads back.
use cpp_client_sdk.Details.{network, DataAdapterResult}
use cpp_client_sdk.Dict.{Dict, find, IsDict, is_dict, is_dict-IsDict}
use cpp_client_sdk.Json.Requests.{
  source_to_int, source_of_int, data_adapter_result_to_json, serialize_data_adapter_result,
  data_adapter_result_from_json, deserialize_data_adapter_result,
}
use cpp_client_sdk.JsonLib.{JsonLib, ◌>>=◌, bind_cases}
use cpp_client_sdk.JsonLib.Laws.{IsInt64, JsonLaws, IsPrintable}
use cpp_client_sdk.Prelude.{
  String, ◌≡◌, refl, sym, ap, ◌∙◌, Option, none, some, [], ◌∷◌, arith, pos,
}
use cpp_client_sdk.Result.{json_failure_data_adapter_result, StatsigResult, succeed, fail}

module _ ⦃J : JsonLib⦄ (laws : JsonLaws J) where
  open laws use {get_at-of_map, get_string-of_string, get_int-of_int}

  -- The members that the JSON of a result is made with.
  members : DataAdapterResult → Dict J.Value
  members r =
      ("source", J.of_int (source_to_int r.source))
      ∷ ("data", J.of_string r.values_str)
      ∷ ("receivedAt", J.of_int r.received_at)
      ∷ ("fullUserHash", J.of_string r.full_user_hash)
      ∷ []

  members-IsDict : (r : DataAdapterResult) → IsDict (members r)
  unfolding members
  members-IsDict r = is_dict-IsDict (members r) (unfold is_dict in refl)

  member :
      (r : DataAdapterResult) (k : String)
      → J.get_at (data_adapter_result_to_json r) k ≡ find k (members r)
  unfolding data_adapter_result_to_json members
  member r k = get_at-of_map k (members r) (members-IsDict r)

  network_number :
      (r : DataAdapterResult)
      → r.source ≡ network
      → J.get_int (J.of_int (source_to_int r.source)) ≡ some (pos 4)
  unfolding source_to_int
  network_number r e =
      ap (λ s. J.get_int (J.of_int (source_to_int s))) e
      ∙ get_int-of_int (pos 4) (omega arith, omega arith)

  data_adapter_result_from_json-to_json :
      (r : DataAdapterResult)
      → r.source ≡ network
      → IsInt64 r.received_at
      → data_adapter_result_from_json (data_adapter_result_to_json r) ≡ some r
  unfolding data_adapter_result_from_json members source_to_int source_of_int find
  data_adapter_result_from_json-to_json r e h =
      rw
        (
          member r "fullUserHash",
          member r "receivedAt",
          member r "source",
          member r "data",
          get_string-of_string r.full_user_hash,
          get_int-of_int r.received_at h,
          get_string-of_string r.values_str,
          network_number r e,
        )
        (ap (λ s. some (record r { source = s })) (sym e))

  -- A result of the network is read back from the text that it is written as.
  pub deserialize-serialize_data_adapter_result :
      (r : DataAdapterResult)
      → r.source ≡ network
      → IsInt64 r.received_at
      → IsPrintable J (data_adapter_result_to_json r)
      → (text : String) × (serialize_data_adapter_result r ≡ some (succeed text))
        × (deserialize_data_adapter_result text ≡ succeed r)
  unfolding serialize_data_adapter_result deserialize_data_adapter_result
  deserialize-serialize_data_adapter_result r e h printable =
      let (text, printed, parsed) =
        bind_cases (J.dump (data_adapter_result_to_json r)) J.parse _ printable in
      (
        text,
        ap (λ o. o >>= λ t. some (succeed t)) printed,
        ap (λ o. answer (o >>= data_adapter_result_from_json)) parsed
            ∙ ap answer (data_adapter_result_from_json-to_json r e h),
      )
    where
      answer : Option DataAdapterResult → StatsigResult DataAdapterResult
      answer none = fail json_failure_data_adapter_result
      answer (some res) = succeed res
