-- ===== src/Json/Dispatch.antt =====
-- src/statsig/internal/json_parser.hpp: the template that reads and writes a type by its own code. A
-- static_assert keeps it to the types that are tested.
use cpp_client_sdk.Details.{DataAdapterResult}
use cpp_client_sdk.Dict.{Dict}
use cpp_client_sdk.Evaluation.{InitializeResponse}
use cpp_client_sdk.Event.{StatsigEventInternal, RetryableEventPayload}
use cpp_client_sdk.Json.ErrorArgs.{ErrorBoundaryRequestArgs, serialize_error_args}
use cpp_client_sdk.Json.InitializeResponse.{deserialize_response}
use cpp_client_sdk.Json.Requests.{
  LogEventResponse, deserialize_log_event_response, InitializeRequestArgs,
  serialize_initialize_args, serialize_log_event_args, serialize_payloads, deserialize_payloads,
  serialize_data_adapter_result, deserialize_data_adapter_result,
}
use cpp_client_sdk.Json.User.{serialize_user, deserialize_user}
use cpp_client_sdk.JsonLib.{JsonLib}
use cpp_client_sdk.Prelude.{String, Bool, true, false, Option, some, List}
use cpp_client_sdk.Result.{
  json_failure_no_deserializer_found, json_failure_no_serializer_found, StatsigResult, fail,
}
use cpp_client_sdk.User.{StatsigUser}

-- The types that the template is asked for.
pub data JsonType : Type 0 where
  user_type data_adapter_result_type initialize_response_type log_event_response_type : JsonType
  payloads_type initialize_args_type log_event_args_type error_args_type : JsonType

-- The static_asserts of Deserialize and of Serialize.
unfoldable pub is_readable : JsonType → Bool
is_readable user_type = true
is_readable data_adapter_result_type = true
is_readable initialize_response_type = true
is_readable log_event_response_type = true
is_readable payloads_type = true
is_readable t = false

unfoldable pub is_writable : JsonType → Bool
is_writable initialize_args_type = true
is_writable user_type = true
is_writable data_adapter_result_type = true
is_writable log_event_args_type = true
is_writable error_args_type = true
is_writable payloads_type = true
is_writable t = false

module _ ⦃J : JsonLib⦄ where
  abbrev pub Carrier : JsonType → Type 0
  Carrier user_type = StatsigUser
  Carrier data_adapter_result_type = DataAdapterResult
  Carrier initialize_response_type = InitializeResponse
  Carrier log_event_response_type = LogEventResponse
  Carrier payloads_type = List RetryableEventPayload
  Carrier initialize_args_type = InitializeRequestArgs
  Carrier log_event_args_type = List StatsigEventInternal × Dict String
  Carrier error_args_type = ErrorBoundaryRequestArgs

  pub deserialize_as : (t : JsonType) → String → StatsigResult (Carrier t)
  unfolding deserialize_data_adapter_result deserialize_user deserialize_response
      deserialize_log_event_response deserialize_payloads
  deserialize_as data_adapter_result_type input = deserialize_data_adapter_result input
  deserialize_as user_type input = deserialize_user input
  deserialize_as initialize_response_type input = deserialize_response input
  deserialize_as log_event_response_type input = deserialize_log_event_response input
  deserialize_as payloads_type input = deserialize_payloads input
  deserialize_as t input = fail json_failure_no_deserializer_found

  pub serialize_as : (t : JsonType) → Carrier t → Option (StatsigResult String)
  unfolding serialize_initialize_args serialize_user serialize_data_adapter_result
      serialize_log_event_args serialize_error_args serialize_payloads
  serialize_as initialize_args_type args = serialize_initialize_args args
  serialize_as user_type user = serialize_user user
  serialize_as data_adapter_result_type res = serialize_data_adapter_result res
  serialize_as log_event_args_type (events, metadata) = serialize_log_event_args events metadata
  serialize_as error_args_type args = serialize_error_args args
  serialize_as payloads_type failures = serialize_payloads failures
  serialize_as t input = some (fail json_failure_no_serializer_found)
