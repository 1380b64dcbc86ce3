-- ===== src/Result.antt =====
-- src/statsig/statsig_result.h: result codes, and the result of an operation.
use cpp_client_sdk.Dict.{Dict}
use cpp_client_sdk.Prelude.{
  ℕ, String, ◌≡◌, refl, ap, Bool, Option, none, some, List, [], ◌∷◌, ◌==◌, if◌then◌else◌,
}
use cpp_client_sdk.Text.{str_eq}

pub data StatsigResultCode : Type 0 where
  code_ok unexpected_error invalid_sdk_key : StatsigResultCode
  json_failure_data_adapter_result json_failure_initialize_request_args : StatsigResultCode
  json_failure_initialize_response json_failure_log_event_response : StatsigResultCode
  json_failure_log_event_request_args json_failure_retryable_event_payload : StatsigResultCode
  json_failure_statsig_user json_failure_no_deserializer_found : StatsigResultCode
  json_failure_no_serializer_found network_failure_bad_status_code : StatsigResultCode
  client_uninitialized file_failure_data_adapter_result file_failure_stable_id : StatsigResultCode
  file_failure_retryable_event_payload shutdown_failure_dangling_threads : StatsigResultCode
  shared_pointer_lost : StatsigResultCode

-- The enumerator's number.
abbrev pub code_number : StatsigResultCode → ℕ
code_number code_ok = 0
code_number unexpected_error = 1
code_number invalid_sdk_key = 2
code_number json_failure_data_adapter_result = 3
code_number json_failure_initialize_request_args = 4
code_number json_failure_initialize_response = 5
code_number json_failure_log_event_response = 6
code_number json_failure_log_event_request_args = 7
code_number json_failure_retryable_event_payload = 8
code_number json_failure_statsig_user = 9
code_number json_failure_no_deserializer_found = 10
code_number json_failure_no_serializer_found = 11
code_number network_failure_bad_status_code = 12
code_number client_uninitialized = 13
code_number file_failure_data_adapter_result = 14
code_number file_failure_stable_id = 15
code_number file_failure_retryable_event_payload = 16
code_number shutdown_failure_dangling_threads = 17
code_number shared_pointer_lost = 18

-- `a == b` on codes.
abbrev pub code_eq : StatsigResultCode → StatsigResultCode → Bool
code_eq a b = code_number a == code_number b

unfoldable pub result_code_to_string : StatsigResultCode → String
result_code_to_string json_failure_initialize_request_args = "JsonFailureInitializeRequestArgs"
result_code_to_string json_failure_initialize_response = "JsonFailureInitializeResponse"
result_code_to_string json_failure_log_event_response = "JsonFailureLogEventResponse"
result_code_to_string json_failure_no_deserializer_found = "JsonFailureNoDeserializerFound"
result_code_to_string json_failure_statsig_user = "JsonFailureStatsigUser"
result_code_to_string code_ok = "Ok"
result_code_to_string unexpected_error = "UnexpectedError"
result_code_to_string invalid_sdk_key = "InvalidSdkKey"
result_code_to_string json_failure_data_adapter_result = "JsonFailureDataAdapterResult"
result_code_to_string json_failure_retryable_event_payload = "JsonFailureRetryableEventPayload"
result_code_to_string network_failure_bad_status_code = "NetworkFailureBadStatusCode"
result_code_to_string client_uninitialized = "ClientUninitialized"
result_code_to_string json_failure_no_serializer_found = "JsonFailureNoSerializerFound"
result_code_to_string json_failure_log_event_request_args = "JsonFailureLogEventRequestArgs"
result_code_to_string file_failure_data_adapter_result = "FileFailureDataAdapterResult"
result_code_to_string file_failure_stable_id = "FileFailureStableID"
result_code_to_string file_failure_retryable_event_payload = "FileFailureRetryableEventPayload"
result_code_to_string shutdown_failure_dangling_threads = "ShutdownFailureDanglingThreads"
result_code_to_string shared_pointer_lost = "SharedPointerLost"

pub record StatsigResult {ℓ} (A : Type ℓ) : Type ℓ where
  pub code : StatsigResultCode
  pub value : Option A
  pub extra : Option (Dict String)

module _ {ℓ} {A : Type ℓ} where
  -- `{Ok, value}`.
  abbrev pub succeed : A → StatsigResult A
  succeed a = record { code = code_ok; value = some a; extra = none }

  -- `{code}`.
  abbrev pub fail : StatsigResultCode → StatsigResult A
  fail c = record { code = c; value = none; extra = none }

-- Every code, in the order of the enumeration.
abbrev all_codes : List StatsigResultCode
all_codes =
    code_ok ∷ unexpected_error ∷ invalid_sdk_key ∷ json_failure_data_adapter_result
    ∷ json_failure_initialize_request_args ∷ json_failure_initialize_response
    ∷ json_failure_log_event_response ∷ json_failure_log_event_request_args
    ∷ json_failure_retryable_event_payload ∷ json_failure_statsig_user
    ∷ json_failure_no_deserializer_found ∷ json_failure_no_serializer_found
    ∷ network_failure_bad_status_code ∷ client_uninitialized ∷ file_failure_data_adapter_result
    ∷ file_failure_stable_id ∷ file_failure_retryable_event_payload
    ∷ shutdown_failure_dangling_threads ∷ shared_pointer_lost ∷ []

-- The first code of the list that goes by the name.
code_of_name : String → List StatsigResultCode → Option StatsigResultCode
unfolding result_code_to_string
code_of_name s [] = none
code_of_name s (c ∷ cs) = if str_eq (result_code_to_string c) s then some c else code_of_name s cs

code_of_name-result_code_to_string :
    (c : StatsigResultCode) → code_of_name (result_code_to_string c) all_codes ≡ some c
unfolding code_of_name
code_of_name-result_code_to_string code_ok = refl
code_of_name-result_code_to_string _ = refl

-- No two result codes print the same name, so the name in an error report identifies its code.
result_code_to_string-injective :
    (a b : StatsigResultCode) → result_code_to_string a ≡ result_code_to_string b → a ≡ b
result_code_to_string-injective a b e = cc (
  code_of_name-result_code_to_string a,
  code_of_name-result_code_to_string b,
  ap (λ s. code_of_name s all_codes) e,
)
