-- ===== src/Details.antt =====
-- src/statsig/internal/evaluation_details_internal.hpp, and ValueSource and DataAdapterResult of
-- src/statsig/evaluations_data_adapter.h.
use cpp_client_sdk.Evaluation.{EvaluationDetails}
use cpp_client_sdk.Prelude.{String, Bool, true, false, if◌then◌else◌, ℤ, pos}
use cpp_client_sdk.Text.{concat}

-- An enum class may hold any int; `out_of_range` is one that no enumerator names.
pub data ValueSource : Type 0 where
  uninitialized loading no_values cache network network_not_modified bootstrap : ValueSource
  out_of_range : ℤ → ValueSource

unfoldable pub get_value_source_string : ValueSource → String
get_value_source_string uninitialized = "Uninitialized"
get_value_source_string loading = "Loading"
get_value_source_string no_values = "NoValues"
get_value_source_string cache = "Cache"
get_value_source_string network = "Network"
get_value_source_string network_not_modified = "NetworkNotModified"
get_value_source_string bootstrap = "Bootstrap"
get_value_source_string (out_of_range n) = ""

pub record SourceInfo : Type 0 where
  pub source : ValueSource
  pub lcut : ℤ
  pub received_at : ℤ

-- Uninitialized().
abbrev pub uninitialized_details : EvaluationDetails
uninitialized_details = record { reason = "Uninitialized"; lcut = pos 0; received_at = pos 0 }

abbrev has_no_values : ValueSource → Bool
has_no_values uninitialized = true
has_no_values no_values = true
has_no_values _ = false

unfoldable pub unrecognized_from_source_info : SourceInfo → EvaluationDetails
unrecognized_from_source_info info =
    let result = get_value_source_string info.source in
    if has_no_values info.source
    then record { reason = result; lcut = pos 0; received_at = pos 0 }
    else record {
      reason = concat result ":Unrecognized";
      lcut = info.lcut;
      received_at = info.received_at;
    }

unfoldable pub recognized_from_source_info : SourceInfo → EvaluationDetails
recognized_from_source_info info = record {
  reason = concat (get_value_source_string info.source) ":Recognized";
  lcut = info.lcut;
  received_at = info.received_at;
}

-- `values_str` is the field `data`.
pub record DataAdapterResult : Type 0 where
  pub source : ValueSource
  pub values_str : String
  pub received_at : ℤ
  pub full_user_hash : String
