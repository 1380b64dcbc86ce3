-- ===== src/Client.antt =====
-- src/statsig/internal/statsig_client.cpp and statsig_context.hpp: the client as a context and what
-- its methods do to it. `none` is a client that is not initialized. The background tasks and the
-- posts that a method starts are returned as data; the diagnostics are those of the logger.
pub mod Updates
pub mod Checks
pub mod Session
pub mod Configs
pub mod Layers
pub mod Start
pub mod Races
pub mod Tasks
pub mod Torn
use cpp_client_sdk.Adapter.{DataAdapter, get_data_sync}
use cpp_client_sdk.Details.{DataAdapterResult}
use cpp_client_sdk.Diagnostics.{set_user}
use cpp_client_sdk.Dict.{Dict}
use cpp_client_sdk.ErrorBoundary.{ErrorBoundary, handle_bad_result, returned, capture}
use cpp_client_sdk.Evaluation.{EvaluationDetails}
use cpp_client_sdk.Event.{StatsigEvent, internalize_event, make_gate_exposure}
use cpp_client_sdk.EventLogger.{EventLogger, enqueue}
use cpp_client_sdk.Http.{HttpRequest}
use cpp_client_sdk.JsonLib.{JsonLib}
use cpp_client_sdk.Prelude.{
  String, Bool, false, ◌&&◌, not, Option, none, some, List, [], ◌∷◌, ◌++◌, if◌then◌else◌, ℤ,
}
use cpp_client_sdk.Result.{StatsigResultCode, code_ok, code_eq, StatsigResult}
use cpp_client_sdk.Store.{
  EvaluationStore, reset, finalize, set_values_from_data_adapter_result, get_gate,
}
use cpp_client_sdk.Text.{str_eq}
use cpp_client_sdk.User.{StatsigUser, StatsigOptions, MapOrder, normalize_user, are_users_equal}

-- FeatureGate(name, rule_id, nullopt, details, value).
pub record FeatureGate : Type 0 where
  pub name : String
  pub rule_id : String
  pub details : EvaluationDetails
  pub value : Bool

module _ ⦃J : JsonLib⦄ where
  -- `reports` are the requests that the error boundary has posted.
  pub record StatsigContext : Type 0 where
    pub sdk_key : String
    pub user : StatsigUser
    pub options : StatsigOptions
    pub err_boundary : ErrorBoundary
    pub store : EvaluationStore
    pub logger : EventLogger
    pub data_adapter : DataAdapter
    pub reports : List HttpRequest

  -- A call of GetDataAsync in the background: with the answer thrown away, or finishing an update.
  pub data BackgroundTask : Type 0 where
    prefetch_task : Option DataAdapterResult → BackgroundTask
    update_task : StatsigUser → Option DataAdapterResult → BackgroundTask

  -- `context_ != nullptr && !context_->sdk_key.empty()`.
  unfoldable pub ensure_initialized : Option StatsigContext → Bool
  ensure_initialized none = false
  ensure_initialized (some c) = not (str_eq c.sdk_key "")

  -- The lines that both updates start with, up to SetValuesFromDataAdapterResult.
  pub load_user : StatsigUser → StatsigContext → StatsigContext × StatsigResult DataAdapterResult
  load_user user c =
      let current = normalize_user user c.options in
      let diagnostics = set_user c.logger.diagnostics user in
      let (adapter, result) = get_data_sync c.data_adapter current in
      let emptied = reset c.store in
      (
        record c {
          user = current;
          store =
              if code_eq result.code code_ok
              then (set_values_from_data_adapter_result emptied result.value).0
              else emptied;
          logger = record c.logger { diagnostics = diagnostics };
          data_adapter = adapter;
        },
        result,
      )

  add_report : Option HttpRequest → List HttpRequest → List HttpRequest
  add_report none rs = rs
  add_report (some r) rs = rs ++ r ∷ []

  pub finalize_store : StatsigContext → StatsigContext
  finalize_store c = record c { store = finalize c.store }

  module _ (eb_api : String) (trace : List String) where
    -- shared_ctx->err_boundary.HandleBadResult(tag, code, extra).
    pub report : StatsigContext → String → StatsigResultCode → Option (Dict String) → StatsigContext
    unfolding add_report
    report c tag code extra =
        let (bad, boundary, request) =
          handle_bad_result eb_api trace c.err_boundary tag code extra in
        record c { err_boundary = boundary; reports = add_report request c.reports }

    -- The end of EB, for a task that returned the code.
    pub captured : StatsigContext → String → StatsigResultCode → StatsigContext
    unfolding add_report
    captured c tag code =
        let done = capture eb_api trace c.err_boundary tag (returned code) false in
        record c { err_boundary = done.boundary; reports = add_report done.report c.reports }

    pub update_user_sync :
        StatsigUser → StatsigContext → StatsigContext × StatsigResultCode × BackgroundTask
    unfolding load_user finalize_store report captured
    update_user_sync user c =
        let (loaded, result) = load_user user c in
        let reported = report (finalize_store loaded) "UpdateUserSync" result.code result.extra in
        (captured reported "UpdateUserSync" result.code, result.code, prefetch_task result.value)

    -- The task returns Ok, on which the boundary does nothing.
    pub update_user_async : StatsigUser → StatsigContext → StatsigContext × BackgroundTask
    unfolding load_user captured
    update_user_async user c =
        let (loaded, result) = load_user user c in
        (captured loaded "UpdateUserAsync" code_ok, update_task loaded.user result.value)

    -- The inner callback of UpdateUserAsync where no other thread updates the user between its comparison
    -- and its set (Client/Races takes the two apart); the caller's callback is given the code of the
    -- result.
    pub finish_update :
        ⦃o : MapOrder⦄
        → StatsigUser
        → StatsigResult DataAdapterResult
        → StatsigContext
        → StatsigContext × StatsigResultCode
    unfolding finalize_store report
    finish_update initiator result c =
        let is_current = are_users_equal initiator c.user in
        let store =
          if code_eq result.code code_ok && is_current
          then (set_values_from_data_adapter_result c.store result.value).0
          else c.store in
        (
          report (finalize_store (record c { store = store })) "UpdateUserAsync" result.code
              result.extra,
          result.code,
        )

    -- GetFeatureGate of an initialized client; `now` is when the exposure is made.
    pub get_feature_gate : ℤ → String → StatsigContext → StatsigContext × FeatureGate
    unfolding captured
    get_feature_gate now gate_name c =
        let gate = get_gate c.store gate_name in
        let exposure = make_gate_exposure now gate_name c.user gate in
        let c' = record c { logger = enqueue now c.logger exposure } in
        (
          captured c' "GetFeatureGate" code_ok,
          record {
            name = gate_name;
            rule_id = elim gate.evaluation [ none ↦ "" | some e ↦ e.rule_id ];
            details = gate.details;
            value = elim gate.evaluation [ none ↦ false | some e ↦ e.value ];
          },
        )

    pub check_gate : ℤ → String → Option StatsigContext → Option StatsigContext × Bool
    unfolding get_feature_gate ensure_initialized
    check_gate now gate_name none = (none, false)
    check_gate now gate_name (some c) =
        let (c', gate) = get_feature_gate now gate_name c in
        if ensure_initialized (some c) then (some c', gate.value) else (some c, false)

    pub log_event : ℤ → StatsigEvent → Option StatsigContext → Option StatsigContext
    unfolding captured ensure_initialized
    log_event now event none = none
    log_event now event (some c) =
        let logger = enqueue now c.logger (internalize_event now event c.user) in
        let c' = record c { logger = logger } in
        if ensure_initialized (some c) then some (captured c' "LogEvent" code_ok) else some c
