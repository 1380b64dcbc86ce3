-- ===== src/Instances.antt =====
-- The shared objects of the client's parts: the static Get and Shutdown of
-- src/statsig/internal/error_boundary.hpp and diagnostics.hpp, and Get of async_helper.hpp.
use cpp_client_sdk.Async.{AsyncHelper}
use cpp_client_sdk.Diagnostics.{Diagnostics, new_diagnostics}
use cpp_client_sdk.Dict.{Dict, IsDict, find-erase}
use cpp_client_sdk.ErrorBoundary.{ErrorBoundary, new_boundary}
use cpp_client_sdk.JsonLib.{JsonLib}
use cpp_client_sdk.Prelude.{String, ◌≡◌, arith}
use cpp_client_sdk.Shareable.{get_shared, remove_shared, get_instance, shutdown_instance}
use cpp_client_sdk.Text.{eq_iff}
use cpp_client_sdk.ThreadPool.{new_pool}

pub get_error_boundary : String → Dict ErrorBoundary → ErrorBoundary × Dict ErrorBoundary
unfolding get_instance
get_error_boundary sdk_key = get_instance sdk_key (new_boundary sdk_key)

pub shutdown_error_boundary : String → Dict ErrorBoundary → Dict ErrorBoundary
unfolding shutdown_instance
shutdown_error_boundary = shutdown_instance

module _ ⦃J : JsonLib⦄ where
  pub get_diagnostics : String → Dict Diagnostics → Diagnostics × Dict Diagnostics
  unfolding get_instance
  get_diagnostics sdk_key = get_instance sdk_key new_diagnostics

  pub shutdown_diagnostics : String → Dict Diagnostics → Dict Diagnostics
  unfolding shutdown_instance
  shutdown_diagnostics = shutdown_instance

pub get_async_helper {ℓ} :
    {A : Type ℓ} → String → Dict (AsyncHelper A) → AsyncHelper A × Dict (AsyncHelper A)
unfolding get_instance
get_async_helper sdk_key = get_instance sdk_key new_pool

-- Once an error boundary is shut down, the next one for the key has seen nothing, so that an error of
-- the last session is reported again.
get_error_boundary-shutdown :
    (sdk_key : String) (instances : Dict ErrorBoundary)
    → IsDict instances
    → (get_error_boundary sdk_key (shutdown_error_boundary sdk_key instances)).0
      ≡ new_boundary sdk_key
unfolding get_error_boundary shutdown_error_boundary get_instance shutdown_instance get_shared
    remove_shared
get_error_boundary-shutdown sdk_key instances d =
    ground (arith, find-erase sdk_key sdk_key instances d, eq_iff sdk_key sdk_key)
