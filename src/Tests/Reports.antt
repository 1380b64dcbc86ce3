-- ===== src/Tests/Reports.antt =====
-- Tests of the error boundary.
use cpp_client_sdk.Dict.{Dict}
use cpp_client_sdk.ErrorBoundary.{ErrorBoundary, new_boundary}
use cpp_client_sdk.Prelude.{String, Option, none, List, [], ◌∷◌}
use cpp_client_sdk.Result.{StatsigResultCode, unexpected_error, client_uninitialized}
use cpp_client_sdk.Tests.Toy.{toy_json}

abbrev sample_boundary : ErrorBoundary
sample_boundary = new_boundary "client-key"

abbrev sample_history : List (String × StatsigResultCode × Option (Dict String))
sample_history =
    ("a", unexpected_error, none)
    ∷ ("b", client_uninitialized, none)
    ∷ ("c", unexpected_error, none)
    ∷ []
