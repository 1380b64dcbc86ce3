-- ===== src/Tests/Unprintable.antt =====
-- An update of a user whose texts the JSON library cannot print.
use cpp_client_sdk.Client.{StatsigContext}
use cpp_client_sdk.Client.Session.{new_context}
use cpp_client_sdk.JsonLib.{JsonLib}
use cpp_client_sdk.Prelude.{true, none, some, []}
use cpp_client_sdk.Tests.Toy.{toy_json, sample_user}

-- A library that can print nothing stands for a user whose texts are not UTF-8.
abbrev mute_json : JsonLib
mute_json = record toy_json { dump = λ j. none }

abbrev mute_context : StatsigContext ⦃J = mute_json⦄
mute_context =
    new_context ⦃J = mute_json⦄ (record { is_created = true; files = [] }) "client-key"
      (some sample_user) none
