-- ===== src/Lib.antt =====
-- Models of the Statsig C++ client SDK and theorems on them. The SDK evaluates feature gates, dynamic
-- configs and layers from values that a server computes for a user, caches these values in memory and
-- on disk, and logs exposures and events back.
--
-- Text, Dict, Hashing: std::string as bytes, std::unordered_map as an association list in its
--   iteration order, and src/statsig/internal/hashing.hpp and unordered_map_util.hpp.
-- JsonLib, Json: nlohmann::json as a parameter, whose dump() may throw, as it does for texts that are
--   not UTF-8; src/statsig_compat/json_serialization/; and src/statsig/internal/json_parser.hpp, the
--   template that picks one of its serializers.
-- Result, User, Evaluation, Details: src/statsig/statsig_result.h, statsig_user.h,
--   statsig_user_internal.hpp, initialize_response.hpp, evaluation_details_internal.hpp.
-- Store: src/statsig/internal/evaluation_store.hpp, the values in use; the client resets it when the user
--   changes, sets it from what the adapter answers, finalizes it, and looks evaluations up in it.
-- Adapter, Files: src/statsig/internal/statsig_evaluations_data_adapter.hpp, file.hpp and
--   src/statsig_compat/filesystem/file_helper.hpp; the adapter answers from memory, then from a file, and
--   fetches from the network.
-- Http, Network: src/statsig/internal/network_service.hpp and src/statsig_compat/network/network_client.hpp,
--   the retries of a post, the request for values and the post of events.
-- Event, EventLogger, Diagnostics: src/statsig/internal/statsig_event_internal.hpp, event_logger.hpp,
--   diagnostics.hpp and diagnostic_markers.hpp; the logger's queue takes in the diagnostics when it is
--   flushed, and its batches go to the network service and, where they fail, to a file. Saves that
--   overlap are sequences of reads and then writes of that file (EventLogger/Saves); the tasks that the
--   constructor starts, with the ownership of the logger, are in EventLogger/Background.
-- ThreadPool, Async: src/statsig_compat/async/async_helper.hpp, the pool that runs the background tasks, turn
--   by turn and in any interleaving, and its timers.
-- TaskRunner: src/statsig/internal/task_runner.hpp, an older pool that nothing uses.
-- Shareable, Instances, StableId: src/statsig/internal/shareable.hpp, the registry of objects that share an
--   SDK key, whose Get is two calls under a lock each, and stable_id.hpp and uuid.hpp.
-- ErrorBoundary: src/statsig/internal/error_boundary.hpp, which reports an error once.
-- Client: src/statsig/internal/statsig_client.cpp and statsig_context.hpp, which hold the parts above and
--   are what a program calls: initialization, changes of user, evaluations, events, flush and shutdown.
--   Client/Tasks runs the background task of an update, from the fetch to the caller's callback, on a
--   context that may be lost on the way; Client/Races takes the end of an update apart;
--   Client/Torn starts a client after a write that was cut short.
-- Tests: examples on concrete data, with a small JSON library.
--
-- A function of a model has the name of the function of the code in lower case. An exception and a
-- callback that is never called are `none`; a method that changes its object returns the new object.
-- Arguments stand for what the code takes from outside: the clock, the answers of the server, the
-- iteration order of a map that is built and walked (MapOrder), the JSON library (JsonLib), the stack
-- trace. Work that is handed to the background is returned as data.
--
-- post_with_retry runs on fuel, the number of attempts allowed plus one, which is enough since each
-- attempt raises the count that is compared with the maximum. The eviction of files runs on as much
-- fuel as there are files, since each round removes one. The print of a number takes 20 digits, which
-- hold any 64-bit number.
--
-- The loop of a background timer runs on fuel: one round more than the readings of its flag that
-- find it down, since each round reads the flag. The polls of a shutdown run on one more than the
-- timeout has milliseconds, since each poll takes one.
--
-- Not modelled: the loss of the network service or of the adapter while one of their calls runs, which
-- the tasks that call them hold; reads and writes of one field by two threads at once, which have
-- no meaning in C++; and an exception of create_directories. Of what ends in Capture of FetchValues only
-- that the caller is not called back is kept, not its report. Logging to the console and platform
-- callbacks have no model: they do not change what the parts compute.
pub mod Prelude
pub mod Text
pub mod ThreadPool
pub mod TaskRunner
pub mod StableId
pub mod Async
pub mod Shareable
pub mod Instances
pub mod Dict
pub mod Hashing
pub mod JsonLib
pub mod Result
pub mod Evaluation
pub mod User
pub mod Json
pub mod Details
pub mod Store
pub mod Event
pub mod Diagnostics
pub mod Http
pub mod ErrorBoundary
pub mod Network
pub mod Files
pub mod Adapter
pub mod EventLogger
pub mod Client
pub mod Tests
