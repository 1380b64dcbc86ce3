-- ===== src/Files.antt =====
-- src/statsig/internal/file.hpp and src/statsig_compat/filesystem/file_helper.hpp: the cache
-- directory. A path is the name of its file in the directory; `none` is a filesystem exception.
pub mod Eviction
pub mod Writes
use cpp_client_sdk.Dict.{Dict, find, assign, erase}
use cpp_client_sdk.JsonLib.{◌>>=◌}
use cpp_client_sdk.Prelude.{
  ℕ, zero, suc, String, Bool, true, ◌&&◌, ◌||◌, Option, none, some, List, [], ◌∷◌, map, ltb, leb,
  if◌then◌else◌, value_or, length, pop_back, ℤ, ltb_ℤ,
}
use cpp_client_sdk.Text.{str_eq}
use cpp_client_sdk.User.{StatsigOptions}
use text.Mathlib.Text.{starts_with}

-- constants::kMaxCachedEvaluationsCount.
abbrev pub max_cached_evaluations_count : ℕ
max_cached_evaluations_count = 10

pub record CacheFile : Type 0 where
  pub content : String
  pub last_write_time : ℤ
  pub is_regular_file : Bool

pub record CacheDirectory : Type 0 where
  pub is_created : Bool
  pub files : Dict CacheFile

-- options.cache_directory.value_or(kCacheDirectory).
pub get_cache_dir : StatsigOptions → String
get_cache_dir options = value_or options.cache_directory "/tmp/statsig_cpp_client"

-- EnsureCacheDirectoryExists where create_directories does not throw.
unfoldable pub ensure_cache_directory_exists : CacheDirectory → CacheDirectory
ensure_cache_directory_exists d = if d.is_created then d else record d { is_created = true }

-- ReadStringToFile, after the directory is ensured.
unfoldable pub read_from_cache : CacheDirectory → String → CacheDirectory × Option String
unfolding ensure_cache_directory_exists find
read_from_cache d key =
    let d' = ensure_cache_directory_exists d in (d', (find key d'.files >>= λ f. some f.content))

unfoldable pub delete_file : CacheDirectory → String → CacheDirectory
unfolding erase
delete_file d path = record d { files = erase path d.files }

unfoldable pub delete_from_cache : CacheDirectory → String → CacheDirectory
unfolding ensure_cache_directory_exists delete_file
delete_from_cache d key = delete_file (ensure_cache_directory_exists d) key

-- The background task of WriteStringToFile, which always reports success; a file in a directory that
-- is not there is not written.
unfoldable pub write_string_to_file : ℤ → String → String → CacheDirectory → CacheDirectory × Bool
unfolding assign
write_string_to_file now content path d =
    let file : CacheFile = record {
      content = content;
      last_write_time = now;
      is_regular_file = true;
    } in
    ((if d.is_created then record d { files = assign path file d.files } else d), true)

-- The write that a call of WriteToCache has due, if there is one.
unfoldable pub do_write : ℤ → Option (String × String) → CacheDirectory → CacheDirectory
unfolding write_string_to_file
do_write now none d = d
do_write now (some (path, content)) d = (write_string_to_file now content path d).0

-- `name.find(prefix) != npos`.
pub contains_text : String → String → Bool
contains_text String.[] prefix = str_eq prefix ""
contains_text (String.◌∷◌ c s) prefix =
    starts_with (String.◌∷◌ c s) prefix || contains_text s prefix

pub cache_paths : String → Dict CacheFile → Dict ℤ
unfolding contains_text
cache_paths prefix [] = []
cache_paths prefix ((name, f) ∷ fs) =
    let rest = cache_paths prefix fs in
    if f.is_regular_file && contains_text name prefix
    then (name, f.last_write_time) ∷ rest
    else rest

-- std::sort by the later write time; paths of one time stay in directory order.
insert_younger : String → ℤ → Dict ℤ → Dict ℤ
insert_younger p t [] = (p, t) ∷ []
insert_younger p t ((q, u) ∷ ps) =
    if ltb_ℤ t u then (q, u) ∷ insert_younger p t ps else (p, t) ∷ (q, u) ∷ ps

pub sort_youngest_first : Dict ℤ → Dict ℤ
unfolding insert_younger
sort_youngest_first [] = []
sort_youngest_first ((p, t) ∷ ps) = insert_younger p t (sort_youngest_first ps)

pub get_cache_paths_sorted_youngest_first : CacheDirectory → String → Option (List String)
unfolding cache_paths sort_youngest_first
get_cache_paths_sorted_youngest_first d prefix =
    if d.is_created
    then some (map (λ e. e.0) (sort_youngest_first (cache_paths prefix d.files)))
    else none

-- paths.back().
back : List String → String
back [] = ""
back (p ∷ []) = p
back (p ∷ q ∷ ps) = back (q ∷ ps)

-- while (paths.size() >= max) { delete paths.back(); paths.pop_back(); }
evict : ℕ → List String → CacheDirectory → CacheDirectory
unfolding back
evict zero paths d = d
evict (suc fuel) paths d =
    let rest = evict fuel (pop_back paths) (delete_file d (back paths)) in
    if leb max_cached_evaluations_count (length paths) then rest else d

-- Each round removes a path, so as many rounds as there are paths are enough.
unfoldable pub run_cache_eviction : CacheDirectory → String → Option CacheDirectory
unfolding evict
run_cache_eviction d prefix = get_cache_paths_sorted_youngest_first d prefix >>= λ paths.
    if ltb (length paths) max_cached_evaluations_count
    then some d
    else some (evict (length paths) paths d)
