-- ===== src/Files/Writes.antt =====
-- What is read back from the cache directory.
use cpp_client_sdk.Dict.{find-assign}
use cpp_client_sdk.Files.{
  CacheFile, CacheDirectory, ensure_cache_directory_exists, read_from_cache, write_string_to_file,
  do_write,
}
use cpp_client_sdk.Prelude.{String, ◌≡◌, true, some, arith, ℤ}
use cpp_client_sdk.Text.{eq_iff}

-- The directory after a read is there, and reads the same.
pub read_from_cache_again :
    (d : CacheDirectory) (key : String)
    → ((read_from_cache d key).0.is_created ≡ true)
      × ((read_from_cache (read_from_cache d key).0 key).1 ≡ (read_from_cache d key).1)
unfolding read_from_cache ensure_cache_directory_exists
read_from_cache_again d key = ground arith

-- In a directory that is there a file that is written reads as it was written.
pub do_write-read :
    (now : ℤ) (d : CacheDirectory) (key content : String)
    → d.is_created ≡ true
    → (read_from_cache (do_write now (some (key, content)) d) key).1 ≡ some content
unfolding do_write read_from_cache ensure_cache_directory_exists write_string_to_file
do_write-read now d key content there =
    let file : CacheFile = record {
      content = content;
      last_write_time = now;
      is_regular_file = true;
    } in
    ground (arith, there, eq_iff key key, find-assign key key file d.files)

-- A write leaves the directory there.
pub do_write_created :
    (now : ℤ) (w : String × String) (d : CacheDirectory)
    → d.is_created ≡ true
    → (do_write now (some w) d).is_created ≡ true
unfolding do_write write_string_to_file
do_write_created now (key, content) d there = ground (arith, there)
