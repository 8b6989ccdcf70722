-- ===== src/EventCache/Files.antt =====
-- `EventCacheManager` of libs/common/src/event_cache/manager.rs: the file of the cache, and the
-- temporary one beside it. What fails is a parameter of each call, and so is the JSON library.
pub mod Atomic
mod Tests
use Prim.Native.String.{String, ◌++◌ as str_append}
use vendor.Base.{
  List, [], ◌∷◌, Option, none, some, Bool, true, false, if◌then◌else◌, map_option, Result, ok, err,
}
use vendor.EventCache.{EventCache, new_cache}

pub data CacheError : Type 0 where
  read_error : (path reason : String) → CacheError
  write_error : (path reason : String) → CacheError
  parse_failed : (reason : String) → CacheError
  serialize_error : (reason : String) → CacheError
  temp_file_error : (reason : String) → CacheError
  rename_error : (source target reason : String) → CacheError

-- A file: its contents, and whether all of them are known to be on the disk.
pub record File : Type 0 where
  pub contents : String
  pub is_synced : Bool

-- The two files, where they are there.
pub record Files : Type 0 where
  pub cache_file : Option File
  pub temp_file : Option File

pub record Json : Type 0 where
  pub to_json : EventCache → Result String String
  pub from_json : String → Result EventCache String

-- The operations of the file system that fail, with their reasons. A write that fails leaves some
-- part of the text.
pub record Faults : Type 0 where
  pub create_dir_all : Option String
  pub create : Option String
  pub write_all : Option (String × String)
  pub sync_all : Option String
  pub rename : Option String

-- A file that has just been written to.
abbrev pub written_file : String → File
written_file contents = record { contents = contents; is_synced = false }

-- A call with the states of the files after each of its steps, the first one first.
abbrev pub Saved : Type 0
Saved = Result (Unit {0}) CacheError × List Files

abbrev pub after_step : Files → Saved → Saved
after_step f (result, states) = (result, f ∷ states)

module _ (json : Json) (cache_path : String) where
  -- `read_fails` is the reason for which the file cannot be read.
  unfoldable pub load : (read_fails : Option String) → Files → Result EventCache CacheError
  unfolding new_cache
  load read_fails f = elim f.cache_file [
    | none ↦ ok new_cache
    | some file ↦ elim read_fails [
      | some reason ↦ err (read_error cache_path reason)
      | none ↦ elim (json.from_json file.contents) [
        | err reason ↦ err (parse_failed reason)
        | ok cache ↦ ok cache
      ]
    ]
  ]

  -- An empty cache on any error.
  unfoldable pub load_or_default : (read_fails : Option String) → Files → EventCache
  unfolding load new_cache
  load_or_default read_fails f = elim (load read_fails f) [ ok cache ↦ cache | err e ↦ new_cache ]

  abbrev pub temp_path : String
  temp_path = str_append cache_path ".tmp"

  -- The steps of `save` from the last one to the first.
  -- `fs::rename` gives the temporary file, which has been created, the name of the cache file,
  -- whatever is in it.
  unfoldable pub rename_step : Faults → Files → Saved
  rename_step faults f = elim faults.rename [
    | some reason ↦ (err (rename_error temp_path cache_path reason), [])
    | none ↦ (ok tt, record { cache_file = f.temp_file; temp_file = none } ∷ [])
  ]

  unfoldable pub sync_step : Faults → Files → Saved
  unfolding rename_step
  sync_step faults f = elim faults.sync_all [
    | some reason ↦ (err (write_error temp_path (str_append "Failed to sync file: " reason)), [])
    | none ↦
        let synced : Files = record f {
          temp_file = map_option {A = File} (λ file. record file { is_synced = true }) f.temp_file;
        } in
        after_step synced (rename_step faults synced)
  ]

  unfoldable pub write_step : Faults → String → Files → Saved
  unfolding sync_step
  write_step faults text f = elim faults.write_all [
    | some (part, reason) ↦
        (err (write_error temp_path reason), record f { temp_file = some (written_file part) } ∷ [])
    | none ↦
        let written : Files = record f { temp_file = some (written_file text) } in
        after_step written (sync_step faults written)
  ]

  unfoldable pub create_step : Faults → String → Files → Saved
  unfolding write_step
  create_step faults text f = elim faults.create [
    | some reason ↦ (err (temp_file_error reason), [])
    | none ↦
        let created : Files = record f { temp_file = some (written_file "") } in
        after_step created (write_step faults text created)
  ]

  -- `has_no_parent` says that the directory is not there yet.
  unfoldable pub save : (has_no_parent : Bool) → Faults → EventCache → Files → Saved
  unfolding create_step
  save has_no_parent faults cache f = elim (if has_no_parent then faults.create_dir_all else none) [
    | some reason ↦ (
      err (write_error cache_path (str_append "Failed to create parent directories: " reason)),
      [],
    )
    | none ↦ elim (json.to_json cache) [
      | err reason ↦ (err (serialize_error reason), [])
      | ok text ↦ create_step faults text f
    ]
  ]
