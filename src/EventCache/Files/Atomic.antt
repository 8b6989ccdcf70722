-- ===== src/EventCache/Files/Atomic.antt =====
-- A save is atomic.
use Prim.Native.String.{String}
use vendor.Base.{
  ◌≡◌, refl, ◌⊎◌, inl, inr, List, [], ◌∷◌, Option, none, some, Bool, true, false, if◌then◌else◌,
  All, map_option, ok, is_ok, Option-cases, Result-cases,
}
use vendor.EventCache.{EventCache}
use vendor.EventCache.Files.{
  File, written_file, Files, Json, Faults, Saved, load, rename_step, sync_step, write_step,
  create_step, save,
}

-- The state of the files after the last step; `f` where there was none.
abbrev pub last_state : Files → List Files → Files
last_state f [] = f
last_state f (g ∷ states) = last_state g states

module _ (json : Json) (cache_path : String) (cache : EventCache) (before : Option File) where
  -- The file of the cache is there, on the disk as a whole, and loads as the cache.
  abbrev pub IsNew : Files → Type 0
  IsNew f =
      (map_option (λ file. file.is_synced) f.cache_file ≡ some true)
      × (load json cache_path none f ≡ ok cache)

  -- The file of the cache is as before, or the new one.
  abbrev pub IsOldOrNew : Files → Type 0
  IsOldOrNew f = (f.cache_file ≡ before) ⊎ IsNew f

  -- Both or neither: after success the file is the new one, after an error it is as before.
  abbrev pub IsDone : Files → Bool → Type 0
  IsDone f true = IsNew f
  IsDone f false = f.cache_file ≡ before

  abbrev pub IsAtomic : Files → Saved → Type 0
  IsAtomic f (result, states) = All IsOldOrNew states × IsDone (last_state f states) (is_ok result)

  module _ (text : String) (faults : Faults) (back : json.from_json text ≡ ok cache) where
    -- From where the temporary file holds the text, on the disk.
    rename_step-IsAtomic :
        (cache_file : Option File)
        → cache_file ≡ before
        → let f : Files = record {
          cache_file = cache_file;
          temp_file = some (record { contents = text; is_synced = true });
        } in
          IsAtomic f (rename_step json cache_path faults f)
    unfolding rename_step load
    rename_step-IsAtomic cache_file h = elim (Option-cases faults.rename) [
      | inr (reason, e) ↦ rw (e, rename_step) (tt, h)
      | inl e ↦
          let renamed : Files = record {
            cache_file = some (record { contents = text; is_synced = true });
            temp_file = none;
          } in
          let loads : load json cache_path none renamed ≡ ok cache = rw (back, load) in
          rw (e, rename_step) ((inr (refl, loads), tt), (refl, loads))
    ]

    -- From where the temporary file holds the text.
    sync_step-IsAtomic :
        (cache_file : Option File)
        → cache_file ≡ before
        → let f : Files = record {
          cache_file = cache_file;
          temp_file = some (written_file text);
        } in
          IsAtomic f (sync_step json cache_path faults f)
    unfolding sync_step
    sync_step-IsAtomic cache_file h = elim (Option-cases faults.sync_all) [
      | inr (reason, e) ↦ rw (e, sync_step) (tt, h)
      | inl e ↦
          let rest = rename_step-IsAtomic cache_file h in
          rw (e, sync_step) ((inl h, rest.0), rest.1)
    ]

    write_step-IsAtomic :
        (f : Files) → f.cache_file ≡ before → IsAtomic f (write_step json cache_path faults text f)
    unfolding write_step
    write_step-IsAtomic f h = elim (Option-cases faults.write_all) [
      | inr (part, e) ↦ rw (e, write_step) ((inl h, tt), h)
      | inl e ↦
          let rest = sync_step-IsAtomic f.cache_file h in
          rw (e, write_step) ((inl h, rest.0), rest.1)
    ]

    create_step-IsAtomic :
        (f : Files) → f.cache_file ≡ before → IsAtomic f (create_step json cache_path faults text f)
    unfolding create_step
    create_step-IsAtomic f h = elim (Option-cases faults.create) [
      | inr (reason, e) ↦ rw (e, create_step) (tt, h)
      | inl e ↦
          let rest = write_step-IsAtomic (record f { temp_file = some (written_file "") }) h in
          rw (e, create_step) ((inl h, rest.0), rest.1)
    ]

-- Where the JSON library reads back what it writes of the cache, a save is atomic whatever fails:
-- after each of its steps the file of the cache is as it was, or all of it is on the disk and it
-- loads as the new cache, so a stop in between loses nothing. After a save that succeeds it is the
-- new one, and after one that fails it is as it was.
pub save-IsAtomic :
    (json : Json) (cache_path : String) (cache : EventCache) (has_no_parent : Bool)
    (faults : Faults) (f : Files)
    → ((text : String) → json.to_json cache ≡ ok text → json.from_json text ≡ ok cache)
    → IsAtomic json cache_path cache f.cache_file f
        (save json cache_path has_no_parent faults cache f)
unfolding save
save-IsAtomic json cache_path cache has_no_parent faults f back =
    elim (Option-cases (if has_no_parent then faults.create_dir_all else none)) [
      | inr (reason, e) ↦ rw (e, save) (tt, refl)
      | inl e ↦ elim (Result-cases (json.to_json cache)) [
        | inr (reason, failed) ↦ rw (e, save, failed) (tt, refl)
        | inl (text, written) ↦
            rw (e, save, written)
              (create_step-IsAtomic json cache_path cache f.cache_file text faults
                (back text written) f refl)
      ]
    ]
