-- ===== src/EventCache/Files/Tests.antt =====
-- A JSON library that reads one cache back, and a save that stops half-way.
use Prim.Native.String.{String}
use vendor.Base.{◌≡◌, refl, subst, [], ◌∷◌, none, some, false, true, if◌then◌else◌, ok, err}
use vendor.Base.Map.{string_eq, ◌==◌}
use vendor.EventCache.{EventCache, new_cache}
use vendor.EventCache.Files.{
  File, written_file, Files, Json, Faults, write_error, load_or_default, load, save,
}
use vendor.EventCache.Files.Atomic.{IsAtomic, save-IsAtomic}

abbrev cached : EventCache
cached = record {
  indices = [];
  pairs = [];
  last_synced_block_indices = 7;
  last_synced_block_pairs = 8;
}

abbrev json : Json
json = record {
  to_json = λ c. ok "seven";
  from_json = λ text. if text == "seven" then ok cached else err "no JSON";
}

abbrev disk_full : Faults
disk_full = record {
  create_dir_all = none;
  create = none;
  write_all = some ("se", "disk full");
  sync_all = none;
  rename = none;
}

abbrev no_fault : Faults
no_fault = record disk_full { write_all = none }

abbrev six : File
six = record { contents = "six"; is_synced = true }

abbrev old : Files
old = record { cache_file = some six; temp_file = none }

half_way : save json "c" false disk_full cached old ≡ (
  err (write_error "c.tmp" "disk full"),
  record old { temp_file = some (written_file "") }
      ∷ record old { temp_file = some (written_file "se") }
      ∷ [],
)
unfolding save
half_way = refl

saved : (save json "c" true no_fault cached old).0 ≡ ok tt
unfolding save
saved = refl

defaults :
    (load_or_default json "c" none old ≡ new_cache)
    × (load_or_default json "c" none (record old { cache_file = some (written_file "seven") })
        ≡ cached)
    × (load json "c" none (record old { cache_file = none }) ≡ ok new_cache)
unfolding load_or_default load
defaults = (refl, refl, refl)

read_back : (text : String) → json.to_json cached ≡ ok text → json.from_json text ≡ ok cached
read_back text e =
    let is_seven : "seven" ≡ text = cc e in subst (λ t. json.from_json t ≡ ok cached) is_seven refl

save-IsAtomic_example :
    IsAtomic json "c" cached (some six) old (save json "c" false disk_full cached old)
save-IsAtomic_example = save-IsAtomic json "c" cached false disk_full old read_back
