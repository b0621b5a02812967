-- ===== src/Tests/Hunts.antt =====
-- A hunt that is saved and then changed.
use shigure_edr.Base.{◌≡◌, refl, none, some, [], ◌∷◌, ok, true}
use shigure_edr.Base.Table.{fetchone, insert, update}
use shigure_edr.Control.Schema.{Hunt, Store}
use shigure_edr.Control.Hunts.{
  HuntCreateRequest, HuntUpdateRequest, new_hunt, rewrite, create_hunt, create_saved_hunt, get_hunt,
  update_hunt,
}
use shigure_edr.Control.Hunts.Searchable.{
  AreSearchable, start, next, created, changed, HuntRuns-AreSearchable,
}
use shigure_edr.Tests.Data.{two_agents}

abbrev request : HuntCreateRequest
request = record {
  tenant_id = "default";
  name = "Known address";
  description = none;
  indicator = some "203.0.113.10";
  query = [];
  enabled = true;
}

abbrev saved : Hunt
saved = new_hunt 10 "hunt-1" request

abbrev saved_store : Store
saved_store = record two_agents { hunts = saved ∷ [] }

saved_once : create_saved_hunt 10 "hunt-1" request two_agents ≡ ok (saved, saved_store)
unfolding create_saved_hunt create_hunt fetchone insert
saved_once = refl

abbrev renaming : HuntUpdateRequest
renaming = record {
  name = some "Test address";
  description = none;
  indicator = none;
  query = none;
  enabled = none;
}

abbrev renamed : Hunt
renamed = rewrite 20 renaming (some "203.0.113.10") [] saved

abbrev renamed_store : Store
renamed_store = record two_agents { hunts = renamed ∷ [] }

renamed_once :
    update_hunt 20 "default" "hunt-1" renaming saved_store ≡ ok (some renamed, renamed_store)
unfolding update_hunt get_hunt fetchone update
renamed_once = refl

HuntRuns-AreSearchable_example : AreSearchable renamed_store
HuntRuns-AreSearchable_example =
    HuntRuns-AreSearchable
      (next (next start (created 10 "hunt-1" request saved saved_once))
        (changed 20 "default" "hunt-1" renaming (some renamed) renamed_once))
      tt
