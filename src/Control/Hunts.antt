-- ===== src/Control/Hunts.antt =====
-- Saved hunts and their runs (api/store.py, create_hunt to list_hunt_runs; api/app.py,
-- create_saved_hunt).
pub mod Searchable
use shigure_edr.Base.{
  ℕ, String, Bool, true, false, not, ◌&&◌, ◌||◌, Option, none, some, List, [], ◌∷◌, ◌==◌,
  if◌then◌else◌, is_text, or_default, coalesce,
}
use shigure_edr.Base.{Result, ok, err, value_error, http_exception, ◌>>=◌, ◌>>◌, guard}
use shigure_edr.Base.Int.{ℤ}
use shigure_edr.Base.Table.{select, fetchone, update, insert, has_key}
use shigure_edr.Base.Sort.{descending, limit, sort_by}
use shigure_edr.Base.Dict.{Dict}
use shigure_edr.Json.{Json}
use shigure_edr.Control.Schema.{Time, Hunt, HuntRun, Store}
use shigure_edr.Control.Cases.{row_read}

abbrev pub hunt_key : Hunt → String
hunt_key h = h.hunt_id

abbrev run_key : HuntRun → String
run_key r = r.run_id

abbrev pub is_hunt : String → String → Hunt → Bool
is_hunt tenant_id hunt_id h = h.tenant_id == tenant_id && h.hunt_id == hunt_id

abbrev is_nonempty : Dict Json → Bool
is_nonempty [] = false
is_nonempty (e ∷ d) = true

-- `indicator or query`
abbrev pub has_search : Option String → Dict Json → Bool
has_search indicator query = is_text indicator || is_nonempty query

-- api/hunts.py, HuntCreateRequest.
pub record HuntCreateRequest : Type 0 where
  pub tenant_id : String
  pub name : String
  pub description : Option String
  pub indicator : Option String
  pub query : Dict Json
  pub enabled : Bool

abbrev pub new_hunt : Time → String → HuntCreateRequest → Hunt
new_hunt now hunt_id req = record {
  hunt_id = hunt_id;
  tenant_id = req.tenant_id;
  name = req.name;
  description = req.description;
  indicator = req.indicator;
  query = req.query;
  enabled = req.enabled;
  created_at = now;
  updated_at = now;
}

unfoldable pub create_hunt : Time → String → HuntCreateRequest → Store → Result (Hunt × Store)
create_hunt now hunt_id req s = do
  hunts ← insert hunt_key (new_hunt now hunt_id req) s.hunts
  row ← row_read (fetchone (has_key hunt_key hunt_id) hunts)
  ok (row, record s { hunts = hunts })

-- The route.
unfoldable pub create_saved_hunt : Time → String → HuntCreateRequest → Store → Result (Hunt × Store)
unfolding create_hunt
create_saved_hunt now hunt_id req s = do
  guard (has_search req.indicator req.query) (http_exception 400 "indicator_or_query_required")
  create_hunt now hunt_id req s

unfoldable pub get_hunt : String → String → Store → Option Hunt
get_hunt tenant_id hunt_id s = fetchone (is_hunt tenant_id hunt_id) s.hunts

-- api/hunts.py, HuntUpdateRequest.
pub record HuntUpdateRequest : Type 0 where
  pub name : Option String
  pub description : Option String
  pub indicator : Option String
  pub query : Option (Dict Json)
  pub enabled : Option Bool

abbrev pub rewrite : Time → HuntUpdateRequest → Option String → Dict Json → Hunt → Hunt
rewrite now req next_indicator next_query h = record h {
  name = or_default req.name h.name;
  description = coalesce req.description h.description;
  indicator = next_indicator;
  query = next_query;
  enabled = or_default req.enabled h.enabled;
  updated_at = now;
}

abbrev pub rewritten :
    Time → String → String → HuntUpdateRequest → Store → Option Hunt → Result (Option Hunt × Store)
rewritten now tenant_id hunt_id req s none = ok (none, s)
rewritten now tenant_id hunt_id req s (some current) = do
  let next_indicator = coalesce req.indicator current.indicator
  let next_query = or_default req.query current.query
  guard (has_search next_indicator next_query) (value_error "indicator_or_query_required")
  let hunts = update (is_hunt tenant_id hunt_id) (rewrite now req next_indicator next_query) s.hunts
  ok (fetchone (is_hunt tenant_id hunt_id) hunts, record s { hunts = hunts })

unfoldable pub update_hunt :
    Time → String → String → HuntUpdateRequest → Store → Result (Option Hunt × Store)
unfolding get_hunt
update_hunt now tenant_id hunt_id req s =
    rewritten now tenant_id hunt_id req s (get_hunt tenant_id hunt_id s)

abbrev is_listed : String → Option Bool → Hunt → Bool
is_listed tenant_id none h = h.tenant_id == tenant_id
is_listed tenant_id (some enabled) h =
    h.tenant_id == tenant_id && (if enabled then h.enabled else not h.enabled)

unfoldable pub list_hunts : String → Option Bool → ℤ → Store → List Hunt
unfolding select sort_by
list_hunts tenant_id enabled n s =
    limit n (descending (λ (h : Hunt). h.updated_at) (select (is_listed tenant_id enabled) s.hunts))

unfoldable pub record_hunt_run :
    Time → String → String → String → String → Dict Json → Store → Result (HuntRun × Store)
record_hunt_run now run_id tenant_id hunt_id status result s = do
  runs ←
      insert run_key
        (record {
          run_id = run_id;
          hunt_id = hunt_id;
          tenant_id = tenant_id;
          status = status;
          result = result;
          created_at = now;
        })
        s.hunt_runs
  row ← row_read (fetchone (has_key run_key run_id) runs)
  ok (row, record s { hunt_runs = runs })

abbrev is_run_of : String → Option String → HuntRun → Bool
is_run_of tenant_id hunt_id r =
    r.tenant_id == tenant_id
    && (if is_text hunt_id then r.hunt_id == or_default hunt_id "" else true)

unfoldable pub list_hunt_runs : String → Option String → ℤ → Store → List HuntRun
unfolding select sort_by
list_hunt_runs tenant_id hunt_id n s =
    limit n (
      descending (λ (r : HuntRun). r.created_at) (select (is_run_of tenant_id hunt_id) s.hunt_runs))
