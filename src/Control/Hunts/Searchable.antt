-- ===== src/Control/Hunts/Searchable.antt =====
-- That every saved hunt has something to search for (api/app.py, create_saved_hunt; api/store.py,
-- update_hunt).
use mathlib.Core.Path.{subst}
use shigure_edr.Base.{
  String, ◌≡◌, sym, ap, true, Option, none, some, [], ◌∷◌, ok, All, >>=-eq-ok, >>-eq-ok,
  guard-eq-ok, ok_injective,
}
use shigure_edr.Base.Table.{fetchone, insert, has_key, All-append, All-update}
use shigure_edr.Base.Keys.{insert-eq-ok}
use shigure_edr.Control.Schema.{Time, Hunt, Store}
use shigure_edr.Control.Cases.{row_read}
use shigure_edr.Control.Hunts.{
  hunt_key, is_hunt, has_search, HuntCreateRequest, new_hunt, create_hunt, create_saved_hunt,
  get_hunt, HuntUpdateRequest, rewritten, update_hunt,
}

abbrev pub IsSearchable : Hunt → Type 0
IsSearchable h = has_search h.indicator h.query ≡ true

-- What the routes do with hunts.
pub data HuntStep (s : Store) : Store → Type 0 where
  created :
      {s' : Store} (now : Time) (hunt_id : String) (req : HuntCreateRequest) (h : Hunt)
      → create_saved_hunt now hunt_id req s ≡ ok (h, s')
      → HuntStep s s'
  changed :
      {s' : Store} (now : Time) (tenant_id hunt_id : String) (req : HuntUpdateRequest)
      (o : Option Hunt)
      → update_hunt now tenant_id hunt_id req s ≡ ok (o, s')
      → HuntStep s s'

pub data HuntRuns (s : Store) : Store → Type 0 where
  start : HuntRuns s s
  next : {t u : Store} → HuntRuns s t → HuntStep t u → HuntRuns s u

abbrev pub AreSearchable : Store → Type 0
AreSearchable s = All IsSearchable s.hunts

module _ (s s' : Store) where
  created_lem :
      (now : Time) (hunt_id : String) (req : HuntCreateRequest) (h : Hunt)
      → create_saved_hunt now hunt_id req s ≡ ok (h, s')
      → AreSearchable s
      → AreSearchable s'
  unfolding create_saved_hunt create_hunt
  created_lem now hunt_id req h given g =
      let made = new_hunt now hunt_id req in
      let (search, h1) = >>-eq-ok _ _ given in
      let (hunts, put, h2) = >>=-eq-ok (insert hunt_key made s.hunts) _ h1 in
      let (row, read, h3) = >>=-eq-ok (row_read (fetchone (has_key hunt_key hunt_id) hunts)) _ h2 in
      subst AreSearchable (ap (λ (x : Hunt × Store). x.1) (ok_injective h3)) (
        subst (All IsSearchable) (sym (insert-eq-ok hunt_key made s.hunts hunts put).1)
          (All-append IsSearchable s.hunts (made ∷ []) g (guard-eq-ok _ _ search, tt)))

  rewritten_lem :
      (now : Time) (tenant_id hunt_id : String) (req : HuntUpdateRequest) (current o : Option Hunt)
      → rewritten now tenant_id hunt_id req s current ≡ ok (o, s')
      → AreSearchable s
      → AreSearchable s'
  rewritten_lem now tenant_id hunt_id req none o given g =
      subst AreSearchable (ap (λ (x : Option Hunt × Store). x.1) (ok_injective given)) g
  rewritten_lem now tenant_id hunt_id req (some current) o given g =
      let (search, h1) = >>-eq-ok _ _ given in
      subst AreSearchable (ap (λ (x : Option Hunt × Store). x.1) (ok_injective h1)) (
        All-update IsSearchable (is_hunt tenant_id hunt_id) _ s.hunts g
          (λ h e old. guard-eq-ok _ _ search))

HuntStep-AreSearchable : {s s' : Store} → HuntStep s s' → AreSearchable s → AreSearchable s'
unfolding update_hunt
HuntStep-AreSearchable {s} (created {s' = s'} now hunt_id req h given) g =
    created_lem s s' now hunt_id req h given g
HuntStep-AreSearchable {s} (changed {s' = s'} now tenant_id hunt_id req o given) g =
    rewritten_lem s s' now tenant_id hunt_id req (get_hunt tenant_id hunt_id s) o given g

-- However hunts are created and changed by the routes, every saved hunt has an indicator or a query,
-- from a state in which this holds.
pub HuntRuns-AreSearchable : {s s' : Store} → HuntRuns s s' → AreSearchable s → AreSearchable s'
HuntRuns-AreSearchable start g = g
HuntRuns-AreSearchable (next run step) g =
    HuntStep-AreSearchable step (HuntRuns-AreSearchable run g)
