-- ===== src/Api/CaseRoutes/Workspaces.antt =====
-- A workspace that is started again for its alert (api/app.py, start_investigation_workspace).
use mathlib.Core.Option
use mathlib.Core.Option.{some-ne-none}
use shigure_edr.Base.{
  String, ◌<>◌, ◌≡◌, refl, sym, subst, ◌∙◌, ap, true, false, Option, none, some, List, arith, map,
  eq_refl, eq_iff, if◌then◌else◌, Option-cases, inl, inr, In, or_default, ok, >>=-eq-ok,
  ok_injective,
}
use shigure_edr.Base.Table.{
  update, insert, has_key, fetchone, In-fetchone, fetchone_test, fetchone_absent, update-In,
  map-update, In-append_last,
}
use shigure_edr.Base.Keys.{insert-eq-ok}
use shigure_edr.Base.Sort.{descending, sort_by-In, In-sort_by}
use shigure_edr.Events.{Time, Alert}
use shigure_edr.Evidence.{Codec}
use shigure_edr.Control.Schema.{Case, AlertRow, Store}
use shigure_edr.Control.Alerts.{get_alert, is_alert}
use shigure_edr.Control.Cases.{
  case_key, of_alert, is_case, CaseUpdate, edit, get_case, get_case_by_alert, update_case,
  create_case, new_case, asked_alert, link_alert, row_read,
}
use shigure_edr.Investigation.{Telemetry, Dumps}
use shigure_edr.Investigation.Packages.{Workspace, build_workspace_package}
use shigure_edr.Api.CaseRoutes.{
  WorkspaceStartRequest, CaseDraw, case_for_alert, investigating, start_workspace, or_404, text_or,
}

-- There is a case for the alert.
HasCase : String → String → Store → Type 0
HasCase tenant_id alert_id s = (c : Case) × In c s.cases × (of_alert tenant_id alert_id c ≡ true)

found_case :
    (tenant_id alert_id : String) (s : Store)
    → HasCase tenant_id alert_id s
    → (c : Case) × (get_case_by_alert tenant_id alert_id s ≡ some c)
unfolding get_case_by_alert HasCase
found_case tenant_id alert_id s (c, m, test) =
    elim (Option-cases
      (fetchone (of_alert tenant_id alert_id) (descending (λ (c : Case). c.updated_at) s.cases))) [
        | inr (x, e) ↦ (x, e)
        | inl e ↦
            let no =
              fetchone_absent (of_alert tenant_id alert_id) _ c e (sort_by-In _ s.cases c m) in
            absurd (contrary test no)
      ]
  where
    contrary : of_alert tenant_id alert_id c ≡ true → of_alert tenant_id alert_id c ≡ false → ⊥
    contrary t f = cc

case_found :
    (tenant_id alert_id : String) (s : Store) (c : Case)
    → get_case_by_alert tenant_id alert_id s ≡ some c
    → HasCase tenant_id alert_id s
unfolding get_case_by_alert HasCase
case_found tenant_id alert_id s c e = (
  c,
  In-sort_by _ s.cases c (In-fetchone (of_alert tenant_id alert_id) _ e),
  fetchone_test (of_alert tenant_id alert_id) _ c e,
)

In_cases :
    (tenant_id alert_id : String) (s : Store) (c : Case)
    → get_case_by_alert tenant_id alert_id s ≡ some c
    → In c s.cases
unfolding get_case_by_alert
In_cases tenant_id alert_id s c e =
    In-sort_by _ s.cases c (In-fetchone (of_alert tenant_id alert_id) _ e)

is_found :
    (tenant_id alert_id : String) (s : Store) (c : Case)
    → get_case_by_alert tenant_id alert_id s ≡ some c
    → of_alert tenant_id alert_id c ≡ true
unfolding get_case_by_alert
is_found tenant_id alert_id s c e = fetchone_test (of_alert tenant_id alert_id) _ c e

-- A change of a case keeps the keys, the alerts, and that there is a case for the alert.
module _ (now : Time) (tenant_id case_id : String) (req : CaseUpdate) where
  update_case-cases :
      (s : Store)
      → (map case_key (update_case now tenant_id case_id req s).1.cases ≡ map case_key s.cases)
        × ((update_case now tenant_id case_id req s).1.alerts ≡ s.alerts)
  unfolding update_case
  update_case-cases s = elim (Option-cases (get_case tenant_id case_id s)) [
    | inl e ↦ rw e (refl, refl)
    | inr (c, e) ↦
        rw e
          (map-update case_key (is_case tenant_id case_id) (edit now req) s.cases (λ r. refl), refl)
  ]

  update_case-HasCase :
      (t alert_id : String) (s : Store)
      → HasCase t alert_id s
      → HasCase t alert_id (update_case now tenant_id case_id req s).1
  unfolding update_case HasCase
  update_case-HasCase t alert_id s (c, m, test) =
      elim (Option-cases (get_case tenant_id case_id s)) [
        | inl e ↦ rw e (c, m, test)
        | inr (x, e) ↦ rw e (
          (if is_case tenant_id case_id c then edit now req c else c),
          update-In (is_case tenant_id case_id) (edit now req) s.cases c m,
          ground (arith, test),
        )
      ]

created_case :
    (draw : CaseDraw) (tenant_id title severity alert_id : String)
    (description priority classification : Option String) (s : Store) (c : Case) (s' : Store)
    → create_case draw.at draw.case_id draw.alert_link draw.raw_link tenant_id title severity
        (some alert_id)
        description
        priority
        classification
        s
      ≡ ok (c, s')
    → HasCase tenant_id alert_id s' × (s'.alerts ≡ s.alerts)
unfolding create_case HasCase
created_case draw tenant_id title severity alert_id description priority classification s c s' h =
    let made =
      new_case draw.at draw.case_id tenant_id title severity (some alert_id) description priority
        classification in
    let (alert, e1, h1) = >>=-eq-ok (asked_alert tenant_id (some alert_id) s) _ h in
    let (cases, e2, h2) = >>=-eq-ok (insert case_key made s.cases) _ h1 in
    let (rows, e3, h3) =
      >>=-eq-ok (link_alert draw.alert_link draw.raw_link draw.case_id tenant_id draw.at s alert) _
        h2 in
    let (row, e4, h4) =
      >>=-eq-ok (row_read (fetchone (has_key case_key draw.case_id) cases)) _ h3 in
    let final : record s { cases = cases; case_evidence = rows } ≡ s' =
      ap (λ (p : Case × Store). p.1) (ok_injective h4) in
    (
      (
        made,
        subst (λ (x : Store). In made x.cases) final
            (subst (In made) (sym (insert-eq-ok case_key made s.cases cases e2).1)
              (In-append_last s.cases made)),
        ground (arith, eq_refl tenant_id, eq_refl alert_id),
      ),
      ap (λ (x : Store). x.alerts) (sym final),
    )

case_for_alert_lem :
    (draw : CaseDraw) (req : WorkspaceStartRequest) (alert : Alert) (o : Option Case) (s : Store)
    (c : Case) (s' : Store)
    → get_case_by_alert req.tenant_id req.alert_id s ≡ o
    → case_for_alert draw req alert o s ≡ ok (c, s')
    → HasCase req.tenant_id req.alert_id s' × (s'.alerts ≡ s.alerts)
unfolding case_for_alert
case_for_alert_lem draw req alert none s c s' e h =
    created_case draw req.tenant_id ("Investigate: " <> alert.title) alert.severity req.alert_id
      alert.description (text_or req.priority (some alert.severity)) (some "unclassified") s c s' h
case_for_alert_lem draw req alert (some x) s c s' e h =
    let same : s ≡ s' = ap (λ (p : Case × Store). p.1) (ok_injective h) in
    (
      subst (HasCase req.tenant_id req.alert_id) same (case_found req.tenant_id req.alert_id s x e),
      ap (λ (y : Store). y.alerts) (sym same),
    )

alert_in : String → String → List AlertRow → Option Alert
alert_in tenant_id alert_id rows =
    Option.map (λ (r : AlertRow). r.alert) (fetchone (is_alert tenant_id alert_id) rows)

-- A case of the alert is of its tenant, and names the alert.
of_alert_parts :
    (tenant_id alert_id : String) (c : Case)
    → of_alert tenant_id alert_id c ≡ true
    → (c.tenant_id ≡ tenant_id) × (c.alert_id ≡ some alert_id)
of_alert_parts tenant_id alert_id c h = elim (Option-cases c.alert_id) [
  | inl e ↦ absurd (ground (arith, e, h))
  | inr (a, e) ↦ (
    ground (arith, e, h, eq_iff c.tenant_id tenant_id),
    e ∙ ap some (ground (arith, e, h, eq_iff a alert_id)),
  )
]

-- What is shown after the change is the case that was changed.
shown_id :
    (now : Time) (tenant_id : String) (c : Case) (req : CaseUpdate) (s : Store)
    → (or_default (update_case now tenant_id c.case_id req s).0 c).case_id ≡ c.case_id
unfolding update_case
shown_id now tenant_id c req s = elim (Option-cases (get_case tenant_id c.case_id s)) [
  | inl e ↦ rw e refl
  | inr (x, e) ↦
      let cases = update (is_case tenant_id c.case_id) (edit now req) s.cases in
      rw e (elim (Option-cases (fetchone (is_case tenant_id c.case_id) cases)) [
        | inl none_left ↦ rw none_left refl
        | inr (y, found) ↦
            let test = fetchone_test (is_case tenant_id c.case_id) cases y found in
            rw found (ground (arith, test, eq_iff y.case_id c.case_id))
      ])
]

-- A workspace can be started again for its alert, by any later request for it: the second start
-- answers with a case that was there already, of the tenant and for the alert, and opens no other
-- one.
pub start_workspace_again :
    (codec : Codec) (dumps : Dumps) (telemetry : Store → Telemetry) (now : Time) (draw : CaseDraw)
    (req : WorkspaceStartRequest) (s s1 : Store) (first : Case × Workspace) (later : Time)
    (draw' : CaseDraw) (assignee priority : Option String)
    → start_workspace codec dumps telemetry now draw req s ≡ ok (first, s1)
    → let again = record req { assignee = assignee; priority = priority } in
      (second : Case × Workspace) × (s2 : Store) × (start_workspace codec dumps telemetry later
          draw' again s1
        ≡ ok (second, s2))
      × (map case_key s2.cases ≡ map case_key s1.cases)
      × (c : Case) × In c s1.cases
      × (c.tenant_id ≡ req.tenant_id)
      × (c.alert_id ≡ some req.alert_id)
      × (second.0.case_id ≡ c.case_id)
unfolding start_workspace get_alert alert_in case_for_alert
start_workspace_again codec dumps telemetry now draw req s s1 first later draw' assignee priority
      h =
    let (alert, e1, h1) =
      >>=-eq-ok (or_404 "alert_not_found" (get_alert req.tenant_id req.alert_id s)) _ h in
    let ((case, s0), e2, h2) =
      >>=-eq-ok (case_for_alert draw req alert (get_case_by_alert req.tenant_id req.alert_id s) s) _
        h1 in
    let again = record req { assignee = assignee; priority = priority } in
    let (has, alerts0) = case_for_alert_lem draw req alert _ s case s0 refl e2 in
    let moved = update_case now req.tenant_id case.case_id (investigating req case) s0 in
    let final : moved.1 ≡ s1 = ap (λ (p : (Case × Workspace) × Store). p.1) (ok_injective h2) in
    let has1 = subst (HasCase req.tenant_id req.alert_id) final (
      update_case-HasCase now req.tenant_id case.case_id (investigating req case) req.tenant_id
        req.alert_id s0 has) in
    let alerts1 : s1.alerts ≡ s.alerts =
      ap (λ (x : Store). x.alerts) (sym final)
      ∙ (update_case-cases now req.tenant_id case.case_id (investigating req case) s0).1
      ∙ alerts0 in
    let (c, found) = found_case req.tenant_id req.alert_id s1 has1 in
    let named =
      of_alert_parts req.tenant_id req.alert_id c
        (is_found req.tenant_id req.alert_id s1 c found) in
    let step = update_case later req.tenant_id c.case_id (investigating again c) s1 in
    let same_alert : get_alert req.tenant_id req.alert_id s1
        ≡ get_alert req.tenant_id req.alert_id s =
      ap (alert_in req.tenant_id req.alert_id) alerts1 in
    let e1' = ap (or_404 "alert_not_found") same_alert ∙ e1 in
    let shown = or_default step.0 c in
    (
      (
        shown,
        build_workspace_package codec dumps (telemetry step.1) req.tenant_id alert shown step.1,
      ),
      step.1,
      rw (e1', found) refl,
      (update_case-cases later req.tenant_id c.case_id (investigating again c) s1).0,
      c,
      In_cases req.tenant_id req.alert_id s1 c found,
      named.0,
      named.1,
      shown_id later req.tenant_id c (investigating again c) s1,
    )
