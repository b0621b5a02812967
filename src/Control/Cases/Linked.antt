-- ===== src/Control/Cases/Linked.antt =====
-- That linked evidence belongs to a case of its tenant (api/store.py, create_case, update_case and
-- add_case_evidence).
use mathlib.Core.Path.{subst}
use shigure_edr.Base.{
  String, ◌≡◌, refl, sym, ap, true, Option, none, some, List, [], ◌∷◌, ◌++◌, arith, ok, eq_iff,
  is_some, is_text, Bool-cases, inl, inr, All, >>=-eq-ok, >>-eq-ok, guard-eq-ok, ok_injective,
}
use shigure_edr.Base.Table.{fetchone, insert, has_key, fetchone-append, fetchone-update, All-append}
use shigure_edr.Base.Keys.{insert-eq-ok}
use shigure_edr.Base.Dict.{Dict}
use shigure_edr.Json.{Json}
use shigure_edr.Control.Schema.{Time, Case, CaseEvidence, AlertRow, Store}
use shigure_edr.Control.Cases.{
  case_key, evidence_key, is_case, linked, asked_alert, link_raw, link_alert, new_case, create_case,
  get_case, CaseUpdate, edit, edited, row_read, update_case, add_case_evidence,
}

-- The case of a link is there, in the tenant of the link.
abbrev pub IsLinked : List Case → CaseEvidence → Type 0
IsLinked cases e = is_some (fetchone (is_case e.tenant_id e.case_id) cases) ≡ true

insert-All :
    (P : CaseEvidence → Type 0) (e : CaseEvidence) (rows rows' : List CaseEvidence)
    → insert evidence_key e rows ≡ ok rows'
    → All P rows
    → P e
    → All P rows'
insert-All P e rows rows' h g p =
    subst (All P) (sym (insert-eq-ok evidence_key e rows rows' h).1)
      (All-append P rows (e ∷ []) g (p, tt))

module _ (P : CaseEvidence → Type 0) (alert_link raw_link case_id tenant_id : String) (now : Time)
    (s : Store)
    (new : (evidence_id evidence_type ref_id : String) (summary : Option String) (facts : Dict Json)
      → P (linked evidence_id case_id tenant_id now evidence_type ref_id summary facts)) where
  link_raw-All :
      (alert : AlertRow) (rows rows' : List CaseEvidence)
      → link_raw raw_link case_id tenant_id now alert s rows ≡ ok rows'
      → All P rows
      → All P rows'
  link_raw-All alert rows rows' h g = elim (Bool-cases (is_text alert.raw_ref)) [
    | inl e ↦ insert-All P _ rows rows' (rw e at h) g (new _ _ _ _ _)
    | inr e ↦ subst (All P) (ok_injective (rw e at h)) g
  ]

  link_alert-All :
      (o : Option AlertRow) (rows' : List CaseEvidence)
      → link_alert alert_link raw_link case_id tenant_id now s o ≡ ok rows'
      → All P s.case_evidence
      → All P rows'
  link_alert-All none rows' h g = subst (All P) (ok_injective h) g
  link_alert-All (some alert) rows' h g =
      let (rows, first, second) = >>=-eq-ok _ (link_raw raw_link case_id tenant_id now alert s) h in
      link_raw-All alert rows rows' second
        (insert-All P _ s.case_evidence rows first g (new _ _ _ _ _))

All-impl :
    (P Q : CaseEvidence → Type 0) (rows : List CaseEvidence)
    → ((e : CaseEvidence) → P e → Q e)
    → All P rows
    → All Q rows
All-impl P Q [] f g = tt
All-impl P Q (e ∷ rows) f g = (f e g.0, All-impl P Q rows f g.1)

IsLinked-append :
    (cases : List Case) (c : Case) (e : CaseEvidence)
    → IsLinked cases e
    → IsLinked (cases ++ c ∷ []) e
IsLinked-append cases c e h =
    ground (arith, fetchone-append (is_case e.tenant_id e.case_id) c cases, h)

found_new :
    (tenant_id case_id : String) (c : Case)
    → c.tenant_id ≡ tenant_id
    → c.case_id ≡ case_id
    → (cases : List Case) → is_some (fetchone (is_case tenant_id case_id) (cases ++ c ∷ [])) ≡ true
found_new tenant_id case_id c tenant id cases = ground (
  arith,
  fetchone-append (is_case tenant_id case_id) c cases,
  tenant,
  id,
  eq_iff c.tenant_id tenant_id,
  eq_iff c.case_id case_id,
)

-- What is done with cases.
pub data CaseStep (s : Store) : Store → Type 0 where
  created :
      {s' : Store} (now : Time) (case_id alert_link raw_link tenant_id title severity : String)
      (alert_id description priority classification : Option String) (c : Case)
      → create_case now case_id alert_link raw_link tenant_id title severity alert_id description
          priority classification s
        ≡ ok (c, s')
      → CaseStep s s'
  changed :
      (now : Time) (tenant_id case_id : String) (req : CaseUpdate)
      → CaseStep s (update_case now tenant_id case_id req s).1
  linked_to :
      {s' : Store} (now : Time) (evidence_id tenant_id case_id evidence_type ref_id : String)
      (summary : Option String) (facts : Dict Json) (e : CaseEvidence)
      → add_case_evidence now evidence_id tenant_id case_id evidence_type ref_id summary facts s
        ≡ ok (e, s')
      → CaseStep s s'

pub data CaseRun (s : Store) : Store → Type 0 where
  start : CaseRun s s
  next : {t u : Store} → CaseRun s t → CaseStep t u → CaseRun s u

abbrev pub AreLinked : Store → Type 0
AreLinked s = All (IsLinked s.cases) s.case_evidence

module _ (s : Store) where
  created_lem :
      (s' : Store) (now : Time) (case_id alert_link raw_link tenant_id title severity : String)
      (alert_id description priority classification : Option String) (c : Case)
      → create_case now case_id alert_link raw_link tenant_id title severity alert_id description
          priority classification s
        ≡ ok (c, s')
      → AreLinked s
      → AreLinked s'
  unfolding create_case
  created_lem s' now case_id alert_link raw_link tenant_id title severity alert_id description
        priority classification c h g =
      let made =
        new_case now case_id tenant_id title severity alert_id description priority
          classification in
      let (alert, asked, h1) = >>=-eq-ok (asked_alert tenant_id alert_id s) _ h in
      let (cases, put, h2) = >>=-eq-ok (insert case_key made s.cases) _ h1 in
      let (rows, links, h3) =
        >>=-eq-ok (link_alert alert_link raw_link case_id tenant_id now s alert) _ h2 in
      let (row, read, h4) = >>=-eq-ok (row_read (fetchone (has_key case_key case_id) cases)) _ h3 in
      let joined = (insert-eq-ok case_key made s.cases cases put).1 in
      subst AreLinked (ap (λ (x : Case × Store). x.1) (ok_injective h4)) (
        link_alert-All (IsLinked cases) alert_link raw_link case_id tenant_id now s
          (λ evidence_id evidence_type ref_id summary facts.
            subst (λ x. is_some (fetchone (is_case tenant_id case_id) x) ≡ true) (sym joined)
              (found_new tenant_id case_id made refl refl s.cases))
          alert rows links
          (All-impl (IsLinked s.cases) (IsLinked cases) s.case_evidence
            (λ e linked.
              subst (λ x. IsLinked x e) (sym joined) (IsLinked-append s.cases made e linked))
            g))

  edited_lem :
      (now : Time) (tenant_id case_id : String) (req : CaseUpdate) (o : Option Case)
      → AreLinked s
      → AreLinked (edited now tenant_id case_id req s o).1
  edited_lem now tenant_id case_id req none g = g
  edited_lem now tenant_id case_id req (some c) g =
      All-impl (IsLinked s.cases) _ s.case_evidence
        (λ e h. ground (
          arith,
          fetchone-update (is_case e.tenant_id e.case_id) (is_case tenant_id case_id) (edit now req)
              s.cases (λ x. refl),
          h,
        ))
        g

  linked_lem :
      (s' : Store) (now : Time) (evidence_id tenant_id case_id evidence_type ref_id : String)
      (summary : Option String) (facts : Dict Json) (e : CaseEvidence)
      → add_case_evidence now evidence_id tenant_id case_id evidence_type ref_id summary facts s
        ≡ ok (e, s')
      → AreLinked s
      → AreLinked s'
  unfolding add_case_evidence get_case
  linked_lem s' now evidence_id tenant_id case_id evidence_type ref_id summary facts e h g =
      let row = linked evidence_id case_id tenant_id now evidence_type ref_id summary facts in
      let (checked, h1) = >>-eq-ok _ _ h in
      let (rows, put, h2) = >>=-eq-ok (insert evidence_key row s.case_evidence) _ h1 in
      let (shown, read, h3) =
        >>=-eq-ok (row_read (fetchone (has_key evidence_key evidence_id) rows)) _ h2 in
      subst AreLinked (ap (λ (x : CaseEvidence × Store). x.1) (ok_injective h3))
        (insert-All (IsLinked s.cases) row s.case_evidence rows put g (guard-eq-ok _ _ checked))

  CaseStep-AreLinked : {s' : Store} → CaseStep s s' → AreLinked s → AreLinked s'
  unfolding update_case
  CaseStep-AreLinked
        (created {s' = s'} now case_id alert_link raw_link tenant_id title severity alert_id
          description priority classification c h)
        g =
      created_lem s' now case_id alert_link raw_link tenant_id title severity alert_id description
        priority classification c h g
  CaseStep-AreLinked (changed now tenant_id case_id req) g =
      edited_lem now tenant_id case_id req (get_case tenant_id case_id s) g
  CaseStep-AreLinked
        (linked_to {s' = s'} now evidence_id tenant_id case_id evidence_type ref_id summary facts e
          h)
        g =
      linked_lem s' now evidence_id tenant_id case_id evidence_type ref_id summary facts e h g

-- However cases are opened for alerts, changed and given evidence, every piece of linked evidence
-- belongs to a case that is there, in the same tenant, from a state in which this holds.
pub CaseRun-AreLinked : {s s' : Store} → CaseRun s s' → AreLinked s → AreLinked s'
CaseRun-AreLinked start g = g
CaseRun-AreLinked (next {t = t} run step) g = CaseStep-AreLinked t step (CaseRun-AreLinked run g)
