-- ===== src/Investigation/Refs.antt =====
-- The references to raw evidence of a case (api/app.py, _raw_refs_from_case_evidence).
use shigure_edr.Base.{
  String, ◌≡◌, refl, Bool, false, not, ◌&&◌, ◌||◌, ◌==◌, List, [], ◌∷◌, ◌++◌, arith, map, contains,
  eq_iff, Bool-cases, inl, inr,
}
use shigure_edr.Base.Dict
use shigure_edr.Evidence.{Codec, text_or_empty}
use shigure_edr.Control.Schema.{CaseEvidence}
use shigure_edr.Investigation.{RawRef, refs_of, all_refs, deduped, raw_refs_from_case_evidence}

abbrev pub names : List RawRef → List String
names refs = map (λ (r : RawRef). r.raw_ref) refs

-- No text stands twice.
abbrev pub AreDistinct : List String → Type 0
AreDistinct [] = Unit
AreDistinct (x ∷ xs) = (contains xs x ≡ false) × AreDistinct xs

names-deduped :
    (seen : List String) (refs : List RawRef) (k : String)
    → contains (names (deduped seen refs)) k ≡ (contains (names refs) k && not (contains seen k))
unfolding deduped
names-deduped seen [] k = refl
names-deduped seen (r ∷ refs) k =
    ground (
      arith,
      names-deduped seen refs k,
      names-deduped (r.raw_ref ∷ seen) refs k,
      eq_iff r.raw_ref k,
    )

deduped-AreDistinct :
    (seen : List String) (refs : List RawRef) → AreDistinct (names (deduped seen refs))
unfolding deduped
deduped-AreDistinct seen [] = tt
deduped-AreDistinct seen (r ∷ refs) = elim (Bool-cases (contains seen r.raw_ref)) [
  | inl e ↦ rw e (deduped-AreDistinct seen refs)
  | inr e ↦ rw e (
    ground (arith, names-deduped (r.raw_ref ∷ seen) refs r.raw_ref, eq_iff r.raw_ref r.raw_ref),
    deduped-AreDistinct (r.raw_ref ∷ seen) refs,
  )
]

-- A piece of evidence names a reference: as a link to raw evidence, or as the `raw_ref` of its facts.
abbrev pub mentions : Codec → CaseEvidence → String → Bool
mentions codec item ref =
    item.evidence_type == "raw_evidence" && item.ref_id == ref
    || not (ref == "") && text_or_empty codec (Dict.get "raw_ref" item.facts) == ref

abbrev pub mentioned : Codec → List CaseEvidence → String → Bool
mentioned codec [] ref = false
mentioned codec (item ∷ evidence) ref = mentions codec item ref || mentioned codec evidence ref

names-append :
    (refs later : List RawRef) (k : String)
    → contains (names (refs ++ later)) k ≡ (contains (names refs) k || contains (names later) k)
names-append [] later k = refl
names-append (r ∷ refs) later k = ground (arith, names-append refs later k)

names-refs_of :
    (codec : Codec) (item : CaseEvidence) (k : String)
    → contains (names (refs_of codec item)) k ≡ mentions codec item k
unfolding refs_of
names-refs_of codec item k =
    let inner = text_or_empty codec (Dict.get "raw_ref" item.facts) in
    ground (arith, eq_iff inner k, eq_iff inner "", eq_iff k "", eq_iff item.ref_id k)

names-all_refs :
    (codec : Codec) (evidence : List CaseEvidence) (k : String)
    → contains (names (all_refs codec evidence)) k ≡ mentioned codec evidence k
unfolding all_refs
names-all_refs codec [] k = refl
names-all_refs codec (item ∷ evidence) k = ground (
  arith,
  names-append (refs_of codec item) (all_refs codec evidence) k,
  names-refs_of codec item k,
  names-all_refs codec evidence k,
)

-- The references that a handoff lists are those that the linked evidence names, as a link to raw
-- evidence or as a `raw_ref` in its facts that is not empty, all of them and no other, and none is
-- listed twice.
pub raw_refs_lem :
    (codec : Codec) (evidence : List CaseEvidence)
    → let listed = names (raw_refs_from_case_evidence codec evidence) in
      AreDistinct listed × ((ref : String) → contains listed ref ≡ mentioned codec evidence ref)
unfolding raw_refs_from_case_evidence
raw_refs_lem codec evidence = (
  deduped-AreDistinct [] (all_refs codec evidence),
  λ ref.
      ground
        (arith, names-deduped [] (all_refs codec evidence) ref, names-all_refs codec evidence ref),
)
