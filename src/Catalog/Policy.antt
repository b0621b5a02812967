-- ===== src/Catalog/Policy.antt =====
-- What the read-only policy offers and blocks (api/task_catalog.py, catalog_for_response_mode and
-- read_only_policy_block).
use shigure_edr.Base.{
  String, ◌≡◌, refl, ◌↔◌, ◌⊎◌, inl, inr, false, not, ◌||◌, none, some, arith, ◌==◌, eq_iff,
  Option-cases, All, In, All-In,
}
use shigure_edr.Base.Table.{In-fetchone, In-select, select-In, fetchone, fetchone_test}
use shigure_edr.Catalog.Spec.{TaskDefinition}
use shigure_edr.Catalog.{
  task_catalog, has_type, get_task_definition, is_offered, offered_items, read_only_policy_block,
}

-- A task that the policy lets through, by its definition.
abbrev pub IsReadOnly : TaskDefinition → Type 0
IsReadOnly d =
    (d.destructive ≡ false)
    × (d.requires_explicit_dispatch ≡ false)
    × ((d.task_type == "copy_file") ≡ false)

-- The entry is found under its own type, and the two ways to sort it out agree.
abbrev IsLawfulEntry : TaskDefinition → Type 0
IsLawfulEntry d =
    (get_task_definition d.task_type ≡ some d)
    × (is_offered d
        ≡ not (d.destructive || (d.requires_explicit_dispatch || d.task_type == "copy_file")))

task_catalog-IsLawful : All IsLawfulEntry task_catalog
unfolding get_task_definition task_catalog fetchone
task_catalog-IsLawful = (
  (refl, refl),
  (
    (refl, refl),
    (
      (refl, refl),
      (
        (refl, refl),
        (
          (refl, refl),
          (
            (refl, refl),
            (
              (refl, refl),
              (
                (refl, refl),
                (
                  (refl, refl),
                  (
                    (refl, refl),
                    (
                      (refl, refl),
                      (
                        (refl, refl),
                        (
                          (refl, refl),
                          (
                            (refl, refl),
                            (
                              (refl, refl),
                              (
                                (refl, refl),
                                (
                                  (refl, refl),
                                  (
                                    (refl, refl),
                                    (
                                      (refl, refl),
                                      ((refl, refl), ((refl, refl), ((refl, refl), tt))),
                                    ),
                                  ),
                                ),
                              ),
                            ),
                          ),
                        ),
                      ),
                    ),
                  ),
                ),
              ),
            ),
          ),
        ),
      ),
    ),
  ),
)

-- A type has a definition, or the catalogue has no item of that type.
definition_cases :
    (t : String)
    → (get_task_definition t ≡ none)
      ⊎ ((d : TaskDefinition) × (get_task_definition t ≡ some d)
          × IsLawfulEntry d
          × In d task_catalog
          × (d.task_type ≡ t))
unfolding get_task_definition
definition_cases t = elim (Option-cases (get_task_definition t)) [
  | inl e ↦ inl e
  | inr (d, e) ↦ inr (
    d,
    e,
    All-In IsLawfulEntry task_catalog task_catalog-IsLawful
        (In-fetchone (has_type t) task_catalog e),
    In-fetchone (has_type t) task_catalog e,
    (eq_iff d.task_type t).0 (fetchone_test (has_type t) task_catalog d e),
  )
]

-- A task type that is not blocked has a definition, and that is neither destructive, nor for
-- explicit dispatch, nor `copy_file`.
pub unblocked_lem :
    (t : String)
    → read_only_policy_block t ≡ none
    → (d : TaskDefinition) × (get_task_definition t ≡ some d) × IsReadOnly d × (d.task_type ≡ t)
unfolding read_only_policy_block
unblocked_lem t h = elim (definition_cases t) [
  | inl e ↦ cc (h, e)
  | inr (d, e, w, m, same) ↦ (d, e, ground (arith, rw e at h), same)
]

abbrev pub Offered : String → Type 0
Offered t = (d : TaskDefinition) × In d (offered_items "read_only") × (d.task_type ≡ t)

Offered-of_unblocked : (t : String) → read_only_policy_block t ≡ none → Offered t
unfolding read_only_policy_block offered_items
Offered-of_unblocked t h = elim (definition_cases t) [
  | inl e ↦ cc (h, e)
  | inr (d, e, w, m, same) ↦
      (d, select-In is_offered task_catalog d m (ground (arith, w, rw e at h)), same)
]

unblocked_of_Offered : (t : String) → Offered t → read_only_policy_block t ≡ none
unfolding read_only_policy_block offered_items
unblocked_of_Offered t (d, m, same) =
    let (member, offered) = In-select is_offered task_catalog d m in
    let (found, agree) = All-In IsLawfulEntry task_catalog task_catalog-IsLawful member in
    rw (← same, found) (ground (arith, agree, offered))

-- The read-only mode offers exactly what its policy lets through: a task type is not blocked
-- if and only if an item that the mode "read_only" offers has that type.
pub Offered-iff_unblocked : (t : String) → (read_only_policy_block t ≡ none) ↔ Offered t
Offered-iff_unblocked t = (Offered-of_unblocked t, unblocked_of_Offered t)
