-- ===== src/Tests/Catalog.antt =====
-- Runs on the task catalogue and its policy.
use shigure_edr.Base.{◌≡◌, refl, ◌↔◌, none, some, [], ◌∷◌, ok}
use shigure_edr.Base.Table.{fetchone}
use shigure_edr.Json.{int}
use shigure_edr.Base.Int.{pos}
use shigure_edr.Catalog.{read_only_policy_block, get_task_definition, definition_in, task_catalog}
use shigure_edr.Catalog.Spec.{TaskDefinition, validate_args}
use shigure_edr.Catalog.Host.{process_list}
use shigure_edr.Catalog.Policy.{Offered, IsReadOnly, unblocked_lem, Offered-iff_unblocked}
use shigure_edr.Catalog.Args.Whole.{Accepts, validate_args_iff}

inventory_unblocked : read_only_policy_block "process_list" ≡ none
unfolding read_only_policy_block get_task_definition definition_in fetchone task_catalog
inventory_unblocked = refl

unblocked_lem_example :
    (d : TaskDefinition) × (get_task_definition "process_list" ≡ some d)
    × IsReadOnly d
    × (d.task_type ≡ "process_list")
unblocked_lem_example = unblocked_lem "process_list" inventory_unblocked

Offered-iff_unblocked_example :
    (read_only_policy_block "delete_file" ≡ none) ↔ Offered "delete_file"
Offered-iff_unblocked_example = Offered-iff_unblocked "delete_file"

validate_args_iff_example :
    (validate_args process_list (("limit", int (pos 5)) ∷ []) ≡ ok tt)
    ↔ Accepts process_list (("limit", int (pos 5)) ∷ [])
validate_args_iff_example = validate_args_iff process_list (("limit", int (pos 5)) ∷ [])
