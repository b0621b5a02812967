-- ===== src/Control/Tasks/Requeue.antt =====
-- What a result does to a task whatever its status (api/store.py, complete_task and retry_task).
use shigure_edr.Base.{String, ◌≡◌, refl, Option, some, arith, eq_iff}
use shigure_edr.Base.Table.{fetchone, fetchone-update_at, fetchone_test}
use shigure_edr.Base.Dict.{Dict}
use shigure_edr.Json.{Json}
use shigure_edr.Evidence.{Codec, LocalObjectStore}
use shigure_edr.Control.Schema.{Time, Task, Store}
use shigure_edr.Control.Evidence.{insert_raw_evidence}
use shigure_edr.Control.Tasks.{with_task_id, is_task_of, complete_task}
use shigure_edr.Control.Tasks.Admin.{is_retriable, requeue, retry_task}

module _ (codec : Codec) (object_store : LocalObjectStore) (s : Store) where
  -- The result "failed" for a task, from its agent and in its tenant, and a retry then put the
  -- task back in the queue with its type and arguments, whatever its status was before: one that
  -- was blocked by the policy too.
  pub failed_result_requeues :
      (stored_at now : Time) (tenant_id agent_id task_id : String) (result : Dict Json)
      (error : Option String) (row : Task)
      → fetchone (with_task_id task_id) s.tasks ≡ some row
      → row.tenant_id ≡ tenant_id
      → row.agent_id ≡ agent_id
      → let s' =
          complete_task codec object_store stored_at now tenant_id agent_id task_id "failed" result
            error s in
        (u : Task) × (fetchone (with_task_id task_id) (retry_task tenant_id task_id s').1.tasks
          ≡ some u)
        × (u.status ≡ "queued")
        × (u.task_type ≡ row.task_type)
        × (u.args ≡ row.args)
  unfolding complete_task retry_task insert_raw_evidence
  failed_result_requeues stored_at now tenant_id agent_id task_id result error row found tenant
        agent =
      let id = fetchone_test (with_task_id task_id) s.tasks row found in
      let once =
        fetchone-update_at (with_task_id task_id) (is_task_of tenant_id agent_id task_id) _ s.tasks
          row (λ t. refl) found
          (ground (arith, id, eq_iff row.tenant_id tenant_id, eq_iff row.agent_id agent_id)) in
      (
        _,
        fetchone-update_at (with_task_id task_id) (is_retriable tenant_id task_id) requeue _ _
            (λ t. refl) once (ground (arith, id, eq_iff row.tenant_id tenant_id)),
        refl,
        refl,
        refl,
      )
