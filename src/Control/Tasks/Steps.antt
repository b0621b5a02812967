-- ===== src/Control/Tasks/Steps.antt =====
-- The operations on the task queue of one tenant as steps, and what every step keeps
-- (api/store.py, create_task to retry_task).
use mathlib.Core.List.{append-nil}
use shigure_edr.Base.{
  String, ◌≡◌, refl, sym, ◌∙◌, ◌≢◌, Option, some, List, [], ◌∷◌, ◌++◌, arith, ok, ◌==◌, eq_iff,
  test_of_ne,
}
use shigure_edr.Base.Int.{ℤ}
use shigure_edr.Base.Table.{select, fetchone, insert, select-append, fetchone-append}
use shigure_edr.Base.Keys.{IsKeyed, insert-eq-ok, insert-IsKeyed}
use shigure_edr.Base.Dict.{Dict}
use shigure_edr.Json.{Json}
use shigure_edr.Evidence.{Codec, LocalObjectStore}
use shigure_edr.Control.Schema.{Time, Task, Store}
use shigure_edr.Control.Evidence.{insert_raw_evidence}
use shigure_edr.Control.Tasks.{
  task_key, with_task_id, is_task_of, queued_task, create_task, blocked_task, create_blocked_task,
  claimable, claim_tasks, complete_task,
}
use shigure_edr.Control.Tasks.Admin.{
  expire_stale_tasks, is_cancellable, cancel, cancel_task, is_retriable, requeue, retry_task,
  expired_ids, is_claimed_in,
}
use shigure_edr.Control.Tasks.Queue.{In-claimable}
use shigure_edr.Control.Tasks.Rewrites.{
  KeepsTask, KeepsTask-refl, KeepsTask-trans, Rewrites, done, then_update, Rewrites-IsKeyed,
  Rewrites-select, Rewrites-fetchone, claim_each-Rewrites, time_out_each-Rewrites,
}

-- An inserted task joins the table, and nothing else of it changes.
pub create_tables :
    (now : Time) (task_id tenant_id agent_id task_type : String) (args : Dict Json)
    (timeout_seconds : ℤ) (audit_result : Option (Dict Json)) (s s' : Store) (r : String)
    → create_task now task_id tenant_id agent_id task_type args timeout_seconds audit_result s
      ≡ ok (r, s')
    → insert task_key
        (queued_task now task_id tenant_id agent_id task_type args timeout_seconds audit_result)
        s.tasks
      ≡ ok s'.tasks
unfolding create_task
create_tables now task_id tenant_id agent_id task_type args timeout_seconds audit_result s s' r h =
    ground arith

pub create_blocked_tables :
    (now : Time) (task_id tenant_id agent_id task_type : String) (args : Dict Json)
    (reason : String) (result : Dict Json) (s s' : Store) (r : String)
    → create_blocked_task now task_id tenant_id agent_id task_type args reason result s ≡ ok (r, s')
    → insert task_key
        (blocked_task now task_id tenant_id agent_id task_type args reason result)
        s.tasks
      ≡ ok s'.tasks
unfolding create_blocked_task
create_blocked_tables now task_id tenant_id agent_id task_type args reason result s s' r h =
    ground arith

-- One operation for a tenant.
pub data TaskStep (codec : Codec) (object_store : LocalObjectStore) (tenant : String) (s : Store)
    : Store → Type 0 where
  created :
      {s' : Store} (now : Time) (task_id agent_id task_type : String) (args : Dict Json)
      (timeout_seconds : ℤ) (audit_result : Option (Dict Json)) (r : String)
      → create_task now task_id tenant agent_id task_type args timeout_seconds audit_result s
        ≡ ok (r, s')
      → TaskStep codec object_store tenant s s'
  blocked :
      {s' : Store} (now : Time) (task_id agent_id task_type : String) (args : Dict Json)
      (reason : String) (result : Dict Json) (r : String)
      → create_blocked_task now task_id tenant agent_id task_type args reason result s ≡ ok (r, s')
      → TaskStep codec object_store tenant s s'
  claimed :
      (now : Time) (agent_id : String) (max_tasks : ℤ)
      → TaskStep codec object_store tenant s (claim_tasks now tenant agent_id max_tasks s).1
  completed :
      (stored_at now : Time) (agent_id task_id status : String) (result : Dict Json)
      (error : Option String)
      → TaskStep codec object_store tenant s (
          complete_task codec object_store stored_at now tenant agent_id task_id status result error
            s)
  expired :
      (now written_at : Time)
      → TaskStep codec object_store tenant s (expire_stale_tasks now written_at tenant s).1
  cancelled :
      (now : Time) (task_id : String)
      → TaskStep codec object_store tenant s (cancel_task now tenant task_id s).1
  retried :
      (task_id : String) → TaskStep codec object_store tenant s (retry_task tenant task_id s).1

-- What a step does to the table of tasks: one insert, or updates of the tenant's own rows.
pub data TaskChange (tenant : String) (tasks : List Task) : List Task → Type 0 where
  inserted :
      {after : List Task} (t : Task)
      → insert task_key t tasks ≡ ok after
      → t.tenant_id ≡ tenant
      → TaskChange tenant tasks after
  rewritten : {after : List Task} → Rewrites tenant tasks after → TaskChange tenant tasks after

module _ (codec : Codec) (object_store : LocalObjectStore) (tenant : String) (s : Store) where
  pub TaskStep-change :
      {s' : Store}
      → IsKeyed task_key s.tasks
      → TaskStep codec object_store tenant s s'
      → TaskChange tenant s.tasks s'.tasks
  unfolding claim_tasks complete_task insert_raw_evidence expire_stale_tasks cancel_task retry_task
  TaskStep-change u
        (created {s' = s'} now task_id agent_id task_type args timeout_seconds audit_result r h) =
      inserted (queued_task now task_id tenant agent_id task_type args timeout_seconds audit_result)
        (create_tables now task_id tenant agent_id task_type args timeout_seconds audit_result s s'
          r h)
        refl
  TaskStep-change u (blocked {s' = s'} now task_id agent_id task_type args reason result r h) =
      inserted (blocked_task now task_id tenant agent_id task_type args reason result)
        (create_blocked_tables now task_id tenant agent_id task_type args reason result s s' r h)
        refl
  TaskStep-change u (claimed now agent_id max_tasks) = rewritten (
      claim_each-Rewrites tenant now s.tasks s.tasks (claimable tenant agent_id max_tasks s.tasks)
        done u
        (λ row m.
          let (inside, test) = In-claimable tenant agent_id max_tasks s.tasks row m in
          (inside, ground (arith, test, eq_iff row.tenant_id tenant))))
  TaskStep-change u (completed stored_at now agent_id task_id status result error) = rewritten (
      then_update (is_task_of tenant agent_id task_id) _ done (λ t. ground arith)
        (λ t m e. ground (arith, e, eq_iff t.tenant_id tenant)))
  TaskStep-change u (expired now written_at) = rewritten (
      time_out_each-Rewrites tenant written_at s.tasks s.tasks
        (expired_ids now (select (is_claimed_in tenant) s.tasks)) done)
  TaskStep-change u (cancelled now task_id) = rewritten (
      then_update (is_cancellable tenant task_id) (cancel now) done (λ t. ground arith)
        (λ t m e. ground (arith, e, eq_iff t.tenant_id tenant)))
  TaskStep-change u (retried task_id) = rewritten (
      then_update (is_retriable tenant task_id) requeue done (λ t. ground arith)
        (λ t m e. ground (arith, e, eq_iff t.tenant_id tenant)))

select_other :
    {tenant other : String} {rows : List Task} (t : Task)
    → t.tenant_id ≡ tenant
    → tenant ≢ other
    → rows ++ select (λ (x : Task). x.tenant_id == other) (t ∷ []) ≡ rows
unfolding select
select_other {tenant} {other} t own ne =
    rw (test_of_ne t.tenant_id other (λ e. ne (sym own ∙ e)), append-nil)

module _ (tenant : String) {tasks after : List Task} where
  pub TaskChange-IsKeyed :
      TaskChange tenant tasks after → IsKeyed task_key tasks → IsKeyed task_key after
  TaskChange-IsKeyed (inserted t e own) u = insert-IsKeyed task_key t tasks after e u
  TaskChange-IsKeyed (rewritten r) u = Rewrites-IsKeyed tenant tasks r u

  TaskChange-select :
      (other : String)
      → TaskChange tenant tasks after
      → tenant ≢ other
      → select (λ (t : Task). t.tenant_id == other) after
        ≡ select (λ (t : Task). t.tenant_id == other) tasks
  TaskChange-select other (inserted t e own) ne =
      rw ((insert-eq-ok task_key t tasks after e).1, select-append) (select_other t own ne)
  TaskChange-select other (rewritten r) ne = Rewrites-select tenant tasks other r ne

  TaskChange-fetchone :
      (k : String) (t : Task)
      → TaskChange tenant tasks after
      → fetchone (with_task_id k) tasks ≡ some t
      → (u : Task) × (fetchone (with_task_id k) after ≡ some u) × KeepsTask t u
  TaskChange-fetchone k t (inserted x e own) found =
      (t, rw ((insert-eq-ok task_key x tasks after e).1, fetchone-append, found), KeepsTask-refl t)
  TaskChange-fetchone k t (rewritten r) found = Rewrites-fetchone tenant tasks k t r found

-- Operations of any tenants, one after the other.
pub data TaskRun (codec : Codec) (object_store : LocalObjectStore) (s : Store)
    : Store → Type 0 where
  start : TaskRun codec object_store s s
  next :
      {t u : Store} (tenant : String)
      → TaskRun codec object_store s t
      → TaskStep codec object_store tenant t u
      → TaskRun codec object_store s u

module _ (codec : Codec) (object_store : LocalObjectStore) where
  -- An operation for one tenant leaves the tasks of every other tenant as they were, where the
  -- identifiers of tasks are unique.
  pub other_tenants_unchanged :
      (tenant other : String) {s s' : Store}
      → IsKeyed task_key s.tasks
      → TaskStep codec object_store tenant s s'
      → tenant ≢ other
      → select (λ (t : Task). t.tenant_id == other) s'.tasks
        ≡ select (λ (t : Task). t.tenant_id == other) s.tasks
  other_tenants_unchanged tenant other {s} u step ne =
      TaskChange-select tenant other (TaskStep-change codec object_store tenant s u step) ne

  pub TaskRun-IsKeyed :
      {s s' : Store}
      → TaskRun codec object_store s s'
      → IsKeyed task_key s.tasks
      → IsKeyed task_key s'.tasks
  TaskRun-IsKeyed start u = u
  TaskRun-IsKeyed (next {t = t} tenant run step) u =
      let before = TaskRun-IsKeyed run u in
      TaskChange-IsKeyed tenant (TaskStep-change codec object_store tenant t before step) before

  -- Whatever operations follow, of any tenants, a task stays in the table under its identifier,
  -- with its tenant, agent, type, arguments, timeout and time of creation.
  pub task_persists :
      {s s' : Store} (k : String) (t : Task)
      → IsKeyed task_key s.tasks
      → TaskRun codec object_store s s'
      → fetchone (with_task_id k) s.tasks ≡ some t
      → (u : Task) × (fetchone (with_task_id k) s'.tasks ≡ some u) × KeepsTask t u
  task_persists k t keyed start found = (t, found, KeepsTask-refl t)
  task_persists k t keyed (next {t = between} tenant run step) found =
      let (u, at, kept) = task_persists k t keyed run found in
      let (v, now_at, kept') =
        TaskChange-fetchone tenant k u
          (TaskStep-change codec object_store tenant between (TaskRun-IsKeyed run keyed) step) at in
      (v, now_at, KeepsTask-trans t u v kept kept')
