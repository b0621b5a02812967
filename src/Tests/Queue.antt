-- ===== src/Tests/Queue.antt =====
-- Runs on the queue of tasks.
use shigure_edr.Base.{
  String, ◌≡◌, refl, ◌≢◌, some, [], ◌∷◌, arith, ◌==◌, eq_iff, here, In, there, ◌⊎◌, ◌≤◌,
}
use shigure_edr.Base.Int.{pos}
use shigure_edr.Base.Table.{fetchone, select, update, rowcount}
use shigure_edr.Base.Keys.{IsKeyed}
use shigure_edr.Base.Sort.{sort_by, insert_by}
use shigure_edr.Control.Schema.{Time, Task, Store}
use shigure_edr.Control.Tasks.{task_key, claim, claim_tasks, claimable, claim_each, with_task_id}
use shigure_edr.Control.Tasks.Admin.{cancel_task, pending_tasks_count}
use shigure_edr.Control.Tasks.Queue.{claimed_was_queued, claimed_is_stored, claim_twice_disjoint}
use shigure_edr.Control.Tasks.Drain.{handed_out, queued_is_handed_out}
use shigure_edr.Control.Tasks.Order.{oldest_first}
use shigure_edr.Control.Tasks.Rewrites.{KeepsTask}
use shigure_edr.Control.Tasks.Steps.{cancelled, start, next, other_tenants_unchanged, task_persists}
use shigure_edr.Tests.Data.{task_of, two_tasks, codec, object_store}

keyed : IsKeyed task_key two_tasks.tasks
unfolding fetchone
keyed = (refl, (refl, tt))

abbrev after_claim : Store
after_claim = record two_tasks { tasks = claim 30 (task_of 20 "task-1") ∷ task_of 21 "task-2" ∷ [] }

first_claim :
    claim_tasks 30 "default" "agent-1" (pos 1) two_tasks
    ≡ (claim 30 (task_of 20 "task-1") ∷ [], after_claim)
unfolding claim_tasks claimable claim_each select sort_by insert_by update
first_claim = refl

first_out :
    In (claim 30 (task_of 20 "task-1")) (claim_tasks 30 "default" "agent-1" (pos 1) two_tasks).0
first_out = rw first_claim here

second_out :
    In
      (claim 31 (task_of 21 "task-2"))
      (claim_tasks 31 "default" "agent-1"
        (pos 1)
        (claim_tasks 30 "default" "agent-1" (pos 1) two_tasks).1).0
unfolding claim_tasks claimable claim_each select sort_by insert_by update
second_out = here

claimed_was_queued_example :
    (row : Task) × In row two_tasks.tasks
    × (row.tenant_id ≡ "default")
    × (row.agent_id ≡ "agent-1")
    × (row.status ≡ "queued")
    × (claim 30 (task_of 20 "task-1") ≡ claim 30 row)
claimed_was_queued_example =
    claimed_was_queued 30 "default" "agent-1" (pos 1) two_tasks (claim 30 (task_of 20 "task-1"))
      first_out

claimed_is_stored_example :
    fetchone (with_task_id "task-1") (claim_tasks 30 "default" "agent-1" (pos 1) two_tasks).1.tasks
    ≡ some (claim 30 (task_of 20 "task-1"))
claimed_is_stored_example =
    claimed_is_stored 30 "default" "agent-1" (pos 1) two_tasks (claim 30 (task_of 20 "task-1"))
      keyed first_out

claim_twice_disjoint_example : ◌≢◌ {A = String} "task-1" "task-2"
claim_twice_disjoint_example =
    claim_twice_disjoint 30 31 "default" "agent-1" "default" "agent-1" (pos 1) (pos 1) two_tasks
      (claim 30 (task_of 20 "task-1")) (claim 31 (task_of 21 "task-2")) keyed first_out second_out

other_tenants_unchanged_example :
    select
      (λ (t : Task). t.tenant_id == "default")
      (cancel_task 40 "other" "task-1" two_tasks).1.tasks
    ≡ select (λ (t : Task). t.tenant_id == "default") two_tasks.tasks
other_tenants_unchanged_example =
    other_tenants_unchanged codec object_store "other" "default" keyed (cancelled 40 "task-1")
      (ground (arith, eq_iff "other" "default"))

found_first : fetchone (with_task_id "task-1") two_tasks.tasks ≡ some (task_of 20 "task-1")
unfolding fetchone
found_first = refl

task_persists_example :
    (u : Task) × (fetchone
        (with_task_id "task-1")
        (cancel_task 40 "default" "task-1" two_tasks).1.tasks
      ≡ some u)
    × KeepsTask (task_of 20 "task-1") u
task_persists_example =
    task_persists codec object_store "task-1" (task_of 20 "task-1") keyed
      (next "default" start (cancelled 40 "task-1")) found_first

two_in_queue : pending_tasks_count "default" "agent-1" two_tasks ≤ 2
unfolding pending_tasks_count rowcount
two_in_queue = omega arith

queued_is_handed_out_example :
    (now : Time) × In
      (claim now (task_of 21 "task-2"))
      (handed_out "default" "agent-1" ((30, 0) ∷ (31, 0) ∷ []) two_tasks)
queued_is_handed_out_example =
    queued_is_handed_out "default" "agent-1" ((30, 0) ∷ (31, 0) ∷ []) two_tasks
      (task_of 21 "task-2") keyed (there here) refl two_in_queue

oldest_first_example :
    In (claim 30 (task_of 21 "task-2")) (claim_tasks 30 "default" "agent-1" (pos 1) two_tasks).0
    ⊎ (20 ≤ 21)
oldest_first_example =
    oldest_first 30 "default" "agent-1" (pos 1) two_tasks (claim 30 (task_of 20 "task-1"))
      (task_of 21 "task-2") first_out (there here) refl
