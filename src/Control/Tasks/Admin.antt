-- ===== src/Control/Tasks/Admin.antt =====
-- Tasks as administrators see them (api/store.py, expire_stale_tasks to
-- retry_task, list_tasks, get_task, pending_tasks_count).
use Prim.Native.Nat.{◌*◌}
use shigure_edr.Base.{
  ℕ, ◌+◌, ◌-◌, String, Bool, true, false, ◌&&◌, Option, none, some, List, [], ◌∷◌, length, ltb, leb,
  ◌==◌, if◌then◌else◌, is_text, or_default, contains,
}
use shigure_edr.Base.Int.{ℤ, pos, lez}
use shigure_edr.Base.Table.{select, fetchone, update, rowcount}
use shigure_edr.Base.Sort.{descending, limit}
use shigure_edr.Control.Schema.{Time, Task, Store}
use shigure_edr.Control.Tasks.{is_queued_for}

abbrev pub is_claimed_in : String → Task → Bool
is_claimed_in tenant_id t = t.tenant_id == tenant_id && t.status == "claimed"

-- `(now - claimed_at).total_seconds() >= timeout_seconds`, in microseconds. A claim that lies
-- ahead of the clock has a negative age, which only a negative timeout does not exceed.
abbrev pub age : Time → Time → ℤ
age now claimed_at =
    if leb claimed_at now then pos (now - claimed_at) else ℤ.negsuc (claimed_at - now - 1)

abbrev pub micros : ℤ → ℤ
micros (pos n) = pos (n * 1000000)
micros (ℤ.negsuc n) = ℤ.negsuc ((n + 1) * 1000000 - 1)

abbrev pub has_timed_out : Time → Task → Bool
has_timed_out now t = elim t.claimed_at [
  | none ↦ false
  | some claimed_at ↦ lez (micros t.timeout_seconds) (age now claimed_at)
]

-- The loop that collects the identifiers.
unfoldable pub expired_ids : Time → List Task → List String
expired_ids now [] = []
expired_ids now (row ∷ rows) =
    let rest = expired_ids now rows in if has_timed_out now row then row.task_id ∷ rest else rest

abbrev pub is_task_in : String → String → Task → Bool
is_task_in tenant_id task_id t = t.tenant_id == tenant_id && t.task_id == task_id

abbrev pub time_out : Time → Task → Task
time_out now t = record t {
  status = "timed_out";
  completed_at = some now;
  error = some "task_claim_timeout";
}

-- The `executemany`; its rows draw one instant here.
unfoldable pub time_out_each : Time → String → List String → List Task → List Task
time_out_each now tenant_id [] tasks = tasks
time_out_each now tenant_id (task_id ∷ ids) tasks =
    time_out_each now tenant_id ids (update (is_task_in tenant_id task_id) (time_out now) tasks)

unfoldable pub expire_stale_tasks : Time → Time → String → Store → ℕ × Store
unfolding expired_ids time_out_each
expire_stale_tasks now written_at tenant_id s =
    let expired = expired_ids now (select (is_claimed_in tenant_id) s.tasks) in
    (length expired, record s { tasks = time_out_each written_at tenant_id expired s.tasks })

abbrev pub is_cancellable : String → String → Task → Bool
is_cancellable tenant_id task_id t =
    is_task_in tenant_id task_id t && contains ("queued" ∷ "claimed" ∷ []) t.status

abbrev pub cancel : Time → Task → Task
cancel now t = record t {
  status = "cancelled";
  completed_at = some now;
  error = some "cancelled_by_admin";
}

unfoldable pub cancel_task : Time → String → String → Store → Bool × Store
cancel_task now tenant_id task_id s = (
  ltb 0 (rowcount (is_cancellable tenant_id task_id) s.tasks),
  record s { tasks = update (is_cancellable tenant_id task_id) (cancel now) s.tasks },
)

abbrev pub is_retriable : String → String → Task → Bool
is_retriable tenant_id task_id t =
    is_task_in tenant_id task_id t && contains ("failed" ∷ "timed_out" ∷ "cancelled" ∷ []) t.status

abbrev pub requeue : Task → Task
requeue t = record t {
  status = "queued";
  claimed_at = none;
  completed_at = none;
  error = none;
  result = none;
}

unfoldable pub retry_task : String → String → Store → Bool × Store
retry_task tenant_id task_id s = (
  ltb 0 (rowcount (is_retriable tenant_id task_id) s.tasks),
  record s { tasks = update (is_retriable tenant_id task_id) requeue s.tasks },
)

abbrev is_listed : String → Option String → Option String → Task → Bool
is_listed tenant_id agent_id status t =
    t.tenant_id == tenant_id
    && (if is_text agent_id then t.agent_id == or_default agent_id "" else true)
    && (if is_text status then t.status == or_default status "" else true)

unfoldable pub list_tasks : String → Option String → Option String → ℤ → Store → List Task
list_tasks tenant_id agent_id status n s =
    limit n (
      descending (λ (t : Task). t.created_at)
        (select (is_listed tenant_id agent_id status) s.tasks))

unfoldable pub get_task : String → String → Store → Option Task
get_task tenant_id task_id s = fetchone (is_task_in tenant_id task_id) s.tasks

unfoldable pub pending_tasks_count : String → String → Store → ℕ
pending_tasks_count tenant_id agent_id s = rowcount (is_queued_for tenant_id agent_id) s.tasks
