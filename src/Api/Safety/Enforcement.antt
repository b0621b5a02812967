-- ===== src/Api/Safety/Enforcement.antt =====
-- That only allowed tasks are handed out (api/app.py, create_task; api/store.py, claim_tasks to
-- retry_task).
use mathlib.Core.Path.{subst}
use shigure_edr.Base.{
  String, ◌≡◌, refl, sym, ap, ◌∙◌, ◌≢◌, true, false, Option, none, some, List, [], ◌∷◌, arith, ◌==◌,
  eq_iff, Option-cases, Bool-cases, inl, inr, In, All, All-In, ok, Result, err, value_error,
  task_argument_error, evidence_error, integrity_error, type_error, key_error, http_exception,
  test_of_ne, contains, ℕ, >>=-eq-ok, >>-eq-ok, ok_injective,
}
use shigure_edr.Base.Int.{ℤ}
use shigure_edr.Base.Table.{select, fetchone, insert, All-append}
use shigure_edr.Base.Keys.{IsKeyed, insert-IsKeyed, insert-eq-ok}
use shigure_edr.Base.Dict
use shigure_edr.Base.Dict.{Dict}
use shigure_edr.Json.{Json, str, text_at}
use shigure_edr.Evidence.{Codec, LocalObjectStore}
use shigure_edr.Catalog.{read_only_policy_block, validate_task_args, policy_audit}
use shigure_edr.Control.Schema.{Time, Task, Store}
use shigure_edr.Control.Evidence.{insert_raw_evidence}
use shigure_edr.Control.Tasks.{
  with_task_id, task_key, claim_tasks, claimable, complete_task, is_task_of, queued_task,
  blocked_task,
}
use shigure_edr.Control.Tasks.Admin.{
  is_claimed_in, expired_ids, expire_stale_tasks, cancel, cancel_task, is_cancellable, requeue,
  retry_task, is_retriable,
}
use shigure_edr.Control.Tasks.Queue.{claimed_was_queued}
use shigure_edr.Control.Tasks.Steps.{
  TaskStep-change, TaskChange-IsKeyed, claimed, completed, expired, cancelled, retried,
  create_tables, create_blocked_tables,
}
use shigure_edr.Api.Runtime.{Runtime, task_policy_block}
use shigure_edr.Api.AgentRoutes.{http_error}
use shigure_edr.Api.TaskRoutes.{task_row, TaskCreateRequest, dispatched, create_task_request}
use shigure_edr.Api.Safety.{
  IsAllowed, IsAllowed-moved, IsGuarded, IsAllowed-of_status, update-IsGuarded,
  claim_each-IsGuarded, time_out_each-IsGuarded, claimable-IsAllowedAt, expired_ids-IsAllowedAt,
}

http_error-ok {ℓ} :
    {A : Type ℓ} (code : ℕ) (m : Result A) (a : A) → http_error code m ≡ ok a → m ≡ ok a
http_error-ok code (ok b) a h = h
http_error-ok code (err (value_error m)) a h = cc
http_error-ok code (err (task_argument_error m)) a h = cc
http_error-ok code (err (evidence_error m)) a h = cc
http_error-ok code (err (integrity_error m)) a h = cc
http_error-ok code (err type_error) a h = cc
http_error-ok code (err (key_error m)) a h = cc
http_error-ok code (err (http_exception n m)) a h = cc

task_row-ok :
    (s : Store) (o : Option Task) (row : Task) (s' : Store) → task_row s o ≡ ok (row, s') → s ≡ s'
task_row-ok s none row s' h = cc
task_row-ok s (some t) row s' h = ap (λ (x : Task × Store). x.1) (ok_injective h)

read_only_mode :
    (r : Runtime) (task_type : String)
    → r.response_mode ≡ "read_only"
    → task_policy_block r task_type ≡ read_only_policy_block task_type
unfolding task_policy_block
read_only_mode r task_type mode = ground (arith, mode, eq_iff r.response_mode "read_only")

module _ (now : Time) (task_id : String) (req : TaskCreateRequest) (s s' : Store) where
  dispatched_lem :
      (id : String)
      → dispatched now task_id req s (read_only_policy_block req.task_type) ≡ ok (id, s')
      → (t : Task) × (insert task_key t s.tasks ≡ ok s'.tasks) × IsGuarded t
  dispatched_lem id h = elim (Option-cases (read_only_policy_block req.task_type)) [
    | inl e ↦
        let (valid, made) = >>-eq-ok (validate_task_args req.task_type req.args) _ (rw e at h) in
        (
          queued_task now task_id req.tenant_id req.agent_id req.task_type req.args
              req.timeout_seconds (some (policy_audit req.task_type req.args req.requested_by)),
          create_tables now task_id req.tenant_id req.agent_id req.task_type req.args
              req.timeout_seconds (some (policy_audit req.task_type req.args req.requested_by)) s s'
              id made,
          inl (record { policy = e; arguments = valid }),
        )
    | inr (block, e) ↦
        let block' = Dict.put "requested_by" (str req.requested_by) block in
        (
          blocked_task now task_id req.tenant_id req.agent_id req.task_type req.args
              (text_at "reason" block') block',
          create_blocked_tables now task_id req.tenant_id req.agent_id req.task_type req.args
              (text_at "reason" block') block' s s' id (rw e at h),
          inr refl,
        )
  ]

  -- What the route inserts is guarded.
  create_task_request_lem :
      (r : Runtime) (row : Task)
      → r.response_mode ≡ "read_only"
      → create_task_request r now task_id req s ≡ ok (row, s')
      → (t : Task) × (insert task_key t s.tasks ≡ ok s'.tasks) × IsGuarded t
  unfolding create_task_request
  create_task_request_lem r row mode h =
      let ((id, made), given, shown) =
        >>=-eq-ok
          (http_error 400 (dispatched now task_id req s (task_policy_block r req.task_type))) _ h in
      let same = task_row-ok made (fetchone (with_task_id id) made.tasks) row s' shown in
      let block = task_policy_block r req.task_type in
      dispatched_lem id (
        subst (λ b. dispatched now task_id req s b ≡ ok (id, s'))
          (read_only_mode r req.task_type mode)
          (subst (λ x. dispatched now task_id req s block ≡ ok (id, x)) same
            (http_error-ok 400 (dispatched now task_id req s block) (id, made) given)))

queued_ne_blocked : ◌≢◌ {A = String} "queued" "blocked_by_policy"
queued_ne_blocked = ground (arith, eq_iff "queued" "blocked_by_policy")

claimed_ne_blocked : ◌≢◌ {A = String} "claimed" "blocked_by_policy"
claimed_ne_blocked = ground (arith, eq_iff "claimed" "blocked_by_policy")

contains_open :
    (names : List String) (x : String)
    → contains names "blocked_by_policy" ≡ false
    → contains names x ≡ true
    → (x == "blocked_by_policy") ≡ false
contains_open names x out h = elim (Bool-cases (x == "blocked_by_policy")) [
  | inl e ↦ absurd (
      ground
        (arith, subst (λ y. contains names y ≡ true) ((eq_iff x "blocked_by_policy").0 e) h, out))
  | inr e ↦ e
]

cancellable_open :
    (tenant_id task_id : String) (t : Task)
    → is_cancellable tenant_id task_id t ≡ true
    → (t.status == "blocked_by_policy") ≡ false
cancellable_open tenant_id task_id t h =
    contains_open ("queued" ∷ "claimed" ∷ []) t.status refl (ground (arith, h))

retriable_open :
    (tenant_id task_id : String) (t : Task)
    → is_retriable tenant_id task_id t ≡ true
    → (t.status == "blocked_by_policy") ≡ false
retriable_open tenant_id task_id t h =
    contains_open ("failed" ∷ "timed_out" ∷ "cancelled" ∷ []) t.status refl (ground (arith, h))

-- What the application does with tasks. An agent reports a result only for a task that it claimed.
pub data ApiStep (r : Runtime) (codec : Codec) (object_store : LocalObjectStore) (s : Store)
    : Store → Type 0 where
  requested :
      {s' : Store} (now : Time) (task_id : String) (req : TaskCreateRequest) (row : Task)
      → create_task_request r now task_id req s ≡ ok (row, s')
      → ApiStep r codec object_store s s'
  handed_out :
      (now : Time) (tenant_id agent_id : String) (max_tasks : ℤ)
      → ApiStep r codec object_store s (claim_tasks now tenant_id agent_id max_tasks s).1
  reported :
      (stored_at now : Time) (tenant_id agent_id task_id status : String) (result : Dict Json)
      (error : Option String)
      → ((t : Task)
          → In t s.tasks
          → is_task_of tenant_id agent_id task_id t ≡ true
          → t.status ≡ "claimed")
      → ApiStep r codec object_store s (
          complete_task codec object_store stored_at now tenant_id agent_id task_id status result
            error s)
  timed_out :
      (now written_at : Time) (tenant_id : String)
      → ApiStep r codec object_store s (expire_stale_tasks now written_at tenant_id s).1
  called_off :
      (now : Time) (tenant_id task_id : String)
      → ApiStep r codec object_store s (cancel_task now tenant_id task_id s).1
  queued_again :
      (tenant_id task_id : String)
      → ApiStep r codec object_store s (retry_task tenant_id task_id s).1

pub data ApiRun (r : Runtime) (codec : Codec) (object_store : LocalObjectStore) (s : Store)
    : Store → Type 0 where
  begin : ApiRun r codec object_store s s
  after :
      {t u : Store}
      → ApiRun r codec object_store s t
      → ApiStep r codec object_store t u
      → ApiRun r codec object_store s u

abbrev pub IsSafe : Store → Type 0
IsSafe s = IsKeyed task_key s.tasks × All IsGuarded s.tasks

module _ (r : Runtime) (mode : r.response_mode ≡ "read_only") (codec : Codec)
    (object_store : LocalObjectStore) where
  ApiStep-IsSafe : {s s' : Store} → ApiStep r codec object_store s s' → IsSafe s → IsSafe s'
  unfolding claim_tasks complete_task insert_raw_evidence expire_stale_tasks cancel_task retry_task
  ApiStep-IsSafe {s} (requested {s' = s'} now task_id req row h) (u, g) =
      let (t, e, guarded) = create_task_request_lem now task_id req s s' r row mode h in
      (
        insert-IsKeyed task_key t s.tasks s'.tasks e u,
        rw (insert-eq-ok task_key t s.tasks s'.tasks e).1
            (All-append IsGuarded s.tasks (t ∷ []) g (guarded, tt)),
      )
  ApiStep-IsSafe {s} (handed_out now tenant_id agent_id max_tasks) (u, g) = (
    TaskChange-IsKeyed tenant_id
        (TaskStep-change codec object_store tenant_id s u (claimed now agent_id max_tasks)) u,
    claim_each-IsGuarded now (claimable tenant_id agent_id max_tasks s.tasks) s.tasks g
        (λ row m. claimable-IsAllowedAt s.tasks u g tenant_id agent_id max_tasks row m),
  )
  ApiStep-IsSafe {s} (reported stored_at now tenant_id agent_id task_id status result error honest)
        (u, g) =
      (
        TaskChange-IsKeyed tenant_id
            (TaskStep-change codec object_store tenant_id s u
              (completed stored_at now agent_id task_id status result error))
            u,
        update-IsGuarded (is_task_of tenant_id agent_id task_id) _ s.tasks g (λ t. (refl, refl))
            (λ t m e. IsAllowed-of_status t (All-In IsGuarded s.tasks g m) (
              test_of_ne t.status "blocked_by_policy"
                (λ q. claimed_ne_blocked (sym (honest t m e) ∙ q)))),
      )
  ApiStep-IsSafe {s} (timed_out now written_at tenant_id) (u, g) = (
    TaskChange-IsKeyed tenant_id
        (TaskStep-change codec object_store tenant_id s u (expired now written_at)) u,
    time_out_each-IsGuarded written_at tenant_id
        (expired_ids now (select (is_claimed_in tenant_id) s.tasks)) s.tasks g
        (λ id m. expired_ids-IsAllowedAt s.tasks u g now tenant_id id m),
  )
  ApiStep-IsSafe {s} (called_off now tenant_id task_id) (u, g) = (
    TaskChange-IsKeyed tenant_id
        (TaskStep-change codec object_store tenant_id s u (cancelled now task_id)) u,
    update-IsGuarded (is_cancellable tenant_id task_id) (cancel now) s.tasks g (λ t. (refl, refl))
        (λ t m e.
          IsAllowed-of_status t (All-In IsGuarded s.tasks g m)
            (cancellable_open tenant_id task_id t e)),
  )
  ApiStep-IsSafe {s} (queued_again tenant_id task_id) (u, g) = (
    TaskChange-IsKeyed tenant_id
        (TaskStep-change codec object_store tenant_id s u (retried task_id)) u,
    update-IsGuarded (is_retriable tenant_id task_id) requeue s.tasks g (λ t. (refl, refl))
        (λ t m e.
          IsAllowed-of_status t (All-In IsGuarded s.tasks g m)
            (retriable_open tenant_id task_id t e)),
  )

  ApiRun-IsSafe : {s s' : Store} → ApiRun r codec object_store s s' → IsSafe s → IsSafe s'
  ApiRun-IsSafe begin h = h
  ApiRun-IsSafe (after run step) h = ApiStep-IsSafe step (ApiRun-IsSafe run h)

  -- Whatever is requested, and however tasks are claimed, reported, timed out, cancelled and retried,
  -- an agent is only ever handed a task that the read-only policy lets through and whose definition
  -- takes its arguments: in the mode "read_only", from a state with unique identifiers in which this
  -- holds, and with agents that report results of tasks that are claimed.
  pub claim_tasks-IsAllowed :
      {s s' : Store} (now : Time) (tenant_id agent_id : String) (max_tasks : ℤ) (t : Task)
      → IsSafe s
      → ApiRun r codec object_store s s'
      → In t (claim_tasks now tenant_id agent_id max_tasks s').0
      → IsAllowed t
  claim_tasks-IsAllowed {s' = s'} now tenant_id agent_id max_tasks t safe run m =
      let (row, inside, _, _, status, e) =
        claimed_was_queued now tenant_id agent_id max_tasks s' t m in
      let guarded = All-In IsGuarded s'.tasks (ApiRun-IsSafe run safe).1 inside in
      IsAllowed-moved row t (ap (λ (x : Task). x.task_type) e) (ap (λ (x : Task). x.args) e) (
        IsAllowed-of_status row guarded
          (test_of_ne row.status "blocked_by_policy" (λ q. queued_ne_blocked (sym status ∙ q))))
