-- ===== src/Api/Safety.antt =====
-- The read-only policy over the life of the tasks (api/app.py, create_task; api/store.py): no
-- operation turns a task that the policy does not allow into one that an agent can get.
pub mod Enforcement
use mathlib.Core.Path.{subst}
use shigure_edr.Base.{
  String, ◌≡◌, refl, sym, ap, ◌∙◌, ◌≢◌, ◌⊎◌, Bool, true, false, ◌&&◌, Option, none, some, List, [],
  ◌∷◌, ◌++◌, arith, ◌==◌, eq_iff, if◌then◌else◌, Option-cases, Bool-cases, inl, inr, In, here,
  there, In-cons, All, All-In, ok,
}
use shigure_edr.Base.Int.{ℤ}
use shigure_edr.Base.Table.{select, update, In-update, In-select, All-update-In}
use shigure_edr.Base.Keys.{IsKeyed, IsKeyed-In}
use shigure_edr.Base.Dict.{Dict}
use shigure_edr.Json.{Json}
use shigure_edr.Catalog.{read_only_policy_block, validate_task_args}
use shigure_edr.Control.Schema.{Time, Task}
use shigure_edr.Control.Tasks.{task_key, with_task_id, claim, claim_each, claimable, is_queued_for}
use shigure_edr.Control.Tasks.Admin.{
  is_claimed_in, expired_ids, is_task_in, time_out, time_out_each, has_timed_out,
}
use shigure_edr.Control.Tasks.Queue.{In-claimable}

-- The policy lets the task through, and its definition takes the arguments.
pub record IsAllowed (t : Task) : Type 0 where
  pub policy : read_only_policy_block t.task_type ≡ none
  pub arguments : validate_task_args t.task_type t.args ≡ ok tt

abbrev pub IsGuarded : Task → Type 0
IsGuarded t = IsAllowed t ⊎ (t.status ≡ "blocked_by_policy")

pub IsAllowed-moved :
    (t u : Task) → u.task_type ≡ t.task_type → u.args ≡ t.args → IsAllowed t → IsAllowed u
IsAllowed-moved t u type args a = record {
  policy = ap read_only_policy_block type ∙ a.policy;
  arguments = rw (type, args) a.arguments;
}

-- A guarded task in another state is allowed.
pub IsAllowed-of_status :
    (t : Task) → IsGuarded t → (t.status == "blocked_by_policy") ≡ false → IsAllowed t
IsAllowed-of_status t (inl a) h = a
IsAllowed-of_status t (inr e) h = absurd (ground (arith, eq_iff t.status "blocked_by_policy"))

-- Updates that touch allowed tasks only, and leave their type and arguments.
pub update-IsGuarded :
    (p : Task → Bool) (f : Task → Task) (tasks : List Task)
    → All IsGuarded tasks
    → ((t : Task) → ((f t).task_type ≡ t.task_type) × ((f t).args ≡ t.args))
    → ((t : Task) → In t tasks → p t ≡ true → IsAllowed t)
    → All IsGuarded (update p f tasks)
update-IsGuarded p f tasks g keeps touched =
    All-update-In IsGuarded p f tasks g
      (λ t m e guarded. inl (IsAllowed-moved t (f t) (keeps t).0 (keeps t).1 (touched t m e)))

-- The tasks under an identifier are allowed.
abbrev IsAllowedAt : List Task → String → Type 0
IsAllowedAt tasks id = (t : Task) → In t tasks → t.task_id ≡ id → IsAllowed t

IsAllowedAt-if :
    (b : Bool) (f : Task → Task) (x : Task)
    → ((t : Task) → ((f t).task_type ≡ t.task_type) × ((f t).args ≡ t.args))
    → IsAllowed x
    → IsAllowed (if b then f x else x)
IsAllowedAt-if true f x keeps a = IsAllowed-moved x (f x) (keeps x).0 (keeps x).1 a
IsAllowedAt-if false f x keeps a = a

id-if :
    (b : Bool) (f : Task → Task) (x : Task)
    → (f x).task_id ≡ x.task_id
    → (if b then f x else x).task_id ≡ x.task_id
id-if true f x e = e
id-if false f x e = refl

IsAllowedAt-update :
    (id : String) (p : Task → Bool) (f : Task → Task) (tasks : List Task)
    → ((t : Task) → ((f t).task_type ≡ t.task_type) × ((f t).args ≡ t.args))
    → ((t : Task) → (f t).task_id ≡ t.task_id)
    → IsAllowedAt tasks id
    → IsAllowedAt (update p f tasks) id
IsAllowedAt-update id p f tasks keeps same allowed t m e =
    let (x, n, from) = In-update p f tasks t m in
    subst IsAllowed (sym from) (
      IsAllowedAt-if (p x) f x keeps (
        allowed x n (sym (id-if (p x) f x (same x)) ∙ sym (ap (λ (y : Task). y.task_id) from) ∙ e)))

pub claim_each-IsGuarded :
    (now : Time) (rows tasks : List Task)
    → All IsGuarded tasks
    → ((row : Task) → In row rows → IsAllowedAt tasks row.task_id)
    → All IsGuarded (claim_each now rows tasks)
unfolding claim_each
claim_each-IsGuarded now [] tasks g allowed = g
claim_each-IsGuarded now (row ∷ rows) tasks g allowed =
    let p = with_task_id row.task_id in
    claim_each-IsGuarded now rows (update p (claim now) tasks)
      (update-IsGuarded p (claim now) tasks g (λ t. (refl, refl))
        (λ t m e. allowed row here t m ((eq_iff t.task_id row.task_id).0 e)))
      (λ r m.
        IsAllowedAt-update r.task_id p (claim now) tasks (λ t. (refl, refl)) (λ t. refl)
          (allowed r (there m)))

pub time_out_each-IsGuarded :
    (now : Time) (tenant_id : String) (ids : List String) (tasks : List Task)
    → All IsGuarded tasks
    → ((id : String) → In id ids → IsAllowedAt tasks id)
    → All IsGuarded (time_out_each now tenant_id ids tasks)
unfolding time_out_each
time_out_each-IsGuarded now tenant_id [] tasks g allowed = g
time_out_each-IsGuarded now tenant_id (id ∷ ids) tasks g allowed =
    let p = is_task_in tenant_id id in
    time_out_each-IsGuarded now tenant_id ids (update p (time_out now) tasks)
      (update-IsGuarded p (time_out now) tasks g (λ t. (refl, refl))
        (λ t m e. allowed id here t m (ground (arith, e, eq_iff t.task_id id))))
      (λ k m.
        IsAllowedAt-update k p (time_out now) tasks (λ t. (refl, refl)) (λ t. refl)
          (allowed k (there m)))

-- An identifier that is to expire is one of a row that was read.
In-expired_ids :
    (now : Time) (rows : List Task) (id : String)
    → In id (expired_ids now rows)
    → (row : Task) × In row rows × (row.task_id ≡ id)
unfolding expired_ids
In-expired_ids now [] id m = elim m [ ]
In-expired_ids now (row ∷ rows) id m = elim (Bool-cases (has_timed_out now row)) [
  | inl e ↦ elim (In-cons {a = id} {x = row.task_id} (rw e at m)) [
    | inl same ↦ (row, here, same)
    | inr later ↦ let (r, n, at) = In-expired_ids now rows id later in (r, there n, at)
  ]
  | inr e ↦ let (r, n, at) = In-expired_ids now rows id (rw e at m) in (r, there n, at)
]

module _ (tasks : List Task) (u : IsKeyed task_key tasks) (g : All IsGuarded tasks) where
  -- In a keyed table the row of an identifier speaks for it.
  IsAllowedAt-row :
      (row : Task)
      → In row tasks
      → (row.status == "blocked_by_policy") ≡ false
      → IsAllowedAt tasks row.task_id
  IsAllowedAt-row row m other t n e =
      subst IsAllowed (sym (IsKeyed-In task_key tasks row t u m n e))
        (IsAllowed-of_status row (All-In IsGuarded tasks g m) other)

  pub claimable-IsAllowedAt :
      (tenant_id agent_id : String) (max_tasks : ℤ) (row : Task)
      → In row (claimable tenant_id agent_id max_tasks tasks)
      → IsAllowedAt tasks row.task_id
  claimable-IsAllowedAt tenant_id agent_id max_tasks row m =
      let (inside, test) = In-claimable tenant_id agent_id max_tasks tasks row m in
      IsAllowedAt-row row inside (
        ground (
          arith,
          test,
          eq_iff row.status "queued",
          eq_iff row.status "blocked_by_policy",
          eq_iff "queued" "blocked_by_policy",
        ))

  pub expired_ids-IsAllowedAt :
      (now : Time) (tenant_id id : String)
      → In id (expired_ids now (select (is_claimed_in tenant_id) tasks))
      → IsAllowedAt tasks id
  expired_ids-IsAllowedAt now tenant_id id m =
      let (row, n, at) = In-expired_ids now (select (is_claimed_in tenant_id) tasks) id m in
      let (inside, test) = In-select (is_claimed_in tenant_id) tasks row n in
      subst (IsAllowedAt tasks) at (
        IsAllowedAt-row row inside (
          ground (
            arith,
            test,
            eq_iff row.status "claimed",
            eq_iff row.status "blocked_by_policy",
            eq_iff "claimed" "blocked_by_policy",
          )))
