-- ===== src/Control/Enrollment/Uses.antt =====
-- The uses of an enrollment token (api/store.py, enroll_agent and create_enrollment_token).
use mathlib.Core.Path.{subst}
use mathlib.Core.Option.{some-injective, some-ne-none}
use shigure_edr.Base.{
  Bool-cases, ◌==◌, if◌then◌else◌, ◌≤◌, ℕ, ◌+◌, String, ◌≡◌, refl, sym, ◌∙◌, ◌↔◌, Bool, true, false,
  ◌||◌, Option, none, some, List, arith, eqb, eq_iff, Option-cases, inl, inr, All, ok,
}
use shigure_edr.Base.Int.{ℤ, pos, negsuc, lez}
use shigure_edr.Base.Table.{
  fetchone-update, fetchone, update, has_key, insert_or_replace, In-fetchone, All-append,
  All-update, All-update-In, All-remove, fetchone_test,
}
use shigure_edr.Base.Keys.{
  IsKeyed, IsKeyed-In, IsKeyed-update, insert_or_replace-IsKeyed, fetchone-insert_or_replace_other,
}
use shigure_edr.Control.Schema.{Time, Draw, EnrollmentToken, Store}
use shigure_edr.Control.Enrollment.{
  token_key, create_enrollment_token, revoke_enrollment_token, ensure_tenant, usable_token,
  use_once, is_used_up, is_expired, EnrollmentRequest, Enrolled, enroll_agent,
}
use shigure_edr.Control.Credentials.Effects.{enroll_tables}

-- A token that the checks of `enroll_agent` let through.
pub record IsUsable (now : Time) (t : EnrollmentToken) : Type 0 where
  pub live : t.revoked ≡ false
  pub current : is_expired now t.expires_at ≡ false
  pub left : is_used_up t.uses t.max_uses ≡ false

pub IsUsable-iff :
    (now : Time) (t : EnrollmentToken) → (usable_token now (some t) ≡ ok t) ↔ IsUsable now t
unfolding usable_token
IsUsable-iff now t = (
  λ h. record { live = ground arith; current = ground arith; left = ground arith },
  λ u. ground (arith, u.live, u.current, u.left),
)

-- The uses stay within the limit, if there is one.
abbrev pub within : ℕ → Option ℤ → Bool
within uses none = true
within uses (some m) = eqb uses 0 || lez (pos uses) m

abbrev pub IsWithinLimit : EnrollmentToken → Type 0
IsWithinLimit t = within t.uses t.max_uses ≡ true

within-next :
    (uses : ℕ) (max_uses : Option ℤ)
    → is_used_up uses max_uses ≡ false
    → within (uses + 1) max_uses ≡ true
within-next uses none h = refl
within-next uses (some (pos m)) h = ground arith
within-next uses (some (negsuc m)) h = ground arith

-- What is done with enrollment tokens.
pub data TokenStep (s : Store) : Store → Type 0 where
  created :
      (now : Time) (drawn tenant_id : String) (token : Option String) (max_uses : Option ℤ)
      (expires_at : Option Time)
      → TokenStep s (create_enrollment_token now drawn tenant_id token max_uses expires_at s).1
  revoked : (tenant_id token : String) → TokenStep s (revoke_enrollment_token tenant_id token s).1
  used :
      {s' : Store} (now : Time) (agent_id agent_token : String) (draw : Draw)
      (req : EnrollmentRequest) (r : Enrolled)
      → enroll_agent now agent_id agent_token draw req s ≡ ok (r, s')
      → TokenStep s s'

pub data TokenRun (s : Store) : Store → Type 0 where
  start : TokenRun s s
  next : {t u : Store} → TokenRun s t → TokenStep t u → TokenRun s u

abbrev pub IsLimited : Store → Type 0
IsLimited s = IsKeyed token_key s.enrollment_tokens × All IsWithinLimit s.enrollment_tokens

within-zero : (max_uses : Option ℤ) → within 0 max_uses ≡ true
within-zero none = refl
within-zero (some m) = refl

use_once-IsLimited :
    (now : Time) (k : String) (tokens : List EnrollmentToken) (t : EnrollmentToken)
    → IsKeyed token_key tokens
    → All IsWithinLimit tokens
    → fetchone (has_key token_key k) tokens ≡ some t
    → IsUsable now t
    → All IsWithinLimit (update (has_key token_key k) use_once tokens)
use_once-IsLimited now k tokens t u g found usable =
    All-update-In IsWithinLimit (has_key token_key k) use_once tokens g (λ x m test limited.
      let same =
        IsKeyed-In token_key tokens t x u (In-fetchone (has_key token_key k) tokens found) m (
          (eq_iff x.token k).0 test
          ∙ sym ((eq_iff t.token k).0 (fetchone_test (has_key token_key k) tokens t found))) in
      subst (λ (y : EnrollmentToken). within (y.uses + 1) y.max_uses ≡ true) (sym same)
        (within-next t.uses t.max_uses usable.left))

module _ (s : Store) where
  TokenStep-IsLimited : {s' : Store} → TokenStep s s' → IsLimited s → IsLimited s'
  unfolding create_enrollment_token ensure_tenant revoke_enrollment_token insert_or_replace
  TokenStep-IsLimited (created now drawn tenant_id token max_uses expires_at) (u, g) = (
    insert_or_replace-IsKeyed token_key _ s.enrollment_tokens u,
    All-append IsWithinLimit _ _ (All-remove IsWithinLimit _ s.enrollment_tokens g)
        (within-zero max_uses, tt),
  )
  TokenStep-IsLimited (revoked tenant_id token) (u, g) = (
    IsKeyed-update token_key _ _ s.enrollment_tokens (λ t. refl) u,
    All-update IsWithinLimit _ _ s.enrollment_tokens g (λ t e h. h),
  )
  TokenStep-IsLimited (used {s' = s'} now agent_id agent_token draw req r h) (u, g) =
      let (t, found, usable, _, _, e) = enroll_tables draw s s' now agent_id agent_token req r h in
      subst IsLimited (sym e) (
        IsKeyed-update token_key (has_key token_key req.enrollment_token) use_once
            s.enrollment_tokens (λ t. refl) u,
        use_once-IsLimited now req.enrollment_token s.enrollment_tokens t u g found
            ((IsUsable-iff now t).0 usable),
      )

-- How many agents have enrolled with a token since it was last made, after one more step.
abbrev pub counted : {s s' : Store} → String → ℕ → TokenStep s s' → ℕ
counted {s = s} k n (created now drawn tenant_id token max_uses expires_at) =
    if (create_enrollment_token now drawn tenant_id token max_uses expires_at s).0 == k
    then 0
    else n
counted k n (revoked tenant_id token) = n
counted k n (used now agent_id agent_token draw req r h) =
    if req.enrollment_token == k then n + 1 else n

abbrev pub enrollments : {s s' : Store} → String → TokenRun s s' → ℕ
enrollments k start = 0
enrollments k (next run step) = counted k (enrollments k run) step

-- The row of the token counts at least that many.
abbrev AreCounted : String → ℕ → List EnrollmentToken → Type 0
AreCounted k n tokens =
    (t : EnrollmentToken) → fetchone (has_key token_key k) tokens ≡ some t → n ≤ t.uses

-- A change of rows that keeps the key and does not lower the uses.
AreCounted-update :
    (k : String) (n : ℕ) (p : EnrollmentToken → Bool) (f : EnrollmentToken → EnrollmentToken)
    (tokens : List EnrollmentToken)
    → ((t : EnrollmentToken) → has_key token_key k (f t) ≡ has_key token_key k t)
    → ((t : EnrollmentToken) → t.uses ≤ (f t).uses)
    → AreCounted k n tokens
    → AreCounted k n (update p f tokens)
AreCounted-update k n p f tokens same more h t found =
    let key = has_key token_key k in
    let e = sym (fetchone-update key p f tokens same) ∙ found in
    elim (Option-cases (fetchone key tokens)) [
      | inl none_there ↦ absurd (some-ne-none t (sym (rw none_there at e)))
      | inr (x, there) ↦
          let is_t = some-injective (if p x then f x else x) t (rw there at e) in
          subst (λ (y : EnrollmentToken). n ≤ y.uses) is_t (ground (arith, h x there, more x))
    ]

use_once-AreCounted :
    (k j : String) (n : ℕ) (tokens : List EnrollmentToken)
    → AreCounted k n tokens
    → AreCounted k (if j == k then n + 1 else n) (update (has_key token_key j) use_once tokens)
use_once-AreCounted k j n tokens h = elim (Bool-cases (j == k)) [
  | inr e ↦ rw e (
      AreCounted-update k n (has_key token_key j) use_once tokens (λ t. refl) (λ t. ground arith) h)
  | inl e ↦ rw e (λ t found.
      let key = has_key token_key k in
      let made =
        sym (fetchone-update key (has_key token_key j) use_once tokens (λ x. refl)) ∙ found in
      elim (Option-cases (fetchone key tokens)) [
        | inl none_there ↦ absurd (some-ne-none t (sym (rw none_there at made)))
        | inr (x, there) ↦
            let is_t =
              some-injective (if has_key token_key j x then use_once x else x) t
                (rw there at made) in
            subst (λ (y : EnrollmentToken). n + 1 ≤ y.uses) is_t
              (ground (
                arith,
                h x there,
                eq_iff j k,
                eq_iff x.token k,
                eq_iff x.token j,
                fetchone_test key tokens x there,
                e,
              ))
      ])
]

counted-AreCounted :
    {s s' : Store} (k : String) (n : ℕ) (step : TokenStep s s')
    → AreCounted k n s.enrollment_tokens
    → AreCounted k (counted k n step) s'.enrollment_tokens
unfolding create_enrollment_token ensure_tenant revoke_enrollment_token
counted-AreCounted {s = s} k n (created now drawn tenant_id token max_uses expires_at) h =
    let step = create_enrollment_token now drawn tenant_id token max_uses expires_at s in
    elim (Bool-cases (step.0 == k)) [
      | inl e ↦ rw e (λ t found. ground arith)
      | inr e ↦ rw e (λ t found.
          h t (sym (fetchone-insert_or_replace_other token_key k _ s.enrollment_tokens e) ∙ found))
    ]
counted-AreCounted {s = s} k n (revoked tenant_id token) h =
    AreCounted-update k n _ _ s.enrollment_tokens (λ t. refl) (λ t. ground arith) h
counted-AreCounted {s = s} k n (used {s' = s'} now agent_id agent_token draw req r h) g =
    let (t, found, _, _, _, e) = enroll_tables draw s s' now agent_id agent_token req r h in
    subst
      (λ (x : Store).
        AreCounted k (counted k n (used now agent_id agent_token draw req r h)) x.enrollment_tokens)
      (sym e) (use_once-AreCounted k req.enrollment_token n s.enrollment_tokens g)

pub TokenRun-IsLimited : {s s' : Store} → TokenRun s s' → IsLimited s → IsLimited s'
TokenRun-IsLimited start h = h
TokenRun-IsLimited (next {t = t} run step) h = TokenStep-IsLimited t step (TokenRun-IsLimited run h)

pub enrollments-AreCounted :
    {s s' : Store} (k : String) (run : TokenRun s s')
    → AreCounted k (enrollments k run) s'.enrollment_tokens
enrollments-AreCounted k start = λ t found. ground arith
enrollments-AreCounted k (next run step) =
    counted-AreCounted k (enrollments k run) step (enrollments-AreCounted k run)

pub within-fewer :
    (n uses : ℕ) (max_uses : Option ℤ)
    → n ≤ uses
    → within uses max_uses ≡ true
    → within n max_uses ≡ true
within-fewer n uses none le h = refl
within-fewer n uses (some (pos m)) le h = ground arith
within-fewer n uses (some (negsuc m)) le h = ground arith
