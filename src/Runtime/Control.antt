-- ===== src/Runtime/Control.antt =====
-- When a runtime object can be suspended and resumed.
use spartan_x.Prelude.{◌<◌, ◌≡◌, ◌≢◌, ◌⊎◌, inl, inr, some, [], ◌∷◌, arith, u32_mod, Bool-cases}
use spartan_x.Status.{
  sx_success, sx_status_idle, sx_status_running, sx_status_resuming, sx_status_suspend, negated,
  check_status,
}
use spartan_x.Status.Checks.{
  contains, negated-fails, check_compatible-hit, check_compatible-miss, check_status-success,
  check_status-miss,
}
use spartan_x.Runtime.{RuntimeObject, suspend_object, resume_object}

-- For an object with a 32-bit status, `SXSuspendObject` suspends an idle or running object, and
-- refuses any other with its negated status and leaves it unchanged.
pub suspend_object_lem :
    (o : RuntimeObject)
    → o.status < u32_mod
    → (((o.status ≡ sx_status_idle) ⊎ (o.status ≡ sx_status_running))
        × (suspend_object (some o) ≡ (some (record o { status = sx_status_suspend }), sx_success)))
      ⊎ ((o.status ≢ sx_status_idle)
          × (o.status ≢ sx_status_running)
          × (suspend_object (some o) ≡ (some o, negated o.status)))
unfolding suspend_object
suspend_object_lem o h =
    elim (Bool-cases (contains o.status (sx_status_idle ∷ sx_status_running ∷ []))) [
      | inl e ↦ inl (ground arith, rw (check_compatible-hit o.status _ e))
      | inr e ↦
          let idle : o.status ≢ sx_status_idle = ground arith in
          inr (
            idle,
            ground arith,
            rw (check_compatible-miss o.status _ e, negated-fails o.status h idle),
          )
    ]

-- For an object with a 32-bit status, `SXResumeObject` marks a suspended object, and an idle one
-- too, as resuming, and refuses any other with its negated status and leaves it unchanged.
pub resume_object_lem :
    (o : RuntimeObject)
    → o.status < u32_mod
    → (((o.status ≡ sx_status_suspend) ⊎ (o.status ≡ sx_status_idle))
        × (resume_object (some o) ≡ (some (record o { status = sx_status_resuming }), sx_success)))
      ⊎ ((o.status ≢ sx_status_suspend)
          × (o.status ≢ sx_status_idle)
          × (resume_object (some o) ≡ (some o, negated o.status)))
unfolding resume_object
resume_object_lem o h =
    elim (Bool-cases (contains o.status (sx_status_suspend ∷ sx_status_idle ∷ []))) [
      | inl e ↦ inl (ground arith, rw (accepted (ground arith)))
      | inr e ↦
          let idle : o.status ≢ sx_status_idle = ground arith in
          let other : o.status ≢ sx_status_suspend = ground arith in
          inr (other, idle, rw (refused other, negated-fails o.status h idle))
    ]
  where
    accepted :
        (o.status ≡ sx_status_suspend) ⊎ (o.status ≡ sx_status_idle)
        → check_status o.status sx_status_suspend ≡ sx_success
    accepted c = (check_status-success o.status sx_status_suspend h).1 c

    refused :
        o.status ≢ sx_status_suspend → check_status o.status sx_status_suspend ≡ negated o.status
    refused other = check_status-miss o.status sx_status_suspend other
