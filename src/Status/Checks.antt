-- ===== src/Status/Checks.antt =====
-- What the status checks of SXQueue.c accept.
use spartan_x.Prelude.{
  ◌<◌, ◌≡◌, ◌≢◌, ◌↔◌, ◌⊎◌, ◌||◌, Bool, true, false, inl, inr, refl, List, [], ◌∷◌, arith, ◌==◌,
  u32_mod, ==-ne, Bool-cases,
}
use spartan_x.Status.{
  SxStatus, sx_success, sx_status_idle, check_status, check_compatible_status,
  check_incompatible_status, negated, succeeded,
}

abbrev pub contains : SxStatus → List SxStatus → Bool
contains current [] = false
contains current (a ∷ array) = (current == a) || contains current array

-- A check that refuses a status other than idle returns the status with its sign turned.
pub negated-idle :
    (current : SxStatus) → current < u32_mod → negated current ≡ sx_success → current ≡ 0
negated-idle current h e = ground arith

pub negated-fails :
    (current : SxStatus) → current < u32_mod → current ≢ 0 → succeeded (negated current) ≡ false
negated-fails current h k = ground arith

-- For every 32-bit status, `SXCheckStatus` succeeds exactly if the status is the required one or
-- is idle, the status whose negation is the success code.
pub check_status-success :
    (current required : SxStatus)
    → current < u32_mod
    → (check_status current required ≡ sx_success)
      ↔ ((current ≡ required) ⊎ (current ≡ sx_status_idle))
unfolding check_status
check_status-success current required h = (λ e. ground arith, λ e. ground arith)

pub check_status-miss :
    (current required : SxStatus)
    → current ≢ required
    → check_status current required ≡ negated current
unfolding check_status
check_status-miss current required h = rw (==-ne h)

pub check_compatible-hit :
    (current : SxStatus) (array : List SxStatus)
    → contains current array ≡ true
    → check_compatible_status current array ≡ sx_success
unfolding check_compatible_status
check_compatible-hit current [] h = cc
check_compatible-hit current (a ∷ array) h = ground (arith, check_compatible-hit current array)

pub check_compatible-miss :
    (current : SxStatus) (array : List SxStatus)
    → contains current array ≡ false
    → check_compatible_status current array ≡ negated current
unfolding check_compatible_status
check_compatible-miss current [] h = refl
check_compatible-miss current (a ∷ array) h = ground (arith, check_compatible-miss current array)

pub check_incompatible-hit :
    (current : SxStatus) (array : List SxStatus)
    → contains current array ≡ true
    → check_incompatible_status current array ≡ negated current
unfolding check_incompatible_status
check_incompatible-hit current [] h = cc
check_incompatible-hit current (a ∷ array) h = ground (arith, check_incompatible-hit current array)

pub check_incompatible-miss :
    (current : SxStatus) (array : List SxStatus)
    → contains current array ≡ false
    → check_incompatible_status current array ≡ sx_success
unfolding check_incompatible_status
check_incompatible-miss current [] h = refl
check_incompatible-miss current (a ∷ array) h =
    ground (arith, check_incompatible-miss current array)

-- For every 32-bit status and every array, `SXCheckCompatibleStatus` succeeds exactly if the
-- status stands in the array or is idle.
pub check_compatible_status-success :
    (current : SxStatus) (array : List SxStatus)
    → current < u32_mod
    → (check_compatible_status current array ≡ sx_success)
      ↔ ((contains current array ≡ true) ⊎ (current ≡ sx_status_idle))
check_compatible_status-success current array h = elim (Bool-cases (contains current array)) [
  | inl e ↦ (λ _. inl e, λ _. check_compatible-hit current array e)
  | inr e ↦
      rw (check_compatible-miss current array e)
        (λ s. inr (negated-idle current h s), λ c. elim c [ inl t ↦ cc | inr z ↦ rw z ])
]

-- For every 32-bit status and every array, `SXCheckIncompatibleStatus` succeeds exactly if the
-- status does not stand in the array or is idle.
pub check_incompatible_status-success :
    (current : SxStatus) (array : List SxStatus)
    → current < u32_mod
    → (check_incompatible_status current array ≡ sx_success)
      ↔ ((contains current array ≡ false) ⊎ (current ≡ sx_status_idle))
check_incompatible_status-success current array h = elim (Bool-cases (contains current array)) [
  | inl e ↦
      rw (check_incompatible-hit current array e)
        (λ s. inr (negated-idle current h s), λ c. elim c [ inl t ↦ cc | inr z ↦ rw z ])
  | inr e ↦ (λ _. inl e, λ _. check_incompatible-miss current array e)
]
