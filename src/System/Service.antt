-- ===== src/System/Service.antt =====
-- What a server promises to somebody who sees only whether it takes guests and how many it has.
use spartan_x.Prelude.{ℕ, ◌+◌, suc, ◌≤◌, ◌<◌, ◌≡◌, ◌⊎◌, inl, inr, ◌∙◌, arith}

pub data Phase : Type 0 where
  booting opened closing closed : Phase

-- `expected` is the number of guests, 1 at most, that the door was opened for and that did not come yet.
pub record View : Type 0 where
  pub phase : Phase
  pub guests : ℕ
  pub expected : ℕ

-- A server for `max_guest` guests boots once, then opens the door for guests, one at a time, until it is
-- ordered to close, and never again; a guest that the door was opened for may come behind the order, and
-- guests leave at any time.
pub data Moves (max_guest : ℕ) (v w : View) : Type 0 where
  boots :
      v.phase ≡ booting
      → w.phase ≡ opened
      → w.guests ≡ v.guests
      → w.expected ≡ v.expected
      → Moves max_guest v w
  lets_in :
      v.phase ≡ opened
      → w.phase ≡ opened
      → w.guests ≡ v.guests
      → v.expected ≡ 0
      → w.expected ≡ 1
      → Moves max_guest v w
  arrives :
      w.phase ≡ v.phase
      → v.guests < max_guest
      → w.guests ≡ suc v.guests
      → v.expected ≡ 1
      → w.expected ≡ 0
      → Moves max_guest v w
  stays_away :
      w.phase ≡ v.phase
      → w.guests ≡ v.guests
      → v.expected ≡ 1
      → w.expected ≡ 0
      → Moves max_guest v w
  departs :
      w.phase ≡ v.phase → v.guests ≡ suc w.guests → w.expected ≡ v.expected → Moves max_guest v w
  orders :
      v.phase ≡ opened
      → w.phase ≡ closing
      → w.guests ≡ v.guests
      → w.expected ≡ v.expected
      → Moves max_guest v w
  closes :
      v.phase ≡ closing
      → w.phase ≡ closed
      → w.guests ≡ v.guests
      → w.expected ≡ v.expected
      → Moves max_guest v w
  rests : w.phase ≡ v.phase → w.guests ≡ v.guests → w.expected ≡ v.expected → Moves max_guest v w

pub data History (max_guest : ℕ) (v : View) : View → Type 0 where
  begun : History max_guest v v
  goes_on : {w x : View} → History max_guest v w → Moves max_guest w x → History max_guest v x

-- It lets nobody in any more.
abbrev pub Shut : View → Type 0
Shut v = (v.phase ≡ closing) ⊎ (v.phase ≡ closed)

same_Shut : {p q : Phase} → q ≡ p → (p ≡ closing) ⊎ (p ≡ closed) → (q ≡ closing) ⊎ (q ≡ closed)
same_Shut same (inl h) = inl (same ∙ h)
same_Shut same (inr h) = inr (same ∙ h)

Moves-Shut :
    {max_guest : ℕ} {v w : View}
    → Moves max_guest v w
    → Shut v
    → Shut w × (w.guests + w.expected ≤ v.guests + v.expected)
Moves-Shut (boots e e2 g x) (inl h) = cc
Moves-Shut (boots e e2 g x) (inr h) = cc
Moves-Shut (lets_in e e2 g x y) (inl h) = cc
Moves-Shut (lets_in e e2 g x y) (inr h) = cc
Moves-Shut (arrives same room g x y) h = (same_Shut same h, omega arith)
Moves-Shut (stays_away same g x y) h = (same_Shut same h, omega arith)
Moves-Shut (departs same g x) h = (same_Shut same h, omega arith)
Moves-Shut (orders e e2 g x) (inl h) = cc
Moves-Shut (orders e e2 g x) (inr h) = cc
Moves-Shut (closes e e2 g x) h = (inr e2, omega arith)
Moves-Shut (rests same g x) h = (same_Shut same h, omega arith)

pub History-Shut :
    {max_guest : ℕ} {v w : View}
    → History max_guest v w
    → Shut v
    → Shut w × (w.guests + w.expected ≤ v.guests + v.expected)
History-Shut begun h = (h, omega arith)
History-Shut (goes_on before m) h =
    let (shut, fewer) = History-Shut before h in
    let (shut2, fewer2) = Moves-Shut m shut in (shut2, omega (arith, fewer, fewer2))
