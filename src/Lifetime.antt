-- ===== src/Lifetime.antt =====
-- Who holds a server while it runs, over `SXServerStart` of src/SXServer.c: its owners, the accepting
-- loop and the connections. Each holder counts once in the server's object. The actions of the threads
-- are interleaved in a list.
pub mod Holding
pub mod Witness
use spartan_x.Prelude.{
  ℕ, ◌+◌, ◌-◌, Bool, true, false, not, List, [], ◌∷◌, ◌==◌, if◌then◌else◌, Outcome, crash, done,
  ◌>>=◌,
}
use spartan_x.Object
use spartan_x.Object.{Object, Released, kept, deallocates, retain, release}

-- The accepting loop, blocks that were dispatched for a guest and have not begun, connections behind
-- their `SXRetain`, and references that the program outside of the library owns.
pub record Holders : Type 0 where
  pub looping : Bool
  pub pending : ℕ
  pub serving : ℕ
  pub owners : ℕ

pub data Life : Type 0 where
  alive : Holders → Object → Life
  freed : Holders → Life

-- `dispatches` is the end of a pass that serves a guest, `begins` and `ends` are the first and the last
-- statements of a connection's block, and `leaves` is what stands behind the accepting loop.
pub data Action : Type 0 where
  owner_retains owner_releases dispatches begins ends leaves : Action

-- Whether there is somebody to act.
abbrev pub acts : Action → Holders → Bool
acts owner_retains h = not (h.owners == 0)
acts owner_releases h = not (h.owners == 0)
acts dispatches h = h.looping
acts begins h = not (h.pending == 0)
acts ends h = not (h.serving == 0)
acts leaves h = h.looping

abbrev pub after : Action → Holders → Holders
after owner_retains h = record h { owners = h.owners + 1 }
after owner_releases h = record h { owners = h.owners - 1 }
after dispatches h = record h { pending = h.pending + 1 }
after begins h = record h { pending = h.pending - 1; serving = h.serving + 1 }
after ends h = record h { serving = h.serving - 1 }
after leaves h = record h { looping = false }

unfoldable pub release_by : Holders → Object → Outcome Life
release_by h obj = release obj >>= λ r. (elim r [
  | kept left ↦ done (alive h left)
  | deallocates d left ↦ done (freed h)
])

-- `didKill_block` is read from the server after the loop's release.
unfoldable pub tell_did_kill : Life → Outcome Life
tell_did_kill (alive h obj) = done (alive h obj)
tell_did_kill (freed h) = crash

unfoldable pub act : Action → Holders → Object → Outcome Life
unfolding release_by tell_did_kill
act owner_retains h obj = done (alive h (retain obj))
act owner_releases h obj = release_by h obj
act dispatches h obj = done (alive h obj)
act begins h obj = done (alive h (retain obj))
act ends h obj = release_by h obj
act leaves h obj = release_by h obj >>= tell_did_kill

-- Every action reads the server.
unfoldable pub step : Action → Life → Outcome Life
unfolding act
step a (alive h obj) = if acts a h then act a (after a h) obj else done (alive h obj)
step a (freed h) = if acts a h then crash else done (freed h)

unfoldable pub run : List Action → Life → Outcome Life
unfolding step
run [] l = done l
run (a ∷ actions) l = step a l >>= run actions

-- `SXServerStart` retains the server before it dispatches the loop.
unfoldable pub launch : ℕ → Object → Life
launch owners obj =
    alive (record { looping = true; pending = 0; serving = 0; owners = owners }) (retain obj)
