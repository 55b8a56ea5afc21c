-- ===== src/System/Holding.antt =====
-- Who is served by a running server, and who holds it: the invariant, and what keeps it.
pub mod Steps
use spartan_x.Prelude.{
  ℕ, ◌≢◌, suc, ◌+◌, ◌-◌, ◌≤◌, ◌<◌, ◌≡◌, ◌≢◌, refl, sym, ap, subst, ◌∙◌, Bool, true, false, List, [],
  ◌∷◌, ◌++◌, length, length-append, arith, Outcome, crash, done, >>=-eq-done, done-injective,
}
use spartan_x.Status.{SxStatus, sx_status_idle}
use spartan_x.Object.{Object, Released, kept, deallocates, free_server, retain, release}
use spartan_x.Object.Owners.{owned, retain-owned, release-owned}
use spartan_x.Server.{Server, with_status}
use spartan_x.Acceptor.{Verdict, leaves, waits, serves, turns_away, crashes, answer}
use spartan_x.Acceptor
use spartan_x.Connection.{start}
use spartan_x.System.{
  System, Point, starting, testing, listening, checking, taking, leaving, left, with_obj, tested,
  looked, checked, numbered, received, Serving, between,
}
use spartan_x.System.Calls.{Restates, obey-Restates}

-- The reference of the accepting loop.
abbrev pub in_loop : Point → ℕ
in_loop left = 0
in_loop _ = 1

abbrev pub holders : ℕ → System → ℕ
holders owners s = owners + in_loop s.acceptor + length s.conns

-- The guests in service, and the one that the accepting loop took a slot for.
abbrev pub guests_in : System → ℕ
guests_in s = s.pending + length s.conns

abbrev pub at_accept : Point → ℕ
at_accept taking = 1
at_accept _ = 0

pub record IsValid (owners max_guest : ℕ) (s : System) : Type 0 where
  pub limited : s.server.max_guest ≡ max_guest
  pub counted : s.count ≡ guests_in s + s.turned_away + at_accept s.acceptor
  pub bounded : s.count ≤ max_guest
  pub held : s.server.obj ≡ owned (holders owners s) free_server

in_loop-looked : (status : SxStatus) → in_loop (looked status) ≡ 1
in_loop-looked status = ground arith

at_accept-looked : (status : SxStatus) → at_accept (looked status) ≡ 0
at_accept-looked status = ground arith

in_loop-checked : (server : Server) (count : ℕ) → in_loop (checked server count) ≡ 1
in_loop-checked server count = ground arith

pub numbered-checked :
    (server : Server) (count : ℕ)
    → numbered (checked server count) count ≡ count + at_accept (checked server count)
numbered-checked server count = ground arith

checked-bounded :
    (server : Server) (count : ℕ)
    → count ≤ server.max_guest
    → numbered (checked server count) count ≤ server.max_guest
checked-bounded server count h = ground arith

pub at_accept-tested : (status : SxStatus) → at_accept (tested status) ≡ 0
at_accept-tested status = ground arith

pub in_loop-tested : (status : SxStatus) → in_loop (tested status) ≡ 1
in_loop-tested status = ground arith

in_loop-bounded : (point : Point) → in_loop point ≤ 1
in_loop-bounded point = ground arith

pub kept-injective : {a b : Object} → kept a ≡ kept b → a ≡ b
kept-injective e = cc

pub length-middle :
    (before : List Serving) (c : Serving) (after : List Serving)
    → length (before ++ c ∷ after) ≡ suc (length (before ++ after))
length-middle before c after =
    omega (arith, length-append before (c ∷ after), length-append before after)

pub length-replaced :
    (before : List Serving) (c d : Serving) (after : List Serving)
    → length (before ++ c ∷ after) ≡ length (before ++ d ∷ after)
length-replaced before c d after = length-middle before c after ∙ sym (length-middle before d after)

module _ {owners max_guest : ℕ} where
  pub restated-IsValid :
      {s : System} {b : Server}
      → Restates s.server b
      → IsValid owners max_guest s
      → IsValid owners max_guest (record s { server = b })
  restated-IsValid {s} p v =
      subst (λ b. IsValid owners max_guest (record s { server = b })) (sym p.same)
        (record { limited = v.limited; counted = v.counted; bounded = v.bounded; held = v.held })

  -- The count of the server's object follows the number of its holders.
  pub recounted :
      (s : System) {n : ℕ}
      → IsValid owners max_guest s
      → n ≡ holders owners s
      → s.server.obj ≡ owned n free_server
  recounted s v e = v.held ∙ ap (λ n. owned n free_server) (sym e)

  pub tested-IsValid :
      {s : System}
      → s.acceptor ≡ testing
      → IsValid owners max_guest s
      → IsValid owners max_guest (record s { acceptor = tested s.server.status })
  tested-IsValid {s} at v = record {
    limited = v.limited;
    counted = omega (arith, v.counted, ap at_accept at, at_accept-tested s.server.status);
    bounded = v.bounded;
    held = recounted s v (omega (arith, ap in_loop at, in_loop-tested s.server.status));
  }

  pub looked-IsValid :
      {s : System}
      → s.acceptor ≡ listening
      → IsValid owners max_guest s
      → IsValid owners max_guest (record s { acceptor = looked s.server.status })
  looked-IsValid {s} at v = record {
    limited = v.limited;
    counted = omega (arith, v.counted, ap at_accept at, at_accept-looked s.server.status);
    bounded = v.bounded;
    held = recounted s v (omega (arith, ap in_loop at, in_loop-looked s.server.status));
  }

  pub checked-IsValid :
      {s : System}
      → s.acceptor ≡ checking
      → IsValid owners max_guest s
      → IsValid owners max_guest (record s {
        acceptor = checked s.server s.count;
        count = numbered (checked s.server s.count) s.count;
      })
  checked-IsValid {s} at v = record {
    limited = v.limited;
    counted = omega (arith, v.counted, ap at_accept at, numbered-checked s.server s.count);
    bounded = omega (arith, v.limited, v.bounded, checked-bounded s.server s.count);
    held = recounted s v (omega (arith, ap in_loop at, in_loop-checked s.server s.count));
  }

  pub received-IsValid :
      {s : System} (w : Verdict)
      → s.acceptor ≡ taking
      → w ≢ Verdict.leaves
      → w ≢ Verdict.waits
      → w ≢ Verdict.crashes
      → IsValid owners max_guest s
      → IsValid owners max_guest (received w s)
  received-IsValid {s} serves at l w c v = record {
    limited = v.limited;
    counted = omega (arith, v.counted, ap at_accept at);
    bounded = v.bounded;
    held = recounted s v (omega (arith, ap in_loop at));
  }
  received-IsValid {s} turns_away at l w c v = record {
    limited = v.limited;
    counted = omega (arith, v.counted, ap at_accept at);
    bounded = v.bounded;
    held = recounted s v (omega (arith, ap in_loop at));
  }
  received-IsValid leaves at l w c v = absurd (l refl)
  received-IsValid waits at l w c v = absurd (w refl)
  received-IsValid crashes at l w c v = absurd (c refl)

  pub few_holders :
      (s : System)
      → owners + 1 + max_guest < 410
      → IsValid owners max_guest s
      → holders owners s < 410
  few_holders s few v = omega (arith, v.counted, v.bounded, in_loop-bounded s.acceptor)

  pub begins-IsValid :
      {s : System} {pending : ℕ}
      → owners + 1 + max_guest < 410
      → s.pending ≡ suc pending
      → IsValid owners max_guest s
      → IsValid owners max_guest (record s {
        server = with_obj s.server (retain s.server.obj);
        pending = pending;
        conns = between start ∷ s.conns;
      })
  begins-IsValid {s} few e v = record {
    limited = v.limited;
    counted = omega (arith, v.counted);
    bounded = v.bounded;
    held =
        ap retain v.held
        ∙ retain-owned (holders owners s) free_server (few_holders s few v)
        ∙ ap (λ n. owned n free_server) (omega arith);
  }

  -- A release by one of at least two holders.
  pub release-kept :
      (s : System) (k : ℕ)
      → owners + 1 + max_guest < 410
      → IsValid owners max_guest s
      → suc (suc k) ≡ holders owners s
      → release s.server.obj ≡ done (kept (owned (suc k) free_server))
  release-kept s k few v e =
      ap release (recounted s v e)
      ∙ release-owned k free_server (omega (arith, few_holders s few v))

  pub released :
      (s : System) (k : ℕ) {obj : Object}
      → owners + 1 + max_guest < 410
      → IsValid owners max_guest s
      → suc (suc k) ≡ holders owners s
      → release s.server.obj ≡ done (kept obj)
      → obj ≡ owned (suc k) free_server
  released s k few v e h = kept-injective (done-injective (sym h ∙ release-kept s k few v e))
