-- ===== src/System/Holding/Steps.antt =====
-- Every step of a running server keeps the invariant.
use spartan_x.Prelude.{
  ℕ, suc, ℤ, ◌≢◌, ◌+◌, ◌-◌, ◌≤◌, ◌<◌, ◌≡◌, refl, sym, ap, subst, ◌∙◌, Bool, List, ◌∷◌, ◌++◌, length,
  arith, done,
}
use spartan_x.Object.{Object, kept, free_server, retain, release}
use spartan_x.Object.Owners.{owned, retain-owned}
use spartan_x.Server.{Server}
use spartan_x.Acceptor.{Verdict, answer, enter, leave}
use spartan_x.Connection.{settled}
use spartan_x.System.{
  System, leaving, left, Actor, Step, calls, enters, tests, looks, checks, takes, quits, begins,
  reads, rounds, Serving, between, in_round, met, ends, Run, stay, later, with_obj, dispatched,
  Starts,
}
use spartan_x.System.Calls.{obey-Restates}
use spartan_x.System.Starting.{server_start-retains}
use spartan_x.System.Leaving.{leave-kept}
use spartan_x.System.Holding.{
  recounted, restated-IsValid, tested-IsValid, looked-IsValid, checked-IsValid, received-IsValid,
  begins-IsValid, released, IsValid, holders, in_loop, guests_in, at_accept, length-middle,
  length-replaced,
}

answer-stays :
    (server : Server) (accepted : ℤ) (admits : Bool)
    → (answer server accepted admits ≢ Verdict.leaves)
      × (answer server accepted admits ≢ Verdict.waits)
unfolding answer
answer-stays server accepted admits = ground arith

module _ {owners max_guest : ℕ} where
  ends-IsValid :
      {s : System} (before after : List Serving) (c : Serving) {obj : Object}
      → owners + 1 + max_guest < 410
      → 0 < owners
      → s.conns ≡ before ++ c ∷ after
      → release s.server.obj ≡ done (kept obj)
      → IsValid owners max_guest s
      → IsValid owners max_guest (record s {
        server = with_obj s.server obj;
        count = s.count - 1;
        conns = before ++ after;
      })
  ends-IsValid {s} before after c few owner e h v =
      let n : length s.conns ≡ suc (length (before ++ after)) =
        ap length e ∙ length-middle before c after in
      let k = owners + in_loop s.acceptor + length (before ++ after) - 1 in
      let e2 : suc (suc k) ≡ holders owners s = omega (arith, n, owner) in
      record {
        limited = v.limited;
        counted = omega (arith, v.counted, n);
        bounded = omega (arith, v.bounded);
        held = released s k few v e2 h ∙ ap (λ n. owned n free_server) (omega (arith, owner));
      }

  quits-IsValid :
      {s : System} {b : Server} {told : Bool}
      → owners + 1 + max_guest < 410
      → 0 < owners
      → s.acceptor ≡ leaving
      → leave s.server ≡ done (b, told)
      → IsValid owners max_guest s
      → IsValid owners max_guest (record s { server = b; acceptor = left })
  quits-IsValid {s} few owner on h v =
      let (obj, e, same) = leave-kept s.server h in
      let k = owners - 1 + length s.conns in
      let in_it : in_loop s.acceptor ≡ 1 = ap in_loop on in
      let e2 : suc (suc k) ≡ holders owners s = omega (arith, owner, in_it) in
      subst (λ b. IsValid owners max_guest (record s { server = b; acceptor = left })) (sym same)
        (record {
          limited = v.limited;
          counted = omega (arith, v.counted, ap at_accept on);
          bounded = v.bounded;
          held = released s k few v e2 e ∙ ap (λ n. owned n free_server) (omega (arith, owner));
        })

  replaced-IsValid :
      {s : System} (before after : List Serving) (c d : Serving)
      → s.conns ≡ before ++ c ∷ after
      → IsValid owners max_guest s
      → IsValid owners max_guest (record s { conns = before ++ d ∷ after })
  replaced-IsValid {s} before after c d e v =
      let n : length s.conns ≡ length (before ++ d ∷ after) =
        ap length e ∙ length-replaced before c d after in
      record {
        limited = v.limited;
        counted = omega (arith, v.counted, n);
        bounded = v.bounded;
        held = recounted s v (omega (arith, n));
      }

  Step-IsValid :
      {s t : System} {a : Actor}
      → owners + 1 + max_guest < 410
      → 0 < owners
      → Step s a t
      → IsValid owners max_guest s
      → IsValid owners max_guest t
  unfolding enter
  Step-IsValid {s} few owner (calls net c e) v = restated-IsValid (obey-Restates net c s.server e) v
  Step-IsValid {s} few owner (enters e) v = record {
    limited = v.limited;
    counted = omega (arith, v.counted, ap at_accept e);
    bounded = v.bounded;
    held = recounted s v (omega (arith, ap in_loop e));
  }
  Step-IsValid few owner (tests e) v = tested-IsValid e v
  Step-IsValid few owner (looks sock e) v = looked-IsValid e v
  Step-IsValid few owner (checks small e) v = checked-IsValid e v
  Step-IsValid {s} few owner (takes accepted admits sock e sound) v =
      let (stays, on) = answer-stays s.server accepted admits in
      received-IsValid (answer s.server accepted admits) e stays on sound v
  Step-IsValid few owner (quits on e) v = quits-IsValid few owner on e v
  Step-IsValid few owner (begins e) v = begins-IsValid few e v
  Step-IsValid {s} few owner (reads r before after c e) v =
      replaced-IsValid before after (between c)
        (in_round (record c { status = settled (met s r) c })) e v
  Step-IsValid {s} few owner (rounds r before after c {c'} e turn) v =
      replaced-IsValid before after (in_round c) (between c') e v
  Step-IsValid few owner (ends r before after c e turn h) v =
      ends-IsValid before after (in_round c) few owner e h v

  pub Run-IsValid :
      {s t : System} {actors : List Actor}
      → owners + 1 + max_guest < 410
      → 0 < owners
      → Run s actors t
      → IsValid owners max_guest s
      → IsValid owners max_guest t
  Run-IsValid few owner stay v = v
  Run-IsValid few owner (later run step) v =
      Step-IsValid few owner step (Run-IsValid few owner run v)

pub dispatched-IsValid :
    {owners : ℕ} (server : Server) {started : Server}
    → server.obj ≡ owned owners free_server
    → owners < 410
    → Starts server started
    → IsValid owners server.max_guest (dispatched started)
dispatched-IsValid {owners} server owns few starts =
    let same = server_start-retains server starts in
    subst (λ b. IsValid owners server.max_guest (dispatched b)) (sym same)
      (record {
        limited = refl;
        counted = refl;
        bounded = omega arith;
        held =
            ap retain owns
            ∙ retain-owned owners free_server few
            ∙ ap (λ n. owned n free_server) (omega arith);
      })

-- Of a server that the program owns, with fewer than 410 owners and places for guests together with
-- the accepting loop, after any interleaving of its threads and of calls of the program: the count of
-- its object is the number of its owners, its accepting loop if it has not ended, and its connections;
-- the slots that are taken are those of the blocks that have not begun, of the connections, of the guests
-- that were turned away and of the guest that the loop is accepting, and they are at most `max_guest`.
pub Run-holders :
    {owners : ℕ} (server : Server) {started : Server} {actors : List Actor} {s : System}
    → server.obj ≡ owned owners free_server
    → 0 < owners
    → owners + 1 + server.max_guest < 410
    → Starts server started
    → Run (dispatched started) actors s
    → (s.server.obj ≡ owned (holders owners s) free_server)
      × (s.count ≡ guests_in s + s.turned_away + at_accept s.acceptor)
      × (s.count ≤ server.max_guest)
Run-holders server owns owner few starts run =
    let v = Run-IsValid few owner run (dispatched-IsValid server owns (omega arith) starts) in
    (v.held, v.counted, v.bounded)
