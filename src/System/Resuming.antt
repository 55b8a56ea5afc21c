-- ===== src/System/Resuming.antt =====
-- What a running server does once it was resumed.
use spartan_x.Prelude.{
  ◌+◌, ◌-◌, ℕ, inl, inr, ◌≤◌, ◌≡◌, ◌≢◌, refl, sym, ap, subst, ◌∙◌, List, ◌∷◌, ◌++◌, length, arith,
  All,
}
use spartan_x.Status.{SxStatus, sx_status_resuming, sx_status_should_terminate}
use spartan_x.Loop.{goes_on, exits, events_of}
use spartan_x.Loop.Counting.{count, count-append}
use spartan_x.Server.{Server}
use spartan_x.Acceptor.{Verdict, answer}
use spartan_x.Connection.{Event, Round, Conn, settled, dispatch, epilogue}
use spartan_x.Connection.Events.{is_receive}
use spartan_x.System.Taking.{
  received-server, received-acceptor, received-conns, received-pending, stands_apart,
}
use spartan_x.System.Holding.{guests_in, length-middle, length-replaced}
use spartan_x.System.{
  System, starting, suspends, resumes, kills, obey, Actor, program, Step, calls, enters, tests,
  looks, checks, takes, quits, begins, reads, rounds, Serving, between, in_round, checked, ends,
  Run, stay, later, dispatched, tested, looked, received, greets, handlers_of, met, with_obj,
}
use spartan_x.System.Calls.{suspends-resuming, resumes-resuming, refused}
use spartan_x.System.Ordered.{IsOrdered, Answered, Answered-at, Run-IsOrdered, Ordered}
use spartan_x.System.Behind.{
  receives_of, receives_in, is_behind, behind, behind-middle, settled-is_behind, dispatch-receives,
  exits-is_behind, epilogue-no_receive,
}

-- A server that is resuming, whose loop has begun.
abbrev pub IsResuming : System → Type 0
IsResuming s = (s.acceptor ≢ starting) × (s.server.status ≡ sx_status_resuming)

-- The step is no order to terminate.
abbrev pub Spares : Actor → Type 0
Spares a = a ≢ program kills

tested-began : (status : SxStatus) → tested status ≢ starting
tested-began status = ground arith

looked-began : (status : SxStatus) → looked status ≢ starting
looked-began status = ground arith

checked-began : (server : Server) (count : ℕ) → checked server count ≢ starting
checked-began server count = ground arith

clash :
    {A : Type 0} {status : SxStatus}
    → status ≡ sx_status_should_terminate
    → status ≡ sx_status_resuming
    → A
clash e h = absurd (omega arith)

greets-no_receive : (s : System) → count is_receive (greets s) ≡ 0
greets-no_receive s = ground arith

received-guests : (w : Verdict) (s : System) → guests_in s ≤ guests_in (received w s)
received-guests w s = elim (received-pending w s) [
  | inl e ↦ omega (arith, e, ap (λ (conns : List Serving). length conns) (received-conns w s))
  | inr e ↦ omega (arith, e, ap (λ (conns : List Serving). length conns) (received-conns w s))
]

-- What a step of a resuming server may do: each connection that is behind calls `recv` once or ends,
-- at most, and no other connection does.
abbrev Quiets : System → ℕ → System → Type 0
Quiets s n t =
    (n + behind t.conns ≤ behind s.conns)
    × (guests_in s + behind t.conns ≤ guests_in t + behind s.conns)

read-Quiets :
    (s : System) (r : Round) (before after : List Serving) (c : Conn)
    → s.conns ≡ before ++ between c ∷ after
    → s.server.status ≡ sx_status_resuming
    → Quiets s 0 (record s {
      conns = before ++ in_round (record c { status = settled (met s r) c }) ∷ after;
    })
read-Quiets s r before after c e h =
    let d = in_round (record c { status = settled (met s r) c }) in
    let none_behind : is_behind d ≡ 0 = settled-is_behind (met s r) c h in
    let m = behind-middle before (between c) after in
    let m2 = behind-middle before d after in
    (
      omega (arith, ap behind e, m, m2, none_behind),
      omega (
        arith,
        ap behind e,
        ap length e,
        m,
        m2,
        none_behind,
        length-replaced before (between c) d after,
      ),
    )

round-Quiets :
    (s : System) (r : Round) (before after : List Serving) (c : Conn) {c' : Conn}
    {events : List Event}
    → s.conns ≡ before ++ in_round c ∷ after
    → dispatch (handlers_of s) r c ≡ goes_on c' events
    → Quiets s (count is_receive events) (record s { conns = before ++ between c' ∷ after })
round-Quiets s r before after c {c'} e turn =
    let few =
      subst (λ t. count is_receive (events_of t) ≤ is_behind (in_round c)) turn
        (dispatch-receives (handlers_of s) r c) in
    let m = behind-middle before (in_round c) after in
    let m2 = behind-middle before (between c') after in
    (
      omega (arith, ap behind e, m, m2, few),
      omega (
        arith,
        ap behind e,
        ap length e,
        m,
        m2,
        length-replaced before (in_round c) (between c') after,
      ),
    )

end-Quiets :
    (s : System) (r : Round) (before after : List Serving) (c : Conn) {events : List Event}
    (server : Server)
    → s.conns ≡ before ++ in_round c ∷ after
    → dispatch (handlers_of s) r c ≡ exits events
    → c.s ≢ 0
    → Quiets s
        (count is_receive (events ++ epilogue (handlers_of s)))
        (record s { server = server; count = s.count - 1; conns = before ++ after })
end-Quiets s r before after c {events} server e turn answered =
    let few =
      subst (λ t. count is_receive (events_of t) ≤ is_behind (in_round c)) turn
        (dispatch-receives (handlers_of s) r c) in
    let m = behind-middle before (in_round c) after in
    let one = exits-is_behind (handlers_of s) r c answered turn in
    (
      omega (
        arith,
        ap behind e,
        m,
        few,
        one,
        epilogue-no_receive (handlers_of s),
        count-append is_receive events (epilogue (handlers_of s)),
      ),
      omega (arith, ap behind e, ap length e, m, one, length-middle before (in_round c) after),
    )

Step-IsResuming :
    {s t : System} {a : Actor}
    → Spares a
    → Step s a t
    → IsOrdered s
    → IsResuming s
    → IsResuming t × Quiets s (receives_of a) t
Step-IsResuming {s} spares (calls net suspends e) v (began, h) =
    let same = refused (obey net suspends s.server) (suspends-resuming net s.server h) e in
    ((began, ap (λ (b : Server). b.status) same ∙ h), (omega arith, omega arith))
Step-IsResuming {s} spares (calls net resumes e) v (began, h) =
    let same = refused (obey net resumes s.server) (resumes-resuming net s.server h) e in
    ((began, ap (λ (b : Server). b.status) same ∙ h), (omega arith, omega arith))
Step-IsResuming {s} spares (calls net kills e) v (began, h) = absurd (spares refl)
Step-IsResuming spares (enters e) v (began, h) = absurd (began e)
Step-IsResuming {s} spares (tests e) v (began, h) =
    ((tested-began s.server.status, h), (omega arith, omega arith))
Step-IsResuming {s} spares (looks sock e) v (began, h) =
    ((looked-began s.server.status, h), (omega arith, omega arith))
Step-IsResuming {s} spares (checks small e) v (began, h) =
    ((checked-began s.server s.count, h), (omega arith, omega arith))
Step-IsResuming {s} spares (takes accepted admits sock e sound) v (began, h) =
    let w = answer s.server accepted admits in
    let stands = received-acceptor w s in
    let same = ap behind (received-conns w s) in
    (
      (λ q. stands_apart (sym stands ∙ q), ap (λ (b : Server). b.status) (received-server w s) ∙ h),
      (omega (arith, same), omega (arith, same, received-guests w s)),
    )
Step-IsResuming {s} spares (quits e q) v (began, h) =
    clash (subst (λ q. Ordered q s.server.status) e v.ordered) h
Step-IsResuming {s} spares (begins e) v i =
    (i, (omega (arith, greets-no_receive s), omega (arith, e)))
Step-IsResuming {s} spares (reads r before after c e) v i =
    (i, read-Quiets s r before after c e i.1)
Step-IsResuming {s} spares (rounds r before after c e turn) v i =
    (i, round-Quiets s r before after c e turn)
Step-IsResuming {s} spares (ends r before after c {obj = obj} e turn h) v i =
    let answered = Answered-at before after (in_round c) (subst Answered e v.answered) in
    (i, end-Quiets s r before after c (with_obj s.server obj) e turn answered)

Run-resumed :
    {s t : System} {actors : List Actor}
    → All Spares actors
    → Run s actors t
    → IsOrdered s
    → IsResuming s
    → IsResuming t × Quiets s (receives_in actors) t
Run-resumed spares stay v i = (i, (omega arith, omega arith))
Run-resumed spares (later run step) v i =
    let (i, quiet) = Run-resumed spares.1 run v i in
    let (i, quiet2) = Step-IsResuming spares.0 step (Run-IsOrdered run v) i in
    (i, (omega (arith, quiet.0, quiet2.0), omega (arith, quiet.1, quiet2.1)))

-- Once a server whose loop has begun is resuming, its status stays resuming whichever of
-- `SXSuspendServer` and `SXResumeServer` the program calls, as long as it does not call `SXKillServer`,
-- and however the threads are interleaved. The connections that are still in a round with a status that
-- they read before call `recv` or end once each at most, and no other connection calls `recv` or ends:
-- the calls of `recv` and the connections behind at the end are at most those behind at the beginning,
-- and by no more than their difference do the guests in service, the blocks that have not begun with the
-- connections, grow fewer.
pub Run-resuming :
    {started : Server} {before after : List Actor} {s t : System}
    → Run (dispatched started) before s
    → IsResuming s
    → All Spares after
    → Run s after t
    → (t.server.status ≡ sx_status_resuming)
      × (receives_in after + behind t.conns ≤ behind s.conns)
      × (guests_in s + behind t.conns ≤ guests_in t + behind s.conns)
Run-resuming before i spares after =
    let v = Run-IsOrdered before (record { ordered = tt; answered = tt }) in
    let (i2, quiet) = Run-resumed spares after v i in (i2.1, quiet.0, quiet.1)
