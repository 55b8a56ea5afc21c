-- ===== src/System/Calls.antt =====
-- What a call of the program makes of a running server.
use spartan_x.Prelude.{
  ◌≡◌, sym, ◌∙◌, subst, ap, refl, ◌≢◌, ◌⊎◌, Bool, true, false, Bool-cases, ==-ne, [], ◌∷◌, Option,
  none, some, ◌==◌, if◌then◌else◌, Outcome, crash, done, ◌>>=◌, arith, inl, inr,
}
use spartan_x.Status.{
  SxError, SxStatus, sx_success, sx_status_idle, sx_status_resuming, sx_status_suspend,
  sx_status_should_terminate, check_status, check_incompatible_status, check_compatible_status,
}
use spartan_x.Socket.{Net, Socket, ErrCell}
use spartan_x.Server.{
  Server, Effect, with_status, with_sock, suspend_server, resume_server, resume_present,
  kill_server, replace_sock,
}
use spartan_x.Server.Control.{unreferenced_refuses, kill_server_twice}
use spartan_x.System.{Call, suspends, resumes, kills, obey}

-- A call changes nothing but the status and the socket.
pub record Restates (a b : Server) : Type 0 where
  pub status : SxStatus
  pub sock : Option Socket
  pub same : b ≡ with_sock (with_status a status) sock

itself : (a : Server) → Restates a a
itself a = record { status = a.status; sock = a.sock; same = refl }

with_status-Restates : (a : Server) (status : SxStatus) → Restates a (with_status a status)
with_status-Restates a status = record { status = status; sock = a.sock; same = refl }

abbrev Keeps : Server → Option Server → Type 0
Keeps a none = Unit
Keeps a (some b) = Restates a b

module _ (a : Server) where
  if-Keeps :
      (t : Bool) (x y : Option Server × SxError)
      → Keeps a x.0
      → Keeps a y.0
      → Keeps a (if t then x else y).0
  if-Keeps true x y hx hy = hx
  if-Keeps false x y hx hy = hy

  if-Restates :
      (t : Bool) (x y : Server × SxError)
      → Restates a x.0
      → Restates a y.0
      → Restates a (if t then x else y).0
  if-Restates true x y hx hy = hx
  if-Restates false x y hx hy = hy

  suspend_server-Keeps : Keeps a (suspend_server (some a)).0
  unfolding suspend_server
  suspend_server-Keeps = search (if-Keeps, itself, with_status-Restates)

  resume_present-Restates : Restates a (resume_present a).0
  unfolding resume_present
  resume_present-Restates = search (if-Restates, itself, with_status-Restates)

  resume_server-Keeps : Keeps a (resume_server (some a)).0
  unfolding resume_server
  resume_server-Keeps = resume_present-Restates

moved-Keeps : {a : Server} (b : Server) → Restates a b → (o : Option Server) → Keeps b o → Keeps a o
moved-Keeps b p none h = tt
moved-Keeps b p (some c) h = record { status = h.status; sock = h.sock; same = rw (h.same, p.same) }

-- The same of an effect.
abbrev KeepsIn : Server → Outcome Effect → Type 0
KeepsIn a crash = Unit
KeepsIn a (done e) = Keeps a e.server

moved-KeepsIn :
    {a : Server} (b : Server) → Restates a b → (m : Outcome Effect) → KeepsIn b m → KeepsIn a m
moved-KeepsIn b p crash h = tt
moved-KeepsIn {a} b p (done e) h = moved-Keeps b p e.server h

-- A server that is killed gets a socket, and the status stays that of `b`.
replaced-KeepsIn :
    (b : Server) (sock : Socket) (m : Outcome (Option Socket × ErrCell))
    → KeepsIn b (
        m >>= λ (new, _).
        done
          (record { server = some (with_sock b new); closed = sock.sockfd ∷ []; err = sx_success }))
replaced-KeepsIn b sock crash = tt
replaced-KeepsIn b sock (done (new, cell)) = record { status = b.status; sock = new; same = refl }

module _ (net : Net) (a : Server) where
  replace_sock-KeepsIn :
      (b : Server) (sock : Option Socket)
      → Restates a b
      → KeepsIn a (replace_sock net (with_status b sx_status_should_terminate) sock)
  unfolding replace_sock
  replace_sock-KeepsIn b none p = tt
  replace_sock-KeepsIn b (some sock) p =
      moved-KeepsIn (with_status b sx_status_should_terminate)
        (record { status = sx_status_should_terminate; sock = p.sock; same = rw p.same }) _
        (replaced-KeepsIn _ sock _)

  if-KeepsIn :
      (t : Bool) (x y : Outcome Effect) → KeepsIn a x → KeepsIn a y → KeepsIn a (if t then x else y)
  if-KeepsIn true x y hx hy = hx
  if-KeepsIn false x y hx hy = hy

  if-choice :
      (t : Bool) (x y : Server) → Restates a x → Restates a y → Restates a (if t then x else y)
  if-choice true x y hx hy = hx
  if-choice false x y hx hy = hy

  marked-KeepsIn :
      (t : Bool) (b : Server) (err : SxError)
      → Restates a b
      → KeepsIn a (
          if t
          then replace_sock net (with_status b sx_status_should_terminate) b.sock
          else done (record { server = some b; closed = []; err = err }))
  marked-KeepsIn t b err p = search (if-KeepsIn, replace_sock-KeepsIn)

  kill_server-KeepsIn : KeepsIn a (kill_server net (some a))
  unfolding kill_server
  kill_server-KeepsIn = elim (Bool-cases (a.ref_count == 0)) [
    | inl e ↦ rw e (itself a)
    | inr e ↦ rw e (
        let t = a.status == sx_status_suspend in
        marked-KeepsIn _ (if t then (resume_present a).0 else a) _
          (if-choice t (resume_present a).0 a (resume_present-Restates a) (itself a)))
  ]

abbrev KeepsOut : Server → Outcome (Option Server) → Type 0
KeepsOut a crash = Unit
KeepsOut a (done o) = Keeps a o

told : (a : Server) (m : Outcome Effect) → KeepsIn a m → KeepsOut a (m >>= λ e. done e.server)
told a crash h = tt
told a (done e) h = h

obey-KeepsOut : (net : Net) (c : Call) (a : Server) → KeepsOut a (obey net c a)
unfolding obey
obey-KeepsOut net suspends a = suspend_server-Keeps a
obey-KeepsOut net resumes a = resume_server-Keeps a
obey-KeepsOut net kills a = told a (kill_server net (some a)) (kill_server-KeepsIn net a)

pub obey-Restates :
    (net : Net) (c : Call) (a : Server) {b : Server} → obey net c a ≡ done (some b) → Restates a b
obey-Restates net c a h = subst (KeepsOut a) h (obey-KeepsOut net c a)

-- The three calls test the field `ref_count` of the server.
pub obey-unreferenced :
    (net : Net) (c : Call) (a : Server) → a.ref_count ≡ 0 → obey net c a ≡ done (some a)
unfolding obey
obey-unreferenced net suspends a ref = rw (unreferenced_refuses net a ref).0
obey-unreferenced net resumes a ref = rw (unreferenced_refuses net a ref).1
obey-unreferenced net kills a ref = rw (unreferenced_refuses net a ref).2

-- A referenced server that is terminating refuses every call.
referenced-terminating :
    (net : Net) (c : Call) (a : Server)
    → a.ref_count ≢ 0
    → a.status ≡ sx_status_should_terminate
    → obey net c a ≡ done (some a)
unfolding obey suspend_server resume_server resume_present check_status check_compatible_status
referenced-terminating net suspends a ref status = simp (==-ne ref, status)
referenced-terminating net resumes a ref status = simp (==-ne ref, status)
referenced-terminating net kills a ref status = rw (kill_server_twice net a ref status)

pub obey-terminating :
    (net : Net) (c : Call) (a : Server)
    → a.status ≡ sx_status_should_terminate
    → obey net c a ≡ done (some a)
obey-terminating net c a status = elim (Bool-cases (a.ref_count == 0)) [
  | inl e ↦ obey-unreferenced net c a (ground arith)
  | inr e ↦ referenced-terminating net c a (ground arith) status
]

-- A server that is resuming refuses to be suspended and to be resumed again.
pub suspends-resuming :
    (net : Net) (a : Server) → a.status ≡ sx_status_resuming → obey net suspends a ≡ done (some a)
unfolding obey suspend_server check_compatible_status
suspends-resuming net a status = elim (Bool-cases (a.ref_count == 0)) [
  | inl e ↦ simp (e, status)
  | inr e ↦ simp (e, status)
]

pub resumes-resuming :
    (net : Net) (a : Server) → a.status ≡ sx_status_resuming → obey net resumes a ≡ done (some a)
unfolding obey resume_server resume_present check_status
resumes-resuming net a status = elim (Bool-cases (a.ref_count == 0)) [
  | inl e ↦ simp (e, status)
  | inr e ↦ simp (e, status)
]

the_server : {a b : Server} → done (some a) ≡ done (some b) → b ≡ a
the_server e = cc

-- A call that leaves the server alone leaves it as it is.
pub refused :
    {a b : Server} (m : Outcome (Option Server)) → m ≡ done (some a) → m ≡ done (some b) → b ≡ a
refused m p q = the_server (sym p ∙ q)

-- The outcome of a call that hands the server on.
abbrev WithStatusOf : Outcome (Option Server) → SxStatus → Type 0
WithStatusOf crash status = Unit
WithStatusOf (done none) status = Unit
WithStatusOf (done (some b)) status = b.status ≡ status

handed-status :
    (a : Server) (sock : Socket) (m : Outcome (Option Socket × ErrCell))
    → WithStatusOf
        ((m >>= λ (new, _). done (record {
          server = some (with_sock a new);
          closed = sock.sockfd ∷ [];
          err = sx_success;
        }))
          >>= λ (e : Effect). done e.server)
        a.status
handed-status a sock crash = tt
handed-status a sock (done (new, cell)) = refl

replace_sock-status :
    (net : Net) (a : Server) (sock : Option Socket)
    → WithStatusOf (replace_sock net a sock >>= λ e. done e.server) a.status
unfolding replace_sock
replace_sock-status net a none = tt
replace_sock-status net a (some sock) = handed-status a sock _

replaces :
    (net : Net) (a : Server)
    → (a.ref_count == 0) ≡ false
    → a.status ≡ sx_status_idle
    → obey net kills a
      ≡ (replace_sock net (with_status a sx_status_should_terminate) a.sock >>= λ e. done e.server)
unfolding obey kill_server check_incompatible_status
replaces net a e status = simp (e, status)

-- An idle server that is killed is idle or terminates.
pub kills-idle :
    (net : Net) (a : Server) {b : Server}
    → a.status ≡ sx_status_idle
    → obey net kills a ≡ done (some b)
    → (b.status ≡ sx_status_should_terminate) ⊎ (b.status ≡ sx_status_idle)
kills-idle net a status h = elim (Bool-cases (a.ref_count == 0)) [
  | inl e ↦
      let same = refused (obey net kills a) (obey-unreferenced net kills a (ground arith)) h in
      inr (ap (λ (c : Server). c.status) same ∙ status)
  | inr e ↦ inl (
      subst (λ m. WithStatusOf m sx_status_should_terminate) (sym (replaces net a e status) ∙ h)
        (replace_sock-status net (with_status a sx_status_should_terminate) a.sock))
]
