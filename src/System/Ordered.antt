-- ===== src/System/Ordered.antt =====
-- The accepting loop of a running server leaves only with an order, and a connection goes on only with an
-- answer.
use spartan_x.Prelude.{
  ℕ, ◌≡◌, ◌≢◌, sym, ap, subst, ◌∙◌, List, [], ◌∷◌, ◌++◌, arith, done, some, All,
}
use spartan_x.Status.{SxStatus, sx_status_should_terminate}
use spartan_x.Loop.{Turn, goes_on, exits, crashes}
use spartan_x.Loop.Counting.{count}
use spartan_x.Socket.{Net}
use spartan_x.Runtime.{Handlers}
use spartan_x.Server.{Server}
use spartan_x.Acceptor.{answer}
use spartan_x.Connection.{Event, Round, Conn, settled, dispatch}
use spartan_x.System.Taking.{received-acceptor, received-conns}
use spartan_x.System.{
  System, Point, starting, testing, listening, checking, taking, leaving, left, Call, obey, Actor,
  Step, calls, enters, tests, looks, checks, takes, quits, begins, reads, rounds, Serving, between,
  in_round, checked, ends, Run, stay, later, tested, looked, received, handlers_of, met,
}
use spartan_x.System.Calls.{obey-terminating, refused}

-- The accepting loop breaks only at the order to terminate.
abbrev pub Ordered : Point → SxStatus → Type 0
Ordered leaving status = status ≡ sx_status_should_terminate
Ordered _ status = Unit

-- The variables of a connection.
abbrev pub conn_of : Serving → Conn
conn_of (between c) = c
conn_of (in_round c) = c

abbrev pub Answered : List Serving → Type 0
Answered conns = All (λ (c : Serving). (conn_of c).s ≢ 0) conns

pub record IsOrdered (s : System) : Type 0 where
  pub ordered : Ordered s.acceptor s.server.status
  pub answered : Answered s.conns

tested-Ordered : (status : SxStatus) → Ordered (tested status) status
tested-Ordered status = ground arith

looked-Ordered : (status : SxStatus) → Ordered (looked status) status
looked-Ordered status = ground arith

checked-Ordered :
    (server : Server) (count : ℕ) (status : SxStatus) → Ordered (checked server count) status
checked-Ordered server count status = ground arith

-- The answer with which a turn goes on.
abbrev answer_of : Turn Conn Event → ℕ
answer_of (goes_on c events) = c.s
answer_of (exits events) = 1
answer_of (crashes events) = 1

dispatch-answer : (hs : Handlers) (r : Round) (c : Conn) → answer_of (dispatch hs r c) ≢ 0
unfolding dispatch
dispatch-answer hs r c = ground arith

Answered-replace :
    (before after : List Serving) (c d : Serving)
    → Answered (before ++ c ∷ after)
    → (conn_of d).s ≢ 0
    → Answered (before ++ d ∷ after)
Answered-replace [] after c d all new = (new, all.1)
Answered-replace (b ∷ before) after c d all new =
    (all.0, Answered-replace before after c d all.1 new)

Answered-drop :
    (before after : List Serving) (c : Serving)
    → Answered (before ++ c ∷ after)
    → Answered (before ++ after)
Answered-drop [] after c all = all.1
Answered-drop (b ∷ before) after c all = (all.0, Answered-drop before after c all.1)

pub Answered-at :
    (before after : List Serving) (c : Serving) → Answered (before ++ c ∷ after) → (conn_of c).s ≢ 0
Answered-at [] after c all = all.0
Answered-at (b ∷ before) after c all = Answered-at before after c all.1

calls-Ordered :
    (s : System) (net : Net) (c : Call) {b : Server}
    → obey net c s.server ≡ done (some b)
    → (point : Point) → Ordered point s.server.status
    → Ordered point b.status
calls-Ordered s net c e leaving h =
    let same = refused (obey net c s.server) (obey-terminating net c s.server h) e in
    ap (λ (b : Server). b.status) same ∙ h
calls-Ordered s net c e listening h = tt
calls-Ordered s net c e checking h = tt
calls-Ordered s net c e taking h = tt
calls-Ordered s net c e starting h = tt
calls-Ordered s net c e testing h = tt
calls-Ordered s net c e left h = tt

Step-IsOrdered : {s t : System} {a : Actor} → Step s a t → IsOrdered s → IsOrdered t
Step-IsOrdered {s} (calls net c e) v = record {
  ordered = calls-Ordered s net c e s.acceptor v.ordered;
  answered = v.answered;
}
Step-IsOrdered (enters e) v = record { ordered = tt; answered = v.answered }
Step-IsOrdered {s} (tests e) v = record {
  ordered = tested-Ordered s.server.status;
  answered = v.answered;
}
Step-IsOrdered {s} (looks sock e) v = record {
  ordered = looked-Ordered s.server.status;
  answered = v.answered;
}
Step-IsOrdered {s} (checks small e) v = record {
  ordered = checked-Ordered s.server s.count s.server.status;
  answered = v.answered;
}
Step-IsOrdered {s} (takes accepted admits sock e sound) v =
    let w = answer s.server accepted admits in
    record {
      ordered =
          subst (λ q. Ordered q (received w s).server.status) (sym (received-acceptor w s)) tt;
      answered = subst Answered (sym (received-conns w s)) v.answered;
    }
Step-IsOrdered (quits e h) v = record { ordered = tt; answered = v.answered }
Step-IsOrdered (begins e) v = record { ordered = v.ordered; answered = (omega arith, v.answered) }
Step-IsOrdered {s} (reads r before after c e) v =
    let all = subst Answered e v.answered in
    record {
      ordered = v.ordered;
      answered =
          Answered-replace before after (between c)
            (in_round (record c { status = settled (met s r) c })) all
            (Answered-at before after (between c) all);
    }
Step-IsOrdered {s} (rounds r before after c {c'} e turn) v = record {
  ordered = v.ordered;
  answered =
      Answered-replace before after (in_round c) (between c') (subst Answered e v.answered)
        (subst (λ t. answer_of t ≢ 0) turn (dispatch-answer (handlers_of s) r c));
}
Step-IsOrdered (ends r before after c e turn h) v = record {
  ordered = v.ordered;
  answered = Answered-drop before after (in_round c) (subst Answered e v.answered);
}

pub Run-IsOrdered :
    {s t : System} {actors : List Actor} → Run s actors t → IsOrdered s → IsOrdered t
Run-IsOrdered stay v = v
Run-IsOrdered (later run step) v = Step-IsOrdered step (Run-IsOrdered run v)
