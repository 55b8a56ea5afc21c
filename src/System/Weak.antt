-- ===== src/System/Weak.antt =====
-- What a running server becomes whose count meets the mark of weak objects.
use spartan_x.Prelude.{◌≡◌, refl, sym, ap, ◌∙◌, List, done, done-injective}
use spartan_x.Object.{Object, kept, sx_weak_object, retain, release}
use spartan_x.Server.{Server}
use spartan_x.Acceptor.{answer, enter}
use spartan_x.System.{
  System, Actor, Step, calls, enters, tests, looks, checks, takes, quits, begins, reads, rounds,
  ends, Run, stay, later,
}
use spartan_x.System.Taking.{received-server}
use spartan_x.System.Calls.{obey-Restates}
use spartan_x.System.Holding.{kept-injective}
use spartan_x.System.Leaving.{leave-kept}

retain-weak : (obj : Object) → obj.ref_count ≡ sx_weak_object → retain obj ≡ obj
unfolding retain
retain-weak obj e = simp e

release-same : (obj : Object) → obj.ref_count ≡ sx_weak_object → release obj ≡ done (kept obj)
unfolding release
release-same obj e = simp e

release-weak :
    (obj : Object) {left : Object}
    → obj.ref_count ≡ sx_weak_object
    → release obj ≡ done (kept left)
    → left ≡ obj
release-weak obj e h = kept-injective (done-injective (sym h ∙ release-same obj e))

Step-weak :
    {s t : System} {a : Actor}
    → s.server.obj.ref_count ≡ sx_weak_object
    → Step s a t
    → t.server.obj ≡ s.server.obj
unfolding enter
Step-weak {s} e (calls net c h) = ap (λ (b : Server). b.obj) (obey-Restates net c s.server h).same
Step-weak e (enters h) = refl
Step-weak e (tests h) = refl
Step-weak e (looks sock h) = refl
Step-weak e (checks small h) = refl
Step-weak {s} e (takes accepted admits sock h sound) =
    ap (λ (b : Server). b.obj) (received-server (answer s.server accepted admits) s)
Step-weak {s} e (quits h q) =
    let (obj, kept_on, same) = leave-kept s.server q in
    ap (λ (b : Server). b.obj) same ∙ release-weak s.server.obj e kept_on
Step-weak {s} e (begins h) = retain-weak s.server.obj e
Step-weak e (reads r before after c h) = refl
Step-weak e (rounds r before after c h turn) = refl
Step-weak {s} e (ends r before after c h turn q) = release-weak s.server.obj e q

-- Once the count of a running server is 410, no thread and no call of the program changes it again:
-- however many connections end, and also when the loop has ended, the releases do not count.
pub Run-weak :
    {s t : System} {actors : List Actor}
    → s.server.obj.ref_count ≡ sx_weak_object
    → Run s actors t
    → t.server.obj ≡ s.server.obj
Run-weak e stay = refl
Run-weak e (later run step) =
    let same = Run-weak e run in Step-weak (ap (λ (o : Object). o.ref_count) same ∙ e) step ∙ same
