-- ===== src/System/Leaving.antt =====
-- What stands behind the accepting loop of a running server.
use spartan_x.Prelude.{
  ◌≡◌, refl, sym, ap, ◌∙◌, Bool, Outcome, crash, done, >>=-eq-done, done-injective,
}
use spartan_x.Status.{sx_status_idle}
use spartan_x.Object.{Object, Released, kept, deallocates, release}
use spartan_x.Server.{Server, with_status}
use spartan_x.Acceptor.{leave}
use spartan_x.System.{with_obj}

-- What the statements behind the loop leave of a server.
abbrev pub left_behind : Server → Object → Server
left_behind server obj = with_obj (with_status server sx_status_idle) obj

behind_release :
    (a : Server) (tell : Bool) (r : Released Object) {b : Server} {told : Bool}
    → ◌≡◌ {A = Outcome (Server × Bool)}
        (elim r [ kept obj ↦ done (left_behind a obj, tell) | deallocates d obj ↦ crash ])
        (done (b, told))
    → (obj : Object) × (r ≡ kept obj) × (b ≡ left_behind a obj)
behind_release a tell (kept obj) q = (obj, refl, sym (ap (λ p. p.0) (done-injective q)))
behind_release a tell (deallocates d obj) q = cc

pub leave-kept :
    (a : Server) {b : Server} {told : Bool}
    → leave a ≡ done (b, told)
    → (obj : Object) × (release a.obj ≡ done (kept obj)) × (b ≡ left_behind a obj)
unfolding leave
leave-kept a h =
    let (r, e, q) = >>=-eq-done (release a.obj) _ h in
    let (obj, e2, same) = behind_release a _ r q in (obj, e ∙ ap done e2, same)
