-- ===== src/Earlier/Servers.antt =====
-- What the servers of the earlier copy do.
use spartan_x.Prelude.{
  ◌⊎◌, ◌≡◌, ◌≢◌, false, Bool-cases, inl, inr, none, some, [], ◌∷◌, arith, ◌==◌, done,
}
use spartan_x.Status.{
  sx_success, sx_status_idle, sx_status_running, sx_status_suspend, sx_status_resuming,
  check_status, check_compatible_status,
}
use spartan_x.Socket.{Net}
use spartan_x.Earlier.{SharedSocket}
use spartan_x.Earlier.Server.{
  Server, suspend_server, resume_server, resume_present, kill_server, free_sock, free_server,
  release_server,
}

-- Releasing the last owner of a server frees it and closes the descriptor of its socket and no other,
-- whatever its status: a running server is not killed first.
pub release_server-closes :
    (net : Net) (server : Server) (sock : SharedSocket)
    → server.ref_count ≡ 1
    → server.socket ≡ some sock
    → release_server net server
      ≡ done (record { server = none; closed = sock.sockfd ∷ []; err = sx_success })
unfolding release_server free_server kill_server free_sock
release_server-closes net server sock one held =
    elim (Bool-cases (server.status == sx_status_idle)) [
      | inl idle ↦ simp (one, held, idle)
      | inr busy ↦ simp (one, held, busy)
    ]

-- A running or idle server with an owner can be suspended and then resumed: both succeed, and only its
-- status has changed, to resuming.
pub resume_server-suspend :
    (server : Server)
    → server.ref_count ≢ 0
    → (server.status ≡ sx_status_idle) ⊎ (server.status ≡ sx_status_running)
    → (suspend_server (some server)
        ≡ (some (record server { status = sx_status_suspend }), sx_success))
      × (resume_server (suspend_server (some server)).0
          ≡ (some (record server { status = sx_status_resuming }), sx_success))
unfolding suspend_server resume_server resume_present check_status check_compatible_status
resume_server-suspend server owned (inl idle) =
    let some_owner : (server.ref_count == 0) ≡ false = ground arith in
    (simp (some_owner, idle), simp (some_owner, idle))
resume_server-suspend server owned (inr running) =
    let some_owner : (server.ref_count == 0) ≡ false = ground arith in
    (simp (some_owner, running), simp (some_owner, running))
