-- ===== src/Earlier/Same.antt =====
-- The accepting loop of the earlier copy against that of src/SXServer.c.
use spartan_x.Prelude.{ℕ, ◌≡◌, refl, Bool, none, some, List, [], ◌∷◌, arith}
use spartan_x.Runtime.{Block, Handlers}
use spartan_x.Acceptor
use spartan_x.Acceptor.{Pass, Verdict, Guests, Action, passes, finishes, take_in}
use spartan_x.Server as Current
use spartan_x.Earlier.{HandlerSet}
use spartan_x.Earlier.Client.{chosen}
use spartan_x.Earlier.Server.{Server}
use spartan_x.Earlier.Serving.{pass, step, run}

-- The handlers that are called, out of the blocks and the function pointers.
abbrev pub handlers_of : Bool → (blocks fptrs : HandlerSet) → Handlers
handlers_of b blocks fptrs = record {
  will_suspend = chosen b blocks.will_suspend fptrs.will_suspend;
  did_resume = chosen b blocks.did_resume fptrs.did_resume;
  did_connect = chosen b blocks.did_connect fptrs.did_connect;
  did_disconnect = chosen b blocks.did_disconnect fptrs.did_disconnect;
  will_kill = chosen b blocks.will_kill fptrs.will_kill;
  data_handler = chosen b blocks.data_handler fptrs.data_handler;
  err_handler = none;
}

pass-same :
    (b : Bool) (server : Server) (current : Current.Server) (p : Pass) (count : ℕ) {h : Block}
    → server.max_guest ≡ current.max_guest
    → chosen b server.status_blocks.should_connect server.status_fptrs.should_connect
      ≡ current.should_connect
    → current.runtime.handlers.err_handler ≡ some h
    → pass b server p count ≡ Acceptor.pass current p count
unfolding pass Acceptor.pass
pass-same b server current p count m s e = ground arith

step-same :
    (b : Bool) (server : Server) (current : Current.Server) (a : Action) (g : Guests) {h : Block}
    → server.max_guest ≡ current.max_guest
    → chosen b server.status_blocks.should_connect server.status_fptrs.should_connect
      ≡ current.should_connect
    → current.runtime.handlers.err_handler ≡ some h
    → step b server a g ≡ Acceptor.step current a g
unfolding step Acceptor.step
step-same b server current (passes p) g m s e = rw (pass-same b server current p g.count m s e)
step-same b server current finishes g m s e = refl

-- The accepting loop of the earlier copy takes in guests as the loop of the library does for a server
-- with the same `max_guest` and `shouldConnect` that has an error handler, in any environment and
-- interleaving.
pub run-same :
    (use_block_handler : Bool) (server : Server) (current : Current.Server) (actions : List Action)
    (g : Guests) {h : Block}
    → server.max_guest ≡ current.max_guest
    → chosen use_block_handler server.status_blocks.should_connect
        server.status_fptrs.should_connect
      ≡ current.should_connect
    → current.runtime.handlers.err_handler ≡ some h
    → run use_block_handler server actions g ≡ Acceptor.run current actions g
unfolding run Acceptor.run
run-same b server current [] g m s e = refl
run-same b server current (a ∷ actions) g m s e =
    rw (step-same b server current a g m s e)
      (run-same b server current actions (Acceptor.step current a g) m s e)
