-- ===== src/Proxy/Witness.antt =====
-- Concrete requests and answers.
use spartan_x.Prelude.{
  ℕ, ◌≡◌, refl, true, none, some, List, [], ◌∷◌, ◌++◌, pos, arith, crash, done, length,
}
use spartan_x.Socket.{af_inet, zero_addr}
use spartan_x.Socket.Witness.{down, entry, names}
use spartan_x.Strings.{SxString}
use spartan_x.Strings.Editing.{removing_range}
use spartan_x.Strings.Memory.{store, load, strnlen}
use spartan_x.Strings.Spelling.{Spells}
use spartan_x.Earlier.{SharedSocket}
use spartan_x.Proxy.{trim_url_protocol, cl, serve}
use spartan_x.Status.{sx_success, sx_error_sys_bind}
use spartan_x.Proxy.Main.{main, listening, main-listening}
use spartan_x.Proxy.Bridging.{cl-sock, serve-crash}

-- "POST http://h".
abbrev line : List ℕ
line = 80 ∷ 79 ∷ 83 ∷ 84 ∷ 32 ∷ 104 ∷ 116 ∷ 116 ∷ 112 ∷ 58 ∷ 47 ∷ 47 ∷ 104 ∷ []

abbrev posted : SxString
posted = record { length = length line; ref_count = pos 1; chars = line ++ 0 ∷ [] }

posted-Spells : Spells posted line
posted-Spells = record { rest = []; stored = refl; counted = refl; characters = omega arith }

-- The seven characters from the space on are removed: "POST/h" is left.
trimmed_post :
    trim_url_protocol 0 posted 5
    ≡ done (record { length = 6; ref_count = pos 1; chars = 80 ∷ 79 ∷ 83 ∷ 84 ∷ 47 ∷ 104 ∷ 0 ∷ [] })
unfolding trim_url_protocol removing_range store load strnlen spartan_x.Strings.substring_location
    spartan_x.Strings.Memory.strncmp_same
trimmed_post = refl

serve-crash_test :
    serve 0 down (names (entry af_inet ∷ [])) (λ _ _. none) none (line ++ 0 ∷ []) 13 ≡ crash
serve-crash_test =
    serve-crash 0 down (names (entry af_inet ∷ [])) (λ _ _. none) none (line ++ 0 ∷ []) 13

abbrev shared : SharedSocket
shared = record {
  sockfd = pos 9;
  protocol = 0;
  domain = 2;
  type = 1;
  port = 80;
  blocking = true;
  addr = zero_addr;
  ref_count = 1;
}

cl-sock_test : cl (some shared) (some shared) 12 ≡ done (some shared, (pos 9, 12) ∷ [], 12)
cl-sock_test = cl-sock shared (some shared) 12 0 refl (omega arith)

main-listening_test : main down sx_error_sys_bind ≡ done (some (listening down), sx_success)
main-listening_test = main-listening down sx_error_sys_bind refl
