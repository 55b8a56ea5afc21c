-- ===== src/Status.antt =====
-- The error codes of SXError.h, the statuses of sx_global.h, and the three status checks of
-- SXQueue.c. An `SXError` is an integer: the checks return codes that the enumeration does not name.
pub mod Checks
pub mod Witness
use spartan_x.Prelude.{
  ℕ, zero, ◌*◌, ◌%◌, Bool, List, [], ◌∷◌, ℤ, pos, negsuc, ◌==◌, ◌==ℤ◌, if◌then◌else◌, u32_mod,
  int32,
}

abbrev pub SxError : Type 0
SxError = ℤ

abbrev pub sx_success : SxError
sx_success = pos 0

abbrev pub sx_error_invalid_socket : SxError
sx_error_invalid_socket = negsuc 0

abbrev pub sx_error_invalid_server : SxError
sx_error_invalid_server = negsuc 1

abbrev pub sx_error_invalid_arguments : SxError
sx_error_invalid_arguments = negsuc 3

abbrev pub sx_error_mem_alloc : SxError
sx_error_mem_alloc = negsuc 5

abbrev pub sx_error_invalid_ipaddr : SxError
sx_error_invalid_ipaddr = negsuc 6

abbrev pub sx_error_server_cannot_be_dgram : SxError
sx_error_server_cannot_be_dgram = negsuc 7

abbrev pub sx_error_sys_socket : SxError
sx_error_sys_socket = negsuc 9

abbrev pub sx_error_sys_bind : SxError
sx_error_sys_bind = negsuc 10

abbrev pub sx_error_sys_listen : SxError
sx_error_sys_listen = negsuc 11

abbrev pub sx_error_sys_connect : SxError
sx_error_sys_connect = negsuc 12

abbrev pub sx_error_sys_send : SxError
sx_error_sys_send = negsuc 13

abbrev pub sx_error_sys_accept : SxError
sx_error_sys_accept = negsuc 15

abbrev pub sx_error_sys_setsockopt : SxError
sx_error_sys_setsockopt = negsuc 16

abbrev pub sx_error_sys_kqueue : SxError
sx_error_sys_kqueue = negsuc 21

abbrev pub sx_error_sys_kevent : SxError
sx_error_sys_kevent = negsuc 22

abbrev pub sx_error_sys_get_addr_info : SxError
sx_error_sys_get_addr_info = negsuc 23

abbrev pub sx_error_create_thread : SxError
sx_error_create_thread = negsuc 39

-- The test of `SX_RETURN_ERR`: the operation went through.
abbrev pub succeeded : SxError → Bool
succeeded e = e ==ℤ sx_success

-- `sx_status_t` is an unsigned int.
abbrev pub SxStatus : Type 0
SxStatus = ℕ

abbrev pub sx_status_idle : SxStatus
sx_status_idle = 0

abbrev pub sx_status_running : SxStatus
sx_status_running = 1

abbrev pub sx_status_resuming : SxStatus
sx_status_resuming = 2

abbrev pub sx_status_suspend : SxStatus
sx_status_suspend = 3

abbrev pub sx_status_should_terminate : SxStatus
sx_status_should_terminate = 4

abbrev pub sx_status_ignored : SxStatus
sx_status_ignored = 5

abbrev pub sx_status_should_kill : SxStatus
sx_status_should_kill = 6

-- `current * -1`: the product is taken in unsigned arithmetic and then read as an int.
abbrev pub negated : SxStatus → SxError
negated current = int32 (current * 4294967295 % u32_mod)

unfoldable pub check_status : SxStatus → SxStatus → SxError
check_status current required = if current == required then sx_success else negated current

unfoldable pub check_compatible_status : SxStatus → List SxStatus → SxError
check_compatible_status current [] = negated current
check_compatible_status current (a ∷ array) =
    if current == a then sx_success else check_compatible_status current array

unfoldable pub check_incompatible_status : SxStatus → List SxStatus → SxError
check_incompatible_status current [] = sx_success
check_incompatible_status current (a ∷ array) =
    if current == a then negated current else check_incompatible_status current array
