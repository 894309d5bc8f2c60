-- ===== src/Registry/Enrol.antt =====
-- src/librpc/svc.c, `xprt_register` and `xprt_unregister`: a transport enters and leaves the set of
-- those that the server serves.
pub mod Steps
pub mod Register
pub mod Succeeds
pub mod Unregister
pub mod Leave
pub mod Clone
pub mod Present
pub mod Valid
use Prim.Native.Nat.{bit_and}
use rpc_mt.Common.{
  ℕ, ◌+◌, ◌-◌, ◌^◌, ◌%◌, Bool, true, false, not, none, some, List, if◌then◌else◌, ltb, leb, ◌==◌,
  get_elem?,
}
use rpc_mt.Common.Outcome.{Outcome, ok, died, fault, ◌>>=◌, ◌>>◌, deref, require}
use rpc_mt.Registry.{
  Registry, Xprt, XprtPtr, null, bad, at, no_parent, xprt_id_invalid, progress_return, incr_counter,
  incr_int, decr_int, xports_init, xprt_to_mtxprt, write_xprt, same_ptr, store, check_svcxprt,
  check_svcxprt_exists,
}
use rpc_mt.Registry.Ids.{id_is_valid, xprt_id_alloc, unregister_id}
use rpc_mt.Registry.Poll.{init_pollfd, pollfd_remove}

unfoldable pub socket_xprt_is_available : XprtPtr → Registry → Outcome Bool
socket_xprt_is_available null r = ok true
socket_xprt_is_available bad r = ok true
socket_xprt_is_available (at a) r = do
  x ← deref (r.heap a)
  ok (not (bit_and x.progress progress_return == 0))

-- A transport without an id is given one.
unfoldable pub ensure_id : XprtPtr → Registry → Outcome (ℕ × Registry)
ensure_id p r = do
  x ← xprt_to_mtxprt p r
  if x.id == xprt_id_invalid
      then (do (id, r') ← xprt_id_alloc r; ok (id, write_xprt p (record x { id = id }) r'))
      else ok (x.id, r)

-- The branch of a transport that is no clone: it takes its socket, and the socket is polled.
unfoldable pub take_socket : XprtPtr → ℕ → Registry → Outcome (ℕ × Registry)
take_socket p sock r = do
  sxprt ← deref (get_elem? r.sock_xports sock)
  free ← socket_xprt_is_available sxprt r
  if free
      then (do v ← store r.sock_xports sock p; init_pollfd sock (record r { sock_xports = v }))
      else died

-- The branch of a clone: `f` counts the references to its parent.
unfoldable pub count_parent : (ℕ → ℕ) → ℕ → Registry → Outcome Registry
count_parent f parent r = do
  q ← deref (get_elem? r.xports parent)
  y ← xprt_to_mtxprt q r
  ok (write_xprt q (record y { refcnt = f y.refcnt }) r)

-- `xports[xprt_id] = xprt`.
unfoldable pub place : XprtPtr → ℕ → Registry → Outcome Registry
place p id r = if leb r.xports_size id then died else (do
  xports ← store r.xports id p
  ok (record r { xports = xports; xports_version = incr_counter r.xports_version }))

-- The socket of a transport that is no clone, or the count of a clone's parent.
unfoldable pub attach : XprtPtr → Xprt → Registry → Outcome (ℕ × Registry)
attach p x r =
    if x.parent == no_parent
    then take_socket p x.sock r
    else (do r' ← count_parent incr_int x.parent r; ok (0, r'))

unfoldable pub xprt_register_with_lock :
    (dtablesize : ℕ) → XprtPtr → Registry → Outcome (ℕ × Registry)
xprt_register_with_lock dtablesize p r0 = do
  x ← xprt_to_mtxprt p r0
  (id, r2) ← ensure_id p (xports_init dtablesize r0)
  r3 ← place p id r2
  attach p x r3

unfoldable pub xprt_register : (dtablesize : ℕ) → XprtPtr → Registry → Outcome Registry
xprt_register dtablesize p r = do
  check_svcxprt p
  (err, r') ← xprt_register_with_lock dtablesize p r
  if err == 0 then ok r' else died

-- The branch of a transport that is no clone: its socket is polled no longer.
unfoldable pub leave_socket : ℕ → Registry → Outcome Registry
leave_socket sock r = do
  polled ← pollfd_remove r.pollfd r.max_pollfd sock
  v ← store r.sock_xports sock bad
  ok (record r { pollfd = polled; sock_xports = v })

unfoldable pub detach : Xprt → Registry → Outcome Registry
detach x r =
    if x.parent == no_parent then leave_socket x.sock r else count_parent decr_int x.parent r

unfoldable pub xprt_unregister_with_lock : XprtPtr → Registry → Outcome Registry
unfolding id_is_valid
xprt_unregister_with_lock p r = do
  check_svcxprt_exists p r
  x ← xprt_to_mtxprt p r
  require (id_is_valid x.id r)
  q ← deref (get_elem? r.xports x.id)
  require (same_ptr q p)
  r' ← detach x r
  unregister_id x.id r'
