-- ===== src/Registry.antt =====
-- src/librpc/svc.c, the transports of the server and src/librpc/svc_mtxprt.h, their extension: the
-- state that `xports_lock` protects, as one record.
pub mod Ids
pub mod Unique
pub mod Poll
pub mod Enrol
pub mod Gc
pub mod Active
use rpc_mt.Common.{
  ℕ, ◌+◌, ◌-◌, ◌%◌, ◌^◌, Bool, true, false, Option, none, some, List, [], replicate, get_elem?, set,
  length, ltb, ◌==◌, if◌then◌else◌,
}
use rpc_mt.Common.Outcome.{Outcome, ok, died, fault, ◌>>=◌, ◌>>◌, deref, require}
use rpc_mt.Bitvec.{Bitvec, bitvec_init}

-- A `SVCXPRT *`: NULL, BAD_SVCXPRT_PTR, or the address of a structure.
pub data XprtPtr : Type 0 where
  null bad : XprtPtr
  at : ℕ → XprtPtr

-- Which operations `xp_ops` holds: svc_udp.c's or svc_tcp.c's.
pub data Transport : Type 0 where
  udp tcp : Transport

pub data XprtStat : Type 0 where
  xprt_died xprt_morereqs xprt_idle : XprtStat

abbrev pub no_parent : ℕ
no_parent = 2 ^ 64 - 1

abbrev pub xprt_id_invalid : ℕ
xprt_id_invalid = 2 ^ 64 - 1

-- `xports_maxid == (size_t)(-1)`: no id has been handed out.
abbrev pub no_maxid : ℕ
no_maxid = 2 ^ 64 - 1

-- The bits of `mtxp_progress`.
abbrev pub progress_getargs : ℕ
progress_getargs = 0x010

abbrev pub progress_dispatch : ℕ
progress_dispatch = 0x020

abbrev pub progress_wait : ℕ
progress_wait = 0x100

abbrev pub progress_return : ℕ
progress_return = 0x200

-- `SVCXPRT` with its `struct mtxprt`: the fields that the registry reads or writes. An `int` is its
-- bit pattern, below 2 ^ 32. `cloneable` is `mtxp_clone != NULL`.
pub record Xprt : Type 0 where
  pub sock : ℕ
  pub port : ℕ
  pub ops : Transport
  pub id : ℕ
  pub parent : ℕ
  pub refcnt : ℕ
  pub busy : ℕ
  pub progress : ℕ
  pub cloneable : Bool
  pub stat : XprtStat

-- `struct pollfd`, with `none` for the descriptor -1.
pub record PollFd : Type 0 where
  pub fd : Option ℕ
  pub events : ℕ
  pub revents : ℕ

-- The static variables of svc.c, the heap of transports (`none` is freed or never allocated), and
-- the descriptors that the system holds open.
pub record Registry : Type 0 where
  pub created : Bool
  pub heap : ℕ → Option Xprt
  pub xports : List XprtPtr
  pub sock_xports : List XprtPtr
  pub xports_idset : Bitvec
  pub xprtgc_idset : Bitvec
  pub xports_size : ℕ
  pub xports_count : ℕ
  pub xports_maxid : ℕ
  pub xports_version : ℕ
  pub mark_count : ℕ
  pub pollfd : List PollFd
  pub pollfd_size : ℕ
  pub max_pollfd : ℕ
  pub open_fd : ℕ → Bool

-- A fresh `struct pollfd` of `guard_malloc` holds no defined values; the code reads none of them
-- before it writes them.
abbrev pub no_pollfd : PollFd
no_pollfd = record { fd = some 0; events = 0; revents = 0 }

abbrev fd_setsize : ℕ
fd_setsize = 1024

-- `size_t` addition and subtraction of one, and those of an `int`.
abbrev pub incr_counter : ℕ → ℕ
incr_counter n = (n + 1) % 2 ^ 64

abbrev pub decr_counter : ℕ → ℕ
decr_counter n = (n + (2 ^ 64 - 1)) % 2 ^ 64

abbrev pub incr_int : ℕ → ℕ
incr_int n = (n + 1) % 2 ^ 32

abbrev pub decr_int : ℕ → ℕ
decr_int n = (n + (2 ^ 32 - 1)) % 2 ^ 32

-- `dtablesize` is what `_rpc_dtablesize` returns.
unfoldable pub create_xports : (dtablesize : ℕ) → Registry → Registry
create_xports dtablesize r =
    let size = if ltb fd_setsize dtablesize then fd_setsize else dtablesize in
    record r {
      created = true;
      xports = replicate size bad;
      sock_xports = replicate size bad;
      xports_idset = bitvec_init size;
      xprtgc_idset = bitvec_init size;
      xports_size = size;
      xports_count = 0;
      xports_maxid = no_maxid;
      xports_version = 0;
      pollfd = replicate size no_pollfd;
      pollfd_size = size;
      max_pollfd = 0;
    }

-- `xports_init`, and the same test in `xprt_register_with_lock`.
unfoldable pub xports_init : (dtablesize : ℕ) → Registry → Registry
unfolding create_xports
xports_init dtablesize r = if r.created then r else create_xports dtablesize r

-- `xprt_to_mtxprt` and a read of the structure. What lies at `NULL`, at `BAD_SVCXPRT_PTR` or in
-- freed memory is not a transport.
abbrev pub xprt_to_mtxprt : XprtPtr → Registry → Outcome Xprt
xprt_to_mtxprt null r = fault
xprt_to_mtxprt bad r = fault
xprt_to_mtxprt (at a) r = deref (r.heap a)

abbrev pub update {ℓ} : {A : Type ℓ} → (ℕ → A) → ℕ → A → ℕ → A
update f a v b = if b == a then v else f b

-- A write of the structure that `p` points to.
abbrev pub write_xprt : XprtPtr → Xprt → Registry → Registry
write_xprt null x r = r
write_xprt bad x r = r
write_xprt (at a) x r = record r { heap = update r.heap a (some x) }

abbrev pub same_ptr : XprtPtr → XprtPtr → Bool
same_ptr null null = true
same_ptr bad bad = true
same_ptr (at a) (at b) = a == b
same_ptr _ _ = false

-- A write into a C array.
abbrev pub store {ℓ} : {A : Type ℓ} → List A → ℕ → A → Outcome (List A)
store v i a = if ltb i (length v) then ok (set v i a) else fault

-- `is_valid_svcxprt`.
abbrev pub is_valid_svcxprt : XprtPtr → Bool
is_valid_svcxprt null = false
is_valid_svcxprt bad = false
is_valid_svcxprt (at a) = true

abbrev pub check_svcxprt : XprtPtr → Outcome (Unit {0})
check_svcxprt p = require (is_valid_svcxprt p)

-- The cast of the id to `int` is the identity on the ids below `xports_size`; any other is out of
-- bounds with the cast and without it.
unfoldable pub check_svcxprt_exists : XprtPtr → Registry → Outcome (Unit {0})
check_svcxprt_exists p r = do
  check_svcxprt p
  if r.created
      then (do x ← xprt_to_mtxprt p r; q ← deref (get_elem? r.xports x.id); require (same_ptr q p))
      else ok tt
