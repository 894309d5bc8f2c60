-- ===== src/Tcp.antt =====
-- src/librpc/svc_tcp.c: the socket of a connection, under its record stream.
pub mod Stream
use rpc_mt.Common.{
  ℕ, zero, suc, ◌+◌, ◌-◌, ◌/◌, ◌%◌, ◌^◌, Bool, true, false, Option, none, some, List, [], ◌∷◌,
  length, drop, ◌==◌, if◌then◌else◌,
}

-- What `poll` returns: -1, where EINTR may be the reason, 0, or more with the events of the descriptor.
pub data Polled : Type 0 where
  failed : (interrupted : Bool) → Polled
  timed_out : Polled
  ready : (revents : ℕ) → Polled

-- The calls of the system on the descriptor. `none` is a negative result.
pub record Socket (N : Type 0) : Type 0 where
  pub poll : N → Polled × N
  pub read : (len : ℕ) → N → Option (List ℕ) × N
  pub write : List ℕ → N → Option ℕ × N

-- `enum xprt_stat`
pub data XprtStat : Type 0 where
  xprt_died more_reqs idle : XprtStat

-- Of `struct tcp_conn` and its transport: the descriptor, `strm_stat`, XPRT_DONE_READ and `mtxp_busy`.
pub record TcpConn (N : Type 0) : Type 0 where
  pub net : N
  pub strm_stat : XprtStat
  pub done_read : Bool
  pub busy : Bool

-- POLLIN and POLLNVAL
abbrev pub pollin : ℕ → Bool
pollin revents = revents % 2 == 1

abbrev pub pollnval : ℕ → Bool
pollnval revents = revents / 32 % 2 == 1

pub data Waited (N : Type 0) : Type 0 where
  readable : TcpConn N → Waited N
  fatal : TcpConn N → Waited N
  polling : Waited N

pub data Event : Type 0 where
  give_up : Event
  go_on : (revents : ℕ) → Event

abbrev pub event : (revents : ℕ) → Polled → Event
event revents (failed true) = go_on revents
event revents (failed false) = give_up
event revents timed_out = give_up
event revents (ready new) = if pollnval new then give_up else go_on new

module _ {N : Type 0} (socket : Socket N) where
  -- The loop over `poll` takes the number of rounds that are looked at. After EINTR, `continue` goes to the
  -- test of `revents` as it was before.
  unfoldable pub poll_loop : ℕ → (revents : ℕ) → TcpConn N → Waited N
  poll_loop zero revents c = polling
  poll_loop (suc n) revents c =
      let (polled, net) = socket.poll c.net in
      let c' : TcpConn N = record c { net = net; busy = true } in
      elim (event revents polled) [
        | give_up ↦ fatal c'
        | go_on new ↦ elim (pollin new) [ true ↦ readable c' | false ↦ poll_loop n new c' ]
      ]

  -- `fatal_err`: -1, which is `none`.
  abbrev pub dead : TcpConn N → Option (List ℕ) × TcpConn N
  dead c = (none, record c { strm_stat = xprt_died; busy = true })

  abbrev pub read_in : TcpConn N → Option (List ℕ) × N → Option (List ℕ) × TcpConn N
  read_in c (none, net) = dead (record c { net = net })
  read_in c (some [], net) = dead (record c { net = net })
  read_in c (some (b ∷ bs), net) =
      (some (b ∷ bs), record c { net = net; done_read = true; busy = false })

  abbrev pub when_readable : ℕ → Waited N → Option (Option (List ℕ) × TcpConn N)
  when_readable len (readable c) = some (read_in c (socket.read len c.net))
  when_readable len (fatal c) = some (dead c)
  when_readable len polling = none

  -- `none` while it still polls. The first `revents` is what the memory holds.
  unfoldable pub readtcp : ℕ → (revents len : ℕ) → TcpConn N → Option (Option (List ℕ) × TcpConn N)
  readtcp n revents len c = when_readable len (poll_loop n revents c)

  -- Whether all was written; `none` while it still writes.
  unfoldable pub write_loop : ℕ → List ℕ → TcpConn N → Option (Bool × TcpConn N)
  write_loop zero bs c = none
  write_loop (suc n) bs c = elim (length bs == 0) [
    | true ↦ some (true, c)
    | false ↦
        let (wlen, net) = socket.write bs c.net in
        elim wlen [
          | none ↦ some (false, record c { net = net; strm_stat = xprt_died })
          | some w ↦ write_loop n (drop w bs) (record c { net = net })
        ]
  ]

  -- `len`, or -1, as an `int`.
  abbrev pub written : ℕ → Option (Bool × TcpConn N) → Option (ℕ × TcpConn N)
  written len none = none
  written len (some (true, c)) = some (len, c)
  written len (some (false, c)) = some (2 ^ 32 - 1, c)

  unfoldable pub writetcp : ℕ → List ℕ → TcpConn N → Option (ℕ × TcpConn N)
  writetcp n bs c = written (length bs) (write_loop n bs c)
