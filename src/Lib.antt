-- ===== src/Lib.antt =====
-- A verification library for rpc-mt, the multi-threaded server side of Sun RPC: the sets of transports
-- that svc.c keeps, the callout list that requests are matched against, the bit vectors behind the
-- identifiers of transports, and the XDR filters by which arguments and results travel.
--
-- Parts, and how they interact. src/librpc/svc.c owns the global state: the array `xports` of all
-- transports by identifier, `sock_xports` by socket, the array of polled descriptors, the bit vectors
-- `xports_idset` and `xprtgc_idset` (src/librpc/bitvec.c), and the callout list `svc_head`. A transport
-- registers: it gets an identifier from the bit vector, takes its slots, and its socket is polled. A
-- request is read from a polled socket, decoded by the XDR filters, and matched against the callout
-- list. An encoded reply goes back through the same filters.
--
--   Common         Boolean tests, lists as C arrays, bits of words, and `Outcome`: a step's result, the
--                  abort by `svc_die`, or an access outside an array.
--   Bitvec         src/librpc/bitvec.c, function by function. Cells says which indices share a bit,
--                  Bounds which indices fall outside the vector.
--   Registry       the static variables of src/librpc/svc.c as one record, with the heap of transports.
--                  Ids is `xprt_id_alloc` and `unregister_id`; Poll is `init_pollfd` and `pollfd_remove`;
--                  Enrol is `xprt_register_with_lock`, `xprt_register` and `xprt_unregister_with_lock`;
--                  Gc is `svc_return`, `xprt_gc_mark`, `xprt_gc_reap_one`, `xprt_gc_reap_all` and what `SVC_DESTROY` does
--                  in src/librpc/svc_udp.c and svc_tcp.c; Unique follows identifiers over any run of
--                  registrations and removals.
--   Callout        `svc_find`, `svc_register`, `svc_unregister`, `rpc_thread_svc_cleanup` and
--                  `request_match_prog_version`. The list stands for a table from program and version to
--                  a dispatch function (Find); the operations are specified on the table.
--   Server         the request loop of src/librpc/svc.c and the main loop of svc_run.c: Replies is
--                  `svc_sendreply` and the `svcerr` functions; Wait is how the receiving thread waits for a
--                  worker; Dispatch is `svc_getreq_common` down to `request_dispatch`; Poll is
--                  `svc_getreq_poll_mt`, `svc_poll` and `svc_run`. Registry/Active holds what these read of
--                  the registry. What is called through pointers is the record Env.
--   Xdr            src/librpc/xdr.c, xdr_intXX_t.c, xdr_array.c and xdr_ref.c over any stream: the record
--                  XdrOps is `struct xdr_ops`, and Codec has the laws that a stream keeps. Mem is
--                  src/librpc/xdr_mem.c, with the proof that it keeps them. Rec is src/librpc/xdr_rec.c, over a
--                  connection with the contracts Reader and Writer.
--   Tcp            `readtcp` and `writetcp` of src/librpc/svc_tcp.c, with the proof that they keep the
--                  contracts of the record stream.
--   ReplyCache     the cache of replies of src/librpc/svc_udp.c: `svcudp_enablecache`, `cache_set` and
--                  `cache_get`, on a hash table of chains and a fifo over the same nodes.
--   Tests          each theorem with hypotheses, applied to concrete values.
--
-- Words. `size_t` and `u_long` are numbers below 2 ^ 64 with their arithmetic taken modulo 2 ^ 64, an
-- `int` is its 32-bit pattern, a `long` its 64-bit pattern. The model is of an LP64 machine.
--
-- Loops. All loops of the model are structural, or count down the rounds that the source's bounds allow:
-- `scan_ids` the `xports_maxid + 1` rounds of its `for`, `find_slot` the `xports_max_pollfd` rounds of
-- its `for`. `rpc_thread_svc_cleanup` loops until the list is empty; it takes a number of rounds. The
-- loops of Xdr/Rec look at two rounds for each byte and a few more (a round that reads, and one that fills
-- a buffer or takes a header), which is enough by the theorems. The endless loops of the server take the
-- number of rounds that are looked at, with the result `waits` after them.
--
-- Left out. Locks and threads: each operation is one step, as `xports_lock` makes it. Trace output, of
-- which only `decode_xprt_progress` is kept, for it can abort, the flight recorder and the copy
-- `xports_view`. Memory is never exhausted where the source aborts on it; where an XDR filter returns
-- FALSE on it, the parameter `alloc` decides. The local binder that `pmap_set` asks is the parameter
-- `binder`. After an XDR filter returns FALSE, only the stream is modelled, not the object. Of the
-- transports the creation of sockets, the rendezvous, and receiving and replying are not modelled.
pub mod Common
pub mod Bitvec
pub mod Registry
pub mod Callout
pub mod Server
pub mod Xdr
pub mod Tcp
pub mod ReplyCache
mod Tests
