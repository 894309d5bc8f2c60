-- ===== src/ReplyCache.antt =====
-- src/librpc/svc_udp.c, the cache of replies to UDP requests.
pub mod Valid
pub mod Ready
pub mod Set
pub mod Lookup
use rpc_mt.Common.{
  ℕ, ◌+◌, ◌*◌, ◌%◌, ◌^◌, Bool, true, false, ◌&&◌, ◌||◌, Option, none, some, List, [], ◌∷◌,
  replicate, get_elem?, set, length, ltb, ◌==◌, if◌then◌else◌,
}
use rpc_mt.Common.Outcome.{Outcome, ok, died, fault, ◌>>=◌, ◌>>◌, deref}

-- `struct cache_node`, but for `cache_next`. An address, of a caller or of a buffer, is a number.
pub record Node : Type 0 where
  pub xid : ℕ
  pub proc : ℕ
  pub vers : ℕ
  pub prog : ℕ
  pub addr : ℕ
  pub reply : ℕ
  pub replylen : ℕ

-- `struct udp_cache`: each entry of the hash table is the chain of nodes that hangs from it. `nodes` is
-- the memory of the nodes, of which those from `next_node` on are not allocated yet.
pub record Cache : Type 0 where
  pub size : ℕ
  pub entries : List (List ℕ)
  pub fifo : List (Option ℕ)
  pub nextvictim : ℕ
  pub prog : ℕ
  pub vers : ℕ
  pub proc : ℕ
  pub addr : ℕ
  pub nodes : ℕ → Node
  pub next_node : ℕ

-- The program, version and procedure of a call, and the address of its caller.
pub record Call : Type 0 where
  pub prog : ℕ
  pub vers : ℕ
  pub proc : ℕ
  pub addr : ℕ

abbrev pub sparseness : ℕ
sparseness = 4

-- `CACHE_LOC`; a cache of size 0 divides by zero.
unfoldable pub cache_loc : Cache → ℕ → Outcome ℕ
cache_loc c xid = if c.size == 0 then fault else ok (xid % (sparseness * c.size) % 2 ^ 32)

abbrev pub no_node : Node
no_node = record { xid = 0; proc = 0; vers = 0; prog = 0; addr = 0; reply = 0; replylen = 0 }

-- `svcudp_enablecache` where there is memory and no cache yet. The saved fields have no defined value.
unfoldable pub svcudp_enablecache : ℕ → Cache
svcudp_enablecache size = record {
  size = size;
  entries = replicate (size * sparseness) [];
  fifo = replicate size none;
  nextvictim = 0;
  prog = 0;
  vers = 0;
  proc = 0;
  addr = 0;
  nodes = λ _. no_node;
  next_node = 0;
}

abbrev pub mem : ℕ → List ℕ → Bool
mem a [] = false
mem a (b ∷ l) = a == b || mem a l

-- `*vicp = victim->cache_next`.
abbrev pub unlink : ℕ → List ℕ → List ℕ
unlink a [] = []
unlink a (b ∷ l) = if a == b then l else b ∷ unlink a l

abbrev pub put_node : (ℕ → Node) → ℕ → Node → ℕ → Node
put_node nodes a n b = if b == a then n else nodes b

-- The last part of `cache_set`: the node `v` takes the transport's buffer, and the transport gets
-- `newbuf`.
unfoldable pub store_away : (su_xid replylen v newbuf : ℕ) → ℕ → Cache → Outcome (ℕ × Cache)
store_away su_xid replylen v newbuf buffer c = do
  loc ← cache_loc c su_xid
  chain ← deref (get_elem? c.entries loc)
  old ← deref (get_elem? c.fifo c.nextvictim)
  ok (
    newbuf,
    record c {
      entries = set c.entries loc (v ∷ chain);
      fifo = set c.fifo c.nextvictim (some v);
      nextvictim = (c.nextvictim + 1) % c.size;
      nodes = put_node c.nodes v (record {
        xid = su_xid;
        proc = c.proc;
        vers = c.vers;
        prog = c.prog;
        addr = c.addr;
        reply = buffer;
        replylen = replylen;
      });
    },
  )

-- The first part where the place in the fifo is taken by `v`: its node is used again.
unfoldable pub reuse : (su_xid replylen v : ℕ) → ℕ → Cache → Outcome (ℕ × Cache)
reuse su_xid replylen v buffer c = do
  loc ← cache_loc c (c.nodes v).xid
  chain ← deref (get_elem? c.entries loc)
  if mem v chain
      then store_away su_xid replylen v (c.nodes v).reply buffer
          (record c { entries = set c.entries loc (unlink v chain) })
      else ok (buffer, c)

-- `alloc` is the new buffer, or `none` where memory is exhausted.
unfoldable pub cache_set :
    (su_xid replylen : ℕ) → (alloc : Option ℕ) → ℕ → Cache → Outcome (ℕ × Cache)
cache_set su_xid replylen alloc buffer c = deref (get_elem? c.fifo c.nextvictim) >>= λ victim.
    elim victim [
      | some v ↦ reuse su_xid replylen v buffer c
      | none ↦ elim alloc [
        | none ↦ ok (buffer, c)
        | some newbuf ↦
            store_away su_xid replylen c.next_node newbuf buffer
              (record c { next_node = c.next_node + 1 })
      ]
    ]

unfoldable pub cache_match : Node → ℕ → Cache → Bool
cache_match ent su_xid c =
    ent.xid == su_xid
    && (ent.proc == c.proc && (ent.vers == c.vers && (ent.prog == c.prog && ent.addr == c.addr)))

unfoldable pub find_match : List ℕ → ℕ → Cache → Option Node
find_match [] su_xid c = none
find_match (a ∷ chain) su_xid c =
    if cache_match (c.nodes a) su_xid c then some (c.nodes a) else find_match chain su_xid c

-- The reply and its length if one is found; if not, what the call is about is saved.
unfoldable pub cache_get : (su_xid : ℕ) → Call → Cache → Outcome (Option (ℕ × ℕ) × Cache)
cache_get su_xid msg c = do
  loc ← cache_loc c su_xid
  chain ← deref (get_elem? c.entries loc)
  elim (find_match chain su_xid c) [
    | some ent ↦ ok (some (ent.reply, ent.replylen), c)
    | none ↦
        ok (none, record c { proc = msg.proc; vers = msg.vers; prog = msg.prog; addr = msg.addr })
  ]
