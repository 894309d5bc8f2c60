-- ===== src/ReplyCache/Lookup.antt =====
-- src/librpc/svc_udp.c, `cache_get`: what is found after `cache_set`.
use rpc_mt.Common.{ℕ, ◌≡◌, refl, ap, true, some, List, ◌∷◌, arith, get_elem?, ==-self}
use rpc_mt.Common.Outcome.{ok}
use rpc_mt.ReplyCache.{Node, Cache, Call, cache_loc, cache_set, cache_match, find_match, cache_get}
use rpc_mt.ReplyCache.Valid.{IsValid, home, loc_lem, node_for}
use rpc_mt.ReplyCache.Set.{cache_set_total, Kept}

cache_get_run :
    (su_xid loc : ℕ) (msg : Call) (c : Cache) (chain : List ℕ) (ent : Node)
    → cache_loc c su_xid ≡ ok loc
    → get_elem? c.entries loc ≡ some chain
    → find_match chain su_xid c ≡ some ent
    → cache_get su_xid msg c ≡ ok (some (ent.reply, ent.replylen), c)
unfolding cache_get
cache_get_run su_xid loc msg c chain ent at_loc there hit = ground (arith, at_loc, there, hit)

module _ (su_xid replylen buffer : ℕ) (c : Cache) where
  head_matches :
      (v : ℕ) (c' : Cache)
      → Kept su_xid replylen buffer c v c'
      → cache_match (c'.nodes v) su_xid c' ≡ true
  unfolding cache_match
  head_matches v c' (chain, _, _, _, node, _, prog, vers, proc, addr) =
      rw (node, prog, vers, proc, addr)
        (rw (==-self su_xid, ==-self c.proc, ==-self c.vers, ==-self c.prog, ==-self c.addr) refl)

  found_first :
      (v : ℕ) (chain : List ℕ) (c' : Cache)
      → Kept su_xid replylen buffer c v c'
      → find_match (v ∷ chain) su_xid c' ≡ some (node_for su_xid replylen buffer c)
  unfolding find_match
  found_first v chain c' kept =
      let (_, _, _, _, node, _, _, _, _, _) = kept in rw (head_matches v c' kept) (ap some node)

  finds :
      (v : ℕ) (c' : Cache) (msg : Call)
      → IsValid c'
      → Kept su_xid replylen buffer c v c'
      → cache_get su_xid msg c' ≡ ok (some (buffer, replylen), c')
  finds v c' msg w kept =
      let (chain, _, _, there, node, size, _, _, _, _) = kept in
      cache_get_run su_xid (home c' su_xid) msg c' (v ∷ chain) (node_for su_xid replylen buffer c)
        (loc_lem c' su_xid w.some_room w.small) (rw size there) (found_first v chain c' kept)

  -- In a well-formed cache and with memory to be had, a reply that `cache_set` keeps is what `cache_get`
  -- then finds for the same transaction id, whatever the program, the version, the procedure and the
  -- caller of the message.
  pub cache_get-cache_set :
      (newbuf : ℕ)
      → IsValid c
      → (buffer' : ℕ) × (c' : Cache) × (cache_set su_xid replylen (some newbuf) buffer c
          ≡ ok (buffer', c'))
        × ((msg : Call) → cache_get su_xid msg c' ≡ ok (some (buffer, replylen), c'))
  cache_get-cache_set newbuf w =
      let (v, buffer', c', run, w', kept) = cache_set_total su_xid replylen buffer c newbuf w in
      (buffer', c', run, λ msg. finds v c' msg w' kept)
