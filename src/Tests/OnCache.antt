-- ===== src/Tests/OnCache.antt =====
-- Runs of the reply cache of src/librpc/svc_udp.c, with room for two replies.
use rpc_mt.Common.{ℕ, ◌≡◌, arith, some}
use rpc_mt.Common.Outcome.{ok}
use rpc_mt.ReplyCache.{Cache, Call, svcudp_enablecache, cache_set, cache_get}
use rpc_mt.ReplyCache.Valid.{IsValid}
use rpc_mt.ReplyCache.Set.{cache_set_total, Kept}
use rpc_mt.ReplyCache.Ready.{svcudp_enablecache-IsValid}
use rpc_mt.ReplyCache.Lookup.{cache_get-cache_set}

abbrev empty : Cache
empty = svcudp_enablecache 2

empty-IsValid : IsValid empty
empty-IsValid = svcudp_enablecache-IsValid 2 (omega arith) (omega arith)

cache_set_total_example :
    (v buffer' : ℕ) × (c' : Cache) × (cache_set 9 40 (some 701) 700 empty ≡ ok (buffer', c'))
    × IsValid c'
    × Kept 9 40 700 empty v c'
cache_set_total_example = cache_set_total 9 40 700 empty 701 empty-IsValid

cache_get-cache_set_example :
    (buffer' : ℕ) × (c' : Cache) × (cache_set 9 40 (some 701) 700 empty ≡ ok (buffer', c'))
    × ((msg : Call) → cache_get 9 msg c' ≡ ok (some (700, 40), c'))
cache_get-cache_set_example = cache_get-cache_set 9 40 700 empty 701 empty-IsValid
