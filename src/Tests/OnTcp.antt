-- ===== src/Tests/OnTcp.antt =====
-- Runs of `readtcp` and `writetcp` of src/librpc/svc_tcp.c on a socket that takes two bytes at a time.
use rpc_mt.Common.{
  ℕ, zero, suc, ap, ◌≡◌, ◌≤◌, ◌<◌, refl, sym, arith, true, false, Option, some, none, List, [], ◌∷◌,
  ◌++◌, take, drop, length, length-take, take-append-drop,
}
use rpc_mt.Tcp.{Socket, ready, TcpConn, idle, xprt_died, readtcp, writetcp}
use rpc_mt.Tcp.Stream.{Works, readtcp_lem, writetcp_lem}

abbrev from_peer : ℕ → List ℕ × List ℕ → Option (List ℕ) × (List ℕ × List ℕ)
from_peer len ([], out) = (some [], ([], out))
from_peer len (b ∷ bs, out) = (some (take len (b ∷ bs)), (drop len (b ∷ bs), out))

abbrev in_twos : Socket (List ℕ × List ℕ)
in_twos = record {
  poll = λ net. (ready 1, net);
  read = from_peer;
  write = λ bs net. (some 2, (net.0, net.1 ++ take 2 bs));
}

from_peer_reads :
    (len : ℕ) (net : List ℕ × List ℕ)
    → 0 < len
    → 0 < length net.0
    → (b : ℕ) × (bs : List ℕ) × (net' : List ℕ × List ℕ) × (from_peer len net
        ≡ (some (b ∷ bs), net'))
      × (length (b ∷ bs) ≤ len)
      × (net.0 ≡ (b ∷ bs) ++ net'.0)
      × (net'.1 ≡ net.1)
from_peer_reads len ([], out) pos some_there = absurd (omega arith)
from_peer_reads zero (b ∷ bs, out) pos some_there = absurd (omega arith)
from_peer_reads (suc len) (b ∷ bs, out) pos some_there = (
  b,
  take len bs,
  (drop len bs, out),
  refl,
  omega (arith, length-take len bs),
  ap (λ (l : List ℕ). b ∷ l) (sym (take-append-drop len bs)),
  refl,
)

from_peer_ends :
    (len : ℕ) (net : List ℕ × List ℕ)
    → net.0 ≡ []
    → (net' : List ℕ × List ℕ) × (from_peer len net ≡ (some [], net'))
      × (net'.0 ≡ [])
      × (net'.1 ≡ net.1)
from_peer_ends len ([], out) e = (([], out), refl, refl, refl)
from_peer_ends len (b ∷ bs, out) e = cc

abbrev in_twos_Works : Works in_twos
in_twos_Works = record {
  coming = λ net. net.0;
  sent = λ net. net.1;
  polls = λ net. (1, net, refl, refl, refl, refl, refl);
  reads = from_peer_reads;
  ends = from_peer_ends;
  writes = λ bs net pos. (2, (net.0, net.1 ++ take 2 bs), refl, omega arith, refl, refl);
}

abbrev to_read : List ℕ
to_read = 7 ∷ 8 ∷ 9 ∷ []

abbrev five : List ℕ
five = 1 ∷ 2 ∷ 3 ∷ 4 ∷ 5 ∷ []

abbrev connected : TcpConn (List ℕ × List ℕ)
connected = record { net = (to_read, []); strm_stat = idle; done_read = false; busy = false }

readtcp_lem_example :
    (0 < 2
      → 0 < length to_read
      → (bs : List ℕ) × (c' : TcpConn (List ℕ × List ℕ)) × (readtcp in_twos 1 0 2 connected
          ≡ some (some bs, c'))
        × (0 < length bs)
        × (length bs ≤ 2)
        × (to_read ≡ bs ++ in_twos_Works.coming c'.net)
        × (c'.strm_stat ≡ idle)
        × (c'.done_read ≡ true))
    × (to_read ≡ []
        → (c' : TcpConn (List ℕ × List ℕ)) × (readtcp in_twos 1 0 2 connected ≡ some (none, c'))
          × (c'.strm_stat ≡ xprt_died))
readtcp_lem_example = readtcp_lem in_twos in_twos_Works 1 0 2 connected (omega arith)

writetcp_lem_example :
    (c' : TcpConn (List ℕ × List ℕ)) × (writetcp in_twos 6 five connected ≡ some (5, c'))
    × (in_twos_Works.sent c'.net ≡ five)
    × (in_twos_Works.coming c'.net ≡ to_read)
    × (c'.strm_stat ≡ idle)
writetcp_lem_example = writetcp_lem in_twos in_twos_Works 6 five connected (omega arith)
