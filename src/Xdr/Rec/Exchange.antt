-- ===== src/Xdr/Rec/Exchange.antt =====
-- src/librpc/xdr_rec.c: a record of words from one end to the other.
use rpc_mt.Common.{ℕ, ◌%◌, ◌^◌, ◌<◌, ◌≡◌, Bool, true, false, List, [], ◌++◌, arith}
use rpc_mt.Xdr.{returned, ◌>>◌, sign_extend}
use rpc_mt.Xdr.Codec.{word_bytes}
use rpc_mt.Xdr.Rec.{
  Handle, RecStrm, xdrrec_getlong, xdrrec_getint32, xdrrec_putlong, xdrrec_putint32,
  xdrrec_endofrecord,
}
use rpc_mt.Xdr.Rec.Input.{Reader, IsValid, wire}
use rpc_mt.Xdr.Rec.Records.{InRecord}
use rpc_mt.Xdr.Rec.Output.{Writer, InOutput}
use rpc_mt.Xdr.Rec.Words.{
  InWords, xdrrec_getint32_lem, xdrrec_getlong_lem, xdrrec_putint32_lem, xdrrec_putlong_lem,
}
use rpc_mt.Xdr.Rec.Whole.{xdrrec_endofrecord_lem}

module _ {H : Type 0} (handle : Handle H) (reader : Reader handle) (writer : Writer handle) where
  -- An `int32_t` and a `long` that are put where a record begins, in a buffer of whole words, come back
  -- from the stream at the other end: the first as it was, the second cut to 32 bits with its sign, and
  -- the record ends after them. The bytes of the record are the next of the output, sent at once if that
  -- is asked for; the reader is any valid stream that stands between records before them, and more than 8
  -- rounds are enough for it.
  pub xdrrec_getlong-putlong :
      (n w l : ℕ) (s : RecStrm H) (before : List ℕ) (sendnow : Bool)
      → 8 < n
      → w < 2 ^ 32
      → InWords handle writer s before []
      → (bytes : List ℕ) × (s' : RecStrm H) × ((xdrrec_putint32 handle w
              >> xdrrec_putlong handle l
              >> xdrrec_endofrecord handle sendnow)
            s
          ≡ returned tt s')
        × InOutput handle writer s' (before ++ bytes) []
        × (sendnow ≡ true → writer.sent s'.tcp_handle ≡ before ++ bytes)
        × ((t : RecStrm H) (rest : List ℕ)
            → IsValid t
            → t.fbtbc ≡ 0
            → t.last_frag ≡ false
            → wire handle reader t ≡ bytes ++ rest
            → (t1 : RecStrm H) × (t2 : RecStrm H) × (xdrrec_getint32 handle n t ≡ returned w t1)
              × (xdrrec_getlong handle n t1 ≡ returned (sign_extend 32 64 (l % 2 ^ 32)) t2)
              × InRecord handle reader t2 [] rest)
  xdrrec_getlong-putlong n w l s before sendnow head small r =
      let (s1, put1, r1) = xdrrec_putint32_lem handle writer w s before [] r in
      let (s2, put2, r2) = xdrrec_putlong_lem handle writer l s1 before (word_bytes w) r1 in
      let (s', ended, closed) =
        xdrrec_endofrecord_lem handle writer sendnow s2 before
          (word_bytes w ++ word_bytes (l % 2 ^ 32)) r2.output in
      (
        closed.bytes,
        s',
        rw put1 (rw put2 ended),
        closed.output,
        closed.sent,
        λ t rest v none_left open_ here.
            let in_record : InRecord handle reader t (word_bytes w ++ word_bytes (l % 2 ^ 32))
                rest =
              record {
                valid = v;
                small = omega arith;
                carries = rw (none_left, open_, here) (closed.carries rest);
              } in
            let (t1, got1, m1) =
              xdrrec_getint32_lem handle reader n w t (word_bytes (l % 2 ^ 32)) rest head small
                in_record in
            let (t2, got2, m2) =
              xdrrec_getlong_lem handle reader n (l % 2 ^ 32) t1 [] rest head (omega arith) m1 in
            (t1, t2, got1, got2, m2),
      )
