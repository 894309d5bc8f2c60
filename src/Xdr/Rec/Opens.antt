-- ===== src/Xdr/Rec/Opens.antt =====
-- src/librpc/xdr_rec.c: the fragments of a record that is being written.
use rpc_mt.Common.{
  ℕ, ◌+◌, ◌%◌, ◌^◌, ◌<◌, ◌≡◌, refl, ap, sym, ◌∙◌, Bool, false, List, [], ◌++◌, arith, length, leb,
  length-append,
}
use rpc_mt.Xdr.Codec.{append_assoc, word_bytes}
use rpc_mt.Xdr.Rec.Fragments.{Carries, final, more}

-- More bytes of the fragment in front.
Carries-prepend :
    {n : ℕ} {last : Bool} {wire payload rest : List ℕ} (w : List ℕ)
    → Carries n last wire payload rest
    → Carries (length w + n) last (w ++ wire) (w ++ payload) rest
Carries-prepend {payload = payload} {rest} w (final last count here) =
    final last (omega (arith, length-append w payload))
      (ap (λ (l : List ℕ). w ++ l) here ∙ sym (append_assoc w payload rest))
Carries-prepend w (more v p wire' h last count pos small here load later) =
    more (w ++ v) p wire' h last (omega (arith, length-append w v)) pos small
      (ap (λ (l : List ℕ). w ++ l) here ∙ sym (append_assoc w v (word_bytes h ++ wire')))
      (ap (λ (l : List ℕ). w ++ l) load ∙ sym (append_assoc w v p)) later

-- These are the first fragments of a record, and hold these bytes of it.
abbrev pub Opens : (fragments payload : List ℕ) → Type 0
Opens fs p =
    (wire q rest : List ℕ)
    → Carries 0 false wire q rest
    → Carries 0 false (fs ++ wire) (p ++ q) rest

-- One more fragment that is not the last, and one that is.
open_fragment :
    (w wire q rest : List ℕ)
    → 0 < length w
    → length w < 2 ^ 31
    → Carries 0 false wire q rest
    → Carries 0 false (word_bytes (length w) ++ (w ++ wire)) (w ++ q) rest
open_fragment w wire q rest pos small next =
    more [] (w ++ q) (w ++ wire) (length w) refl refl pos (omega arith) refl refl (
      at_header (length w + 0) (length w % 2 ^ 31) false (leb (2 ^ 31) (length w)) (omega arith)
        (ground (arith, small)) (Carries-prepend w next))
  where
    at_header :
        (n n' : ℕ) (l l' : Bool)
        → n ≡ n'
        → l ≡ l'
        → Carries n l (w ++ wire) (w ++ q) rest
        → Carries n' l' (w ++ wire) (w ++ q) rest
    at_header n n' l l' e f k = rw (e, f) at k

close_fragment :
    (w rest : List ℕ)
    → length w < 2 ^ 31
    → Carries 0 false (word_bytes (length w + 2 ^ 31) ++ (w ++ rest)) w rest
close_fragment w rest small =
    more [] w (w ++ rest) (length w + 2 ^ 31) refl refl (omega arith) (omega arith) refl refl
      (final (ground (arith, small)) (omega arith) refl)

-- A fragment is put after those of the record, which is the last one or not.
pub Opens-append :
    (fs p c : List ℕ)
    → Opens fs p
    → 0 < length c
    → length c < 2 ^ 31
    → Opens (fs ++ (word_bytes (length c) ++ c)) (p ++ c)
Opens-append fs p c opens pos small wire q rest next =
    rw (append_assoc fs (word_bytes (length c) ++ c) wire, append_assoc p c q)
      (opens (word_bytes (length c) ++ (c ++ wire)) (c ++ q) rest
        (open_fragment c wire q rest pos small next))

pub Opens-Carries :
    (fs p c rest : List ℕ)
    → Opens fs p
    → length c < 2 ^ 31
    → Carries 0 false ((fs ++ (word_bytes (length c + 2 ^ 31) ++ c)) ++ rest) (p ++ c) rest
Opens-Carries fs p c rest opens small =
    rw (append_assoc fs (word_bytes (length c + 2 ^ 31) ++ c) rest)
      (opens (word_bytes (length c + 2 ^ 31) ++ (c ++ rest)) c rest (close_fragment c rest small))
