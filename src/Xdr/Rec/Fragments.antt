-- ===== src/Xdr/Rec/Fragments.antt =====
-- src/librpc/xdr_rec.c, `xdrrec_getbytes`: the fragments of a record.
use rpc_mt.Common.{
  ℕ, ◌-◌, ◌%◌, ◌^◌, ◌≤◌, ◌<◌, ◌≡◌, refl, ap, sym, ◌∙◌, inl, Bool, true, false, List, [], ◌∷◌, ◌++◌,
  arith, length, take, drop, leb, eq_nil_of_length, length-append, length-take, length-drop,
  take-append-drop, ne→==,
}
use rpc_mt.Xdr.{returned}
use rpc_mt.Xdr.Codec.{append_assoc, word_bytes}
use rpc_mt.Xdr.Mem.Slices.{word_of-word_bytes}
use rpc_mt.Xdr.Mem.{word_of}
use rpc_mt.Xdr.Rec.{Handle, RecStrm, set_input_fragment}
use rpc_mt.Xdr.Rec.Input.{Reader, IsValid, wire, get_input_bytes_lem}

-- A connection that is `n` bytes before the end of a fragment, the last one of its record or not, and
-- carries these bytes to the end of the record, and `rest` after it.
pub data Carries : (n : ℕ) (last : Bool) (wire payload rest : List ℕ) → Type 0 where
  final :
      {n : ℕ} {last : Bool} {wire payload rest : List ℕ}
      → last ≡ true
      → length payload ≡ n
      → wire ≡ payload ++ rest
      → Carries n last wire payload rest
  more :
      {n : ℕ} {last : Bool} {wire payload rest : List ℕ} (w p wire' : List ℕ) (h : ℕ)
      → last ≡ false
      → length w ≡ n
      → 0 < h
      → h < 2 ^ 32
      → wire ≡ w ++ (word_bytes h ++ wire')
      → payload ≡ w ++ p
      → Carries (h % 2 ^ 31) (leb (2 ^ 31) h) wire' p rest
      → Carries n last wire payload rest

pub append_split :
    (bs cs x y : List ℕ) → length bs ≡ length cs → bs ++ x ≡ cs ++ y → (bs ≡ cs) × (x ≡ y)
append_split [] [] x y l e = (refl, e)
append_split [] (c ∷ cs) x y l e = absurd (omega arith)
append_split (b ∷ bs) [] x y l e = absurd (omega arith)
append_split (b ∷ bs) (c ∷ cs) x y l e =
    let tail : bs ++ x ≡ cs ++ y = cc in
    let (same, rest) = append_split bs cs x y (omega arith) tail in (cc, rest)

-- A prefix of a list that begins as another does is a prefix of that.
prefix :
    (c : ℕ) (bs w x y : List ℕ)
    → length bs ≡ c
    → c ≤ length w
    → bs ++ x ≡ w ++ y
    → (w ≡ bs ++ drop c w) × (x ≡ drop c w ++ y)
prefix c bs w x y l le e =
    let cut : w ++ y ≡ take c w ++ (drop c w ++ y) =
      ap (λ (t : List ℕ). t ++ y) (sym (take-append-drop c w))
      ∙ append_assoc (take c w) (drop c w) y in
    let (same, rest) =
      append_split bs (take c w) x (drop c w ++ y) (omega (arith, length-take c w)) (e ∙ cut) in
    (sym (take-append-drop c w) ∙ ap (λ (t : List ℕ). t ++ drop c w) (sym same), rest)

pub Carries-length :
    {n : ℕ} {last : Bool} {wire payload rest : List ℕ}
    → Carries n last wire payload rest
    → n ≤ length wire
Carries-length {wire = wire} {payload} {rest} (final _ l e) =
    omega (arith, ap length e, length-append payload rest)
Carries-length (more w p wire' h _ l _ _ e _ _) =
    omega (arith, ap length e, length-append w (word_bytes h ++ wire'))

pub Carries-payload :
    {n : ℕ} {last : Bool} {wire payload rest : List ℕ}
    → Carries n last wire payload rest
    → n ≤ length payload
Carries-payload (final _ l e) = omega arith
Carries-payload (more w p wire' h _ l _ _ _ load _) =
    omega (arith, ap length load, length-append w p)

-- In the last fragment all that is left of the record is there.
pub Carries-last :
    {n : ℕ} {last : Bool} {wire payload rest : List ℕ}
    → last ≡ true
    → Carries n last wire payload rest
    → (length payload ≡ n) × (wire ≡ payload ++ rest)
Carries-last closed (final _ count here) = (count, here)
Carries-last closed (more w p next h last count pos small here load later) = cc

-- Some of the fragment's bytes are taken.
pub Carries-take :
    {n : ℕ} {last : Bool} {wire payload rest : List ℕ} (c : ℕ) (bs wire' : List ℕ)
    → c ≤ n
    → length bs ≡ c
    → wire ≡ bs ++ wire'
    → Carries n last wire payload rest
    → (payload' : List ℕ) × (payload ≡ bs ++ payload') × Carries (n - c) last wire' payload' rest
Carries-take {payload = payload} {rest} c bs wire' le l e (final last count here) =
    let (front, back) = prefix c bs payload wire' rest l (omega arith) (sym e ∙ here) in
    (drop c payload, front, final last (omega (arith, length-drop c payload)) back)
Carries-take c bs wire' le l e (more w p next h last count pos small here load later) =
    let (front, back) = prefix c bs w wire' (word_bytes h ++ next) l (omega arith) (sym e ∙ here) in
    (
      drop c w ++ p,
      load ∙ ap (λ (t : List ℕ). t ++ p) front ∙ append_assoc bs (drop c w) p,
      more (drop c w) p next h last (omega (arith, length-drop c w)) pos small back refl later,
    )

-- At the end of a fragment that is not the last, a header comes.
pub Carries-header :
    {n : ℕ} {last : Bool} {wire payload rest : List ℕ}
    → n ≡ 0
    → last ≡ false
    → Carries n last wire payload rest
    → (h : ℕ) × (wire' : List ℕ) × (0 < h)
      × (h < 2 ^ 32)
      × (wire ≡ word_bytes h ++ wire')
      × Carries (h % 2 ^ 31) (leb (2 ^ 31) h) wire' payload rest
Carries-header end open_ (final last _ _) = cc
Carries-header {rest = rest} end open_ (more w p wire' h last count pos small here load later) =
    let none_left = eq_nil_of_length w (count ∙ end) in
    (
      h,
      wire',
      pos,
      small,
      here ∙ ap (λ (t : List ℕ). t ++ (word_bytes h ++ wire')) none_left,
      rw (load ∙ ap (λ (t : List ℕ). t ++ p) none_left) later,
    )

module _ {H : Type 0} (handle : Handle H) (reader : Reader handle) where
  -- A header is taken off.
  pub set_input_fragment_lem :
      (n h : ℕ) (s : RecStrm H) (w : List ℕ)
      → 8 < n
      → IsValid s
      → 0 < h
      → h < 2 ^ 32
      → wire handle reader s ≡ word_bytes h ++ w
      → (s' : RecStrm H) × (set_input_fragment handle n s ≡ returned tt s')
        × (wire handle reader s' ≡ w)
        × IsValid s'
        × (s'.fbtbc ≡ h % 2 ^ 31)
        × (s'.last_frag ≡ leb (2 ^ 31) h)
  unfolding set_input_fragment
  set_input_fragment_lem n h s w rounds v pos small here =
      let (bs, t, got, count, took) =
        get_input_bytes_lem handle reader n 4 s v (inl (omega arith))
          (omega (arith, ap length here, length-append (word_bytes h) w)) in
      let (same, left) =
        append_split bs (word_bytes h) (wire handle reader t) w (omega arith)
          (sym took.taken ∙ here) in
      let header : word_of bs 0 ≡ h =
        ap (λ (l : List ℕ). word_of l 0) same ∙ word_of-word_bytes h small in
      (
        record t { last_frag = leb (2 ^ 31) h; fbtbc = h % 2 ^ 31 },
        rw got (rw header (rw (ne→== h 0 (omega arith)) refl)),
        left,
        record {
          ordered = took.valid.ordered;
          inside = took.valid.inside;
          whole = took.valid.whole;
          holds = took.valid.holds;
        },
        refl,
        refl,
      )
