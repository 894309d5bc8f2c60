-- ===== src/Xdr/Mem/Slices.antt =====
-- Cutting and replacing parts of the buffer.
use rpc_mt.Common.{
  ℕ, zero, suc, ◌+◌, ◌-◌, ◌^◌, ◌≤◌, ◌<◌, ◌≡◌, refl, ap, sym, ◌∙◌, List, [], ◌∷◌, ◌++◌, arith,
  length, take, drop, length-append, length-take, length-drop, take-length-append,
}
use rpc_mt.Xdr.Codec.{word_bytes}
use rpc_mt.Xdr.Mem.{word_of, splice}

pub take-take : (n m : ℕ) (xs : List ℕ) → n ≤ m → take n (take m xs) ≡ take n xs
take-take zero m xs h = refl
take-take (suc n) zero xs h = absurd (omega arith)
take-take (suc n) (suc m) [] h = refl
take-take (suc n) (suc m) (x ∷ xs) h = ap (λ (t : List ℕ). x ∷ t) (take-take n m xs (omega arith))

pub drop-take : (n m : ℕ) (xs : List ℕ) → drop n (take m xs) ≡ take (m - n) (drop n xs)
drop-take zero m xs = ap (λ (k : ℕ). take k xs) (omega arith)
drop-take (suc n) zero xs =
    let none_left : 0 ≡ 0 - suc n = omega arith in
    ap (λ (k : ℕ). take k (drop (suc n) xs)) none_left
drop-take (suc n) (suc m) [] = nothing (suc m - suc n)
  where
    nothing : (k : ℕ) → [] ≡ take {A = ℕ} k []
    nothing zero = refl
    nothing (suc k) = refl
drop-take (suc n) (suc m) (x ∷ xs) =
    drop-take n m xs ∙ ap (λ (k : ℕ). take k (drop n xs)) (minus m n)
  where
    minus : (a b : ℕ) → a - b ≡ suc a - suc b
    minus a b = omega arith

pub drop-drop : (n m : ℕ) (xs : List ℕ) → drop n (drop m xs) ≡ drop (m + n) xs
drop-drop n zero xs = ap (λ (k : ℕ). drop k xs) (omega arith)
drop-drop n (suc m) [] = drop_nil n ∙ sym (drop_nil (suc m + n))
  where
    drop_nil : (k : ℕ) → drop {A = ℕ} k [] ≡ []
    drop_nil zero = refl
    drop_nil (suc k) = refl
drop-drop n (suc m) (x ∷ xs) = drop-drop n m xs ∙ ap (λ (k : ℕ). drop k (x ∷ xs)) (plus m n)
  where
    plus : (a b : ℕ) → suc (a + b) ≡ suc a + b
    plus a b = omega arith

suc_plus : (a b : ℕ) → suc a + b ≡ suc (a + b)
suc_plus a b = omega arith

pub take-append_more : (xs ys : List ℕ) (n : ℕ) → take (length xs + n) (xs ++ ys) ≡ xs ++ take n ys
take-append_more [] ys n = ap (λ (k : ℕ). take k ys) (omega arith)
take-append_more (x ∷ xs) ys n =
    ap (λ (k : ℕ). take k (x ∷ (xs ++ ys))) (suc_plus (length xs) n)
    ∙ ap (λ (t : List ℕ). x ∷ t) (take-append_more xs ys n)

pub drop-append_more : (xs ys : List ℕ) (n : ℕ) → drop (length xs + n) (xs ++ ys) ≡ drop n ys
drop-append_more [] ys n = ap (λ (k : ℕ). drop k ys) (omega arith)
drop-append_more (x ∷ xs) ys n =
    ap (λ (k : ℕ). drop k (x ∷ (xs ++ ys))) (suc_plus (length xs) n) ∙ drop-append_more xs ys n

length-take_of : (n : ℕ) (xs : List ℕ) → n ≤ length xs → length (take n xs) ≡ n
length-take_of n xs h = omega (arith, length-take n xs)

pub length-splice :
    (base : List ℕ) (pos : ℕ) (bs : List ℕ)
    → pos + length bs ≤ length base
    → length (splice base pos bs) ≡ length base
length-splice base pos bs h = omega (
  arith,
  length-append (take pos base) (bs ++ drop (pos + length bs) base),
  length-append bs (drop (pos + length bs) base),
  length-take pos base,
  length-drop (pos + length bs) base,
)

pub take-splice :
    (base : List ℕ) (pos : ℕ) (bs : List ℕ)
    → pos + length bs ≤ length base
    → take (pos + length bs) (splice base pos bs) ≡ take pos base ++ bs
take-splice base pos bs h =
    ap (λ (t : ℕ). take (t + length bs) (splice base pos bs))
      (sym (length-take_of pos base (omega arith)))
    ∙ take-append_more (take pos base) (bs ++ drop (pos + length bs) base) (length bs)
    ∙ ap (λ (t : List ℕ). take pos base ++ t) (take-length-append bs (drop (pos + length bs) base))

-- A word survives being written as bytes.
pub word_of-word_bytes : (w : ℕ) → w < 2 ^ 32 → word_of (word_bytes w) 0 ≡ w
word_of-word_bytes w h = omega arith
