-- ===== src/Codec/RoundTrip.antt =====
-- Encoding and decoding (libs/common/src/uint.rs and vector.rs), one after the other.
use vendor.Base.{
  ℕ, zero, suc, ◌+◌, ◌-◌, ◌*◌, ◌/◌, ◌%◌, ◌^◌, ◌≤◌, ◌<◌, ◌≡◌, ◌≢◌, ◌⊎◌, inl, inr, subst, refl, sym,
  ap, ◌∙◌, List, [], ◌∷◌, ◌++◌, length, take, drop, returns, panics, All, arith, append-nil,
  append_assoc, length-append, le→leb, take-append-drop, length-take, length-drop, take_all,
}
use native.Mathlib.Nat.{pow-suc}
use vendor.Codec.{
  to_le_bytes, from_le_bytes, slice, read_u128, write_u128, from_vec_loop, from_vec, to_vec_loop,
  to_vec,
}
use vendor.Amount.{IsAmount}

abbrev pub IsByte : ℕ → Type 0
IsByte b = b < 256

pub length-to_le_bytes : (n v : ℕ) → length (to_le_bytes n v) ≡ n
unfolding to_le_bytes
length-to_le_bytes zero v = refl
length-to_le_bytes (suc n) v = ap suc (length-to_le_bytes n (v / 256))

pub from-to_le_bytes : (n v : ℕ) → v < 256 ^ n → from_le_bytes (to_le_bytes n v) ≡ v
unfolding to_le_bytes from_le_bytes
from-to_le_bytes zero v h = omega arith
from-to_le_bytes (suc n) v h =
    omega (arith, pow-suc 256 n, from-to_le_bytes n (v / 256) (omega (arith, pow-suc 256 n)))

to-from_le_bytes : (bs : List ℕ) → All IsByte bs → to_le_bytes (length bs) (from_le_bytes bs) ≡ bs
unfolding to_le_bytes from_le_bytes
to-from_le_bytes [] h = refl
to-from_le_bytes (b ∷ bs) h =
    let low : (b + 256 * from_le_bytes bs) % 256 ≡ b = omega arith in
    let high : (b + 256 * from_le_bytes bs) / 256 ≡ from_le_bytes bs = omega arith in
    rw (low, high, to-from_le_bytes bs h.1)

from_le_bytes-lt : (bs : List ℕ) → All IsByte bs → from_le_bytes bs < 256 ^ length bs
unfolding from_le_bytes
from_le_bytes-lt [] h = omega arith
from_le_bytes-lt (b ∷ bs) h = omega (arith, pow-suc 256 (length bs), from_le_bytes-lt bs h.1)

pub drop-append : (xs ys : List ℕ) → drop (length xs) (xs ++ ys) ≡ ys
drop-append [] ys = refl
drop-append (x ∷ xs) ys = drop-append xs ys

pub take-append : (xs ys : List ℕ) → take (length xs) (xs ++ ys) ≡ xs
take-append [] ys = refl
take-append (x ∷ xs) ys = ap (◌∷◌ x) (take-append xs ys)

-- A slice of the middle part is that part.
slice_middle :
    (before part after : List ℕ)
    → slice (before ++ (part ++ after)) (length before) (length before + length part) ≡ returns part
slice_middle before part after =
    let inside : length before + length part ≤ length (before ++ (part ++ after)) =
      omega (arith, length-append before (part ++ after), length-append part after) in
    let width : length before + length part - length before ≡ length part = omega arith in
    rw (le→leb _ _ inside, drop-append before (part ++ after), width, take-append part after)

read_u128-to_le_bytes : (v : ℕ) → IsAmount v → read_u128 (to_le_bytes 16 v) ≡ returns v
unfolding read_u128
read_u128-to_le_bytes v h =
    let width = length-to_le_bytes 16 v in
    rw (
      le→leb 16 (length (to_le_bytes 16 v)) (omega (arith, width)),
      take_all 16 (to_le_bytes 16 v) (omega (arith, width)),
      from-to_le_bytes 16 v h,
    )

slice_word :
    (before part after : List ℕ)
    → length part ≡ 16
    → slice (before ++ (part ++ after)) (length before) (length before + 16) ≡ returns part
slice_word before part after width = rw width at (slice_middle before part after)

to_vec_loop-append : (vs output : List ℕ) → to_vec_loop vs output ≡ output ++ to_vec_loop vs []
unfolding to_vec_loop write_u128
to_vec_loop-append [] output = rw append-nil
to_vec_loop-append (v ∷ vs) output =
    to_vec_loop-append vs (output ++ to_le_bytes 16 v)
    ∙ append_assoc output (to_le_bytes 16 v) (to_vec_loop vs [])
    ∙ ap (◌++◌ output) (sym (to_vec_loop-append vs (to_le_bytes 16 v)))

pub to_vec-nil : to_vec [] ≡ []
unfolding to_vec to_vec_loop
to_vec-nil = refl

pub to_vec-cons : (v : ℕ) (vs : List ℕ) → to_vec (v ∷ vs) ≡ to_le_bytes 16 v ++ to_vec vs
unfolding to_vec to_vec_loop write_u128
to_vec-cons v vs = to_vec_loop-append vs (to_le_bytes 16 v)

from_vec_loop-to_vec :
    (vs before found : List ℕ)
    → All IsAmount vs
    → from_vec_loop (length vs) (before ++ to_vec vs) (length before) found ≡ returns (found ++ vs)
unfolding from_vec_loop
from_vec_loop-to_vec [] before found h = rw append-nil
from_vec_loop-to_vec (v ∷ vs) before found h =
    let word = to_le_bytes 16 v in
    let width : length (before ++ word) ≡ length before + 16 =
      omega (arith, length-append before word, length-to_le_bytes 16 v) in
    let ih = from_vec_loop-to_vec vs (before ++ word) (found ++ v ∷ []) h.1 in
    rw
      (
        to_vec-cons v vs,
        slice_word before word (to_vec vs) (length-to_le_bytes 16 v),
        read_u128-to_le_bytes v h.0,
      )
      (rw (width, append_assoc before word (to_vec vs), append_assoc found (v ∷ []) vs) at ih)

pub length-to_vec : (vs : List ℕ) → length (to_vec vs) ≡ length vs * 16
unfolding to_vec to_vec_loop
length-to_vec [] = refl
length-to_vec (v ∷ vs) = omega (
  arith,
  ap length (to_vec-cons v vs),
  length-append (to_le_bytes 16 v) (to_vec vs),
  length-to_le_bytes 16 v,
  length-to_vec vs,
)

-- Decoding the bytes of a list of `u128` values gives the list back.
pub from_vec-to_vec : (vs : List ℕ) → All IsAmount vs → from_vec (to_vec vs) ≡ returns vs
unfolding from_vec
from_vec-to_vec vs h =
    let size = length-to_vec vs in
    let whole : length (to_vec vs) % 16 ≡ 0 = omega (arith, size) in
    let rounds : length (to_vec vs) / 16 ≡ length vs = omega (arith, size) in
    rw (whole, rounds) (from_vec_loop-to_vec vs [] [] h)

pub All-append-split :
    (n : ℕ) (bs : List ℕ) → All IsByte bs → All IsByte (take n bs) × All IsByte (drop n bs)
All-append-split zero bs h = (tt, h)
All-append-split (suc n) [] h = (tt, tt)
All-append-split (suc n) (b ∷ bs) h = let (p, q) = All-append-split n bs h.1 in ((h.0, p), q)

-- Whole words of bytes are the bytes of some values.
pub words_of :
    (n : ℕ) (bs : List ℕ)
    → All IsByte bs
    → length bs ≡ n * 16
    → (vs : List ℕ) × All IsAmount vs × (to_vec vs ≡ bs)
unfolding to_vec to_vec_loop
words_of zero [] h e = ([], tt, refl)
words_of zero (b ∷ bs) h e = absurd (omega arith)
words_of (suc n) bs h e =
    let (low, high) = All-append-split 16 bs h in
    let word = take 16 bs in
    let v = from_le_bytes word in
    let width : length word ≡ 16 = omega (arith, length-take 16 bs) in
    let (vs, bounded, back) = words_of n (drop 16 bs) high (omega (arith, length-drop 16 bs)) in
    let in_range : IsAmount v = rw width at (from_le_bytes-lt word low) in
    let word_back : to_le_bytes 16 v ≡ word = rw width at (to-from_le_bytes word low) in
    (
      v ∷ vs,
      (in_range, bounded),
      to_vec-cons v vs ∙ rw (word_back) (ap (◌++◌ word) back ∙ take-append-drop 16 bs),
    )

zero_cases : (n : ℕ) → (n ≡ 0) ⊎ (n ≢ 0)
zero_cases n = grind arith

-- Decoding bytes returns exactly where they are whole words, and gives there values whose bytes
-- are the input; elsewhere it panics.
pub from_vec_lem :
    (bs : List ℕ)
    → All IsByte bs
    → ((length bs % 16 ≡ 0) × ((vs : List ℕ) × (from_vec bs ≡ returns vs) × (to_vec vs ≡ bs)))
      ⊎ ((length bs % 16 ≢ 0) × (from_vec bs ≡ panics))
unfolding from_vec
from_vec_lem bs h = elim (zero_cases (length bs % 16)) [
  | inl whole ↦
      let (vs, bounded, back) = words_of (length bs / 16) bs h (omega arith) in
      inl
        (whole, (vs, subst (λ b. from_vec b ≡ returns vs) back (from_vec-to_vec vs bounded), back))
  | inr ragged ↦ inr (ragged, ground arith)
]
