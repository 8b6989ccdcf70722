-- ===== src/Chain/Steward/Decode.antt =====
-- The client's own decoder of asset ids, compared with that of the byte codec.
use vendor.Base.{
  ℕ, zero, suc, ◌+◌, ◌-◌, ◌*◌, ◌/◌, ◌<◌, ◌≡◌, refl, sym, ap, subst, ◌∙◌, List, [], ◌∷◌, ◌++◌, true,
  false, length, take, drop, ok, returns, All, arith, append_assoc, take-append-drop, length-take,
  length-drop, nat_beq,
}
use vendor.Amount.{IsAmount}
use vendor.Codec.{from_vec, to_vec, to_le_bytes}
use vendor.Codec.RoundTrip.{
  All-append-split, to_vec-nil, IsByte, length-to_le_bytes, from-to_le_bytes, take-append,
  drop-append, to_vec-cons, words_of, from_vec-to_vec, length-to_vec,
}
use vendor.Chain.Steward.{chunk_loop, decode_asset_ids}

-- Less than a word is skipped.
chunk_loop-tail : (rounds : ℕ) (tail : List ℕ) → length tail < 16 → chunk_loop rounds tail ≡ []
unfolding chunk_loop
chunk_loop-tail zero tail h = refl
chunk_loop-tail (suc rounds) tail h =
    let short : nat_beq (length (take 16 tail)) 16 ≡ false = ground (arith, length-take 16 tail) in
    rw short (chunk_loop-tail rounds (drop 16 tail) (omega (arith, length-drop 16 tail)))

take_width : (n : ℕ) (xs ys : List ℕ) → length xs ≡ n → take n (xs ++ ys) ≡ xs
take_width n xs ys e = subst (λ k. take k (xs ++ ys) ≡ xs) e (take-append xs ys)

drop_width : (n : ℕ) (xs ys : List ℕ) → length xs ≡ n → drop n (xs ++ ys) ≡ ys
drop_width n xs ys e = subst (λ k. drop k (xs ++ ys) ≡ ys) e (drop-append xs ys)

chunk_loop-to_vec :
    (vs : List ℕ) (rounds : ℕ) (tail : List ℕ)
    → All IsAmount vs
    → length tail < 16
    → chunk_loop (length vs + rounds) (to_vec vs ++ tail) ≡ vs
unfolding chunk_loop
chunk_loop-to_vec [] rounds tail h short = rw to_vec-nil (chunk_loop-tail _ tail short)
chunk_loop-to_vec (v ∷ vs) rounds tail h short =
    let word = to_le_bytes 16 v in
    let rest = to_vec vs ++ tail in
    let width = length-to_le_bytes 16 v in
    let bytes : to_vec (v ∷ vs) ++ tail ≡ word ++ rest =
      ap (λ l. l ++ tail) (to_vec-cons v vs) ∙ append_assoc word (to_vec vs) tail in
    let e : length (v ∷ vs) + rounds ≡ suc (length vs + rounds) = omega arith in
    let whole : nat_beq (length word) 16 ≡ true = ground (arith, width) in
    rw
      (
        e,
        bytes,
        chunk_loop,
        take_width 16 word rest width,
        drop_width 16 word rest width,
        whole,
        from-to_le_bytes 16 v h.0,
      )
      (ap (◌∷◌ v) (chunk_loop-to_vec vs rounds tail h.1 short))

-- The client's decoder never fails. It gives what the byte codec decodes from the whole words, and
-- skips a shorter rest, where the codec would panic.
pub decode_asset_ids-eq-from_vec :
    (bytes : List ℕ)
    → All IsByte bytes
    → (values : List ℕ) × (from_vec (take (length bytes / 16 * 16) bytes) ≡ returns values)
      × (decode_asset_ids bytes ≡ ok values)
unfolding decode_asset_ids chunk_loop
decode_asset_ids-eq-from_vec [] h = ([], ap from_vec (sym to_vec-nil) ∙ from_vec-to_vec [] tt, refl)
decode_asset_ids-eq-from_vec (b ∷ bs) h =
    let bytes : List ℕ = b ∷ bs in
    let n = length bytes / 16 in
    let whole = take (n * 16) bytes in
    let tail = drop (n * 16) bytes in
    let size : length whole ≡ n * 16 = omega (arith, length-take (n * 16) bytes) in
    let (values, bounded, back) = words_of n whole (All-append-split (n * 16) bytes h).0 size in
    let count : length values ≡ n = omega (arith, length-to_vec values, ap length back, size) in
    let parts : bytes ≡ to_vec values ++ tail =
      sym (take-append-drop (n * 16) bytes) ∙ ap (λ l. l ++ tail) (sym back) in
    let rounds : (length bytes + 15) / 16 ≡ length values + ((length bytes + 15) / 16 - n) =
      omega (arith, count) in
    (
      values,
      ap from_vec (sym back) ∙ from_vec-to_vec values bounded,
      ap ok (
          ap (λ k. chunk_loop k bytes) rounds
          ∙ ap (chunk_loop _) parts
          ∙ chunk_loop-to_vec values _ tail bounded (omega (arith, length-drop (n * 16) bytes))),
    )
