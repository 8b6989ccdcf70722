-- ===== src/Codec/Tests.antt =====
-- Two words of sixteen bytes.
use vendor.Base.{ℕ, ◌%◌, ◌≡◌, ◌≢◌, ◌⊎◌, refl, List, [], ◌∷◌, length, arith, returns, panics}
use vendor.Codec.{to_vec, from_vec, write_u128, to_le_bytes}
use vendor.Codec.RoundTrip.{from_vec_lem}

abbrev word : List ℕ
word = 2 ∷ 1 ∷ 0 ∷ 0 ∷ 0 ∷ 0 ∷ 0 ∷ 0 ∷ 0 ∷ 0 ∷ 0 ∷ 0 ∷ 0 ∷ 0 ∷ 0 ∷ 0 ∷ []

from_vec_lem_example :
    ((length word % 16 ≡ 0) × ((vs : List ℕ) × (from_vec word ≡ returns vs) × (to_vec vs ≡ word)))
    ⊎ ((length word % 16 ≢ 0) × (from_vec word ≡ panics))
from_vec_lem_example = from_vec_lem word (ground arith)

-- The low byte comes first.
write-word : write_u128 258 [] ≡ word
unfolding write_u128 to_le_bytes
write-word = refl
