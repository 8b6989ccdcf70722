-- ===== src/Codec.antt =====
-- libs/common/src/uint.rs, and the byte forms of libs/common/src/vector.rs and labels.rs: a list
-- of `u128` values as 16 bytes each, lowest byte first. A byte is a number below 256.
pub mod RoundTrip
mod Tests
use vendor.Base.{
  ℕ, zero, suc, ◌+◌, ◌-◌, ◌*◌, ◌/◌, ◌%◌, List, [], ◌∷◌, ◌++◌, leb, nat_beq, if◌then◌else◌, length,
  take, drop, Outcome, returns, panics, ◌>>=◌,
}

-- `u128::to_le_bytes` (`n` is 16) and `u128::from_le_bytes`
pub to_le_bytes : ℕ → ℕ → List ℕ
to_le_bytes zero v = []
to_le_bytes (suc n) v = (v % 256) ∷ to_le_bytes n (v / 256)

unfoldable pub from_le_bytes : List ℕ → ℕ
from_le_bytes [] = 0
from_le_bytes (b ∷ bs) = b + 256 * from_le_bytes bs

-- `&data[start..stop]`, which panics out of range.
abbrev pub slice : List ℕ → ℕ → ℕ → Outcome (List ℕ)
slice bytes start stop =
    if leb stop (length bytes) then returns (take (stop - start) (drop start bytes)) else panics

pub read_u128 : List ℕ → Outcome ℕ
read_u128 input = do bytes ← slice input 0 16; returns (from_le_bytes bytes)

pub write_u128 : ℕ → List ℕ → List ℕ
write_u128 input output = output ++ to_le_bytes 16 input

-- `for _ in 0..vec_len` in `from_vec`, with the loop's own variables.
pub from_vec_loop : ℕ → List ℕ → ℕ → List ℕ → Outcome (List ℕ)
from_vec_loop zero bytes offset found = returns found
from_vec_loop (suc rounds) bytes offset found = do
  part ← slice bytes offset (offset + 16)
  v ← read_u128 part
  from_vec_loop rounds bytes (offset + 16) (found ++ v ∷ [])

pub from_vec : List ℕ → Outcome (List ℕ)
unfolding from_vec_loop read_u128
from_vec bytes =
    if nat_beq 0 (length bytes % 16) then from_vec_loop (length bytes / 16) bytes 0 [] else panics

to_vec_loop : List ℕ → List ℕ → List ℕ
to_vec_loop [] output = output
to_vec_loop (v ∷ vs) output = to_vec_loop vs (write_u128 v output)

pub to_vec : List ℕ → List ℕ
to_vec values = to_vec_loop values []
