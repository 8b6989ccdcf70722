-- ===== src/Base/Sets.antt =====
-- Lists of numbers as sets.
use Prim.Native.Nat.{ℕ, ◌<◌, ◌≤◌}
use mathlib.Core.Path.{◌≡◌, refl}
use mathlib.Core.Bool.{Bool, false, ◌||◌}
use mathlib.Core.List.{List, [], ◌∷◌, ◌++◌}
use native.Mathlib.Omega.{arith}
use vendor.Base.Tests.{nat_beq, ltb}
use vendor.Base.Lists.{count}

-- `contains`
abbrev pub contains : ℕ → List ℕ → Bool
contains v [] = false
contains v (w ∷ ws) = nat_beq w v || contains v ws

pub contains-append :
    (v : ℕ) (xs ys : List ℕ) → contains v (xs ++ ys) ≡ (contains v xs || contains v ys)
contains-append v [] ys = refl
contains-append v (x ∷ xs) ys = ground (arith, contains-append v xs ys)

-- No number is listed twice.
abbrev pub IsNodup : List ℕ → Type 0
IsNodup [] = Unit
IsNodup (x ∷ xs) = (contains x xs ≡ false) × IsNodup xs

pub IsNodup-push :
    (v : ℕ) (xs : List ℕ) → contains v xs ≡ false → IsNodup xs → IsNodup (xs ++ v ∷ [])
IsNodup-push v [] h d = (refl, tt)
IsNodup-push v (x ∷ xs) h d = ground (arith, contains-append x xs (v ∷ []), IsNodup-push v xs)

-- A number is contained where it is counted.
pub contains-count : (v : ℕ) (xs : List ℕ) → contains v xs ≡ ltb 0 (count (λ x. nat_beq x v) xs)
contains-count v [] = ground arith
contains-count v (x ∷ xs) = ground (arith, contains-count v xs)

-- Each number is less than the next one.
abbrev pub IsAscending : List ℕ → Type 0
IsAscending [] = Unit
IsAscending (n ∷ []) = Unit
IsAscending (n ∷ k ∷ ks) = (n < k) × IsAscending (k ∷ ks)

-- In a list without repetition each number is counted once at most.
pub count-nodup : (v : ℕ) (xs : List ℕ) → IsNodup xs → count (λ x. nat_beq x v) xs ≤ 1
count-nodup v [] d = omega arith
count-nodup v (x ∷ xs) d = ground (arith, contains-count v xs, count-nodup v xs d.1)
