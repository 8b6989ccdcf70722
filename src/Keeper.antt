-- ===== src/Keeper.antt =====
-- The keeper's own work, bin/keeper/src/keeper: the pipeline for a flushed batch, and the claims.
-- The vendor's service, behind bin/keeper/src/vendor/client.rs, is a parameter.
pub mod Claims
pub mod Pipeline
mod Tests
use Prim.Native.String.{String}
use vendor.Base.{ℕ, List, Result}
use vendor.Onchain.{Sent}

-- bin/keeper/src/vendor/types.rs
pub record UpdateMarketDataRequest : Type 0 where
  pub assets : List ℕ
  pub batch_id : String

pub record UpdateMarketDataResponse : Type 0 where
  pub status : String
  pub assets_updated : ℕ
  pub batch_id : String
  pub timestamp : ℕ

-- The requests that were posted to the vendor, the oldest first.
abbrev pub Posted : Type 0
Posted = List UpdateMarketDataRequest

-- The vendor may answer a request as it likes, depending on those before.
abbrev pub Vendor : Type 0
Vendor = Posted → UpdateMarketDataRequest → Result UpdateMarketDataResponse String

-- What the keeper has done to the outside.
pub record Done : Type 0 where
  pub posted : Posted
  pub sent : Sent
