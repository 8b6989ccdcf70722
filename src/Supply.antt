-- ===== src/Supply.antt =====
-- bin/vendor/src/supply: what the vendor holds of each asset, long and short, executed and
-- simulated.
pub mod Asset
pub mod State
pub mod Manager
