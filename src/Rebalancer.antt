-- ===== src/Rebalancer.antt =====
-- bin/vendor/src/delta_rebalancer: what the vendor has to buy and sell.
pub mod Delta
