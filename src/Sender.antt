-- ===== src/Sender.antt =====
-- bin/vendor/src/order_sender: how orders reach the exchange.
pub mod RateLimiter
