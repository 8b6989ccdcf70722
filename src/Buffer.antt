-- ===== src/Buffer.antt =====
-- bin/vendor/src/buffer: the asynchronous order buffer of the vendor process. A lock is held for
-- the whole of each method, so a method is one function on the state; clock readings are
-- arguments, in milliseconds.
pub mod Order
pub mod Queue
pub mod MinSize
pub mod Costs
pub mod Withdrawals
