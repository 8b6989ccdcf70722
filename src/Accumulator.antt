-- ===== src/Accumulator.antt =====
-- bin/keeper/src/accumulator: the keeper collects orders by index until a block or a time window
-- has passed, and hands the batch on with buys and sells apart. An address is the number that it
-- stands for; the clock is read once in each method, in milliseconds.
pub mod Batch
pub mod Flush
pub mod Processable
