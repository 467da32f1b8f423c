-- ===== src/Consensus/Fees/BaseFee.antt =====
-- The base fee follows the parent's gas use, by an eighth at most.
