-- ===== src/Tests.antt =====
-- The theorems at concrete inputs, and runs of the models.
mod CannonTests
mod ProxyTests
mod HashTableTests
mod PoolTests
mod PolishTests
mod RexTests
mod QuicksortTests
mod KmpTests
mod SgdTests
mod SortedTests
mod MultiplicationTests
mod MergeTests
mod SchemaTests
mod ReaderTests
mod ReloadTests
