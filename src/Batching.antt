-- ===== src/Batching.antt =====
-- baselines/batching/enclave/trusted: the operations of the batching baseline.
pub mod Oblivious
pub mod Operations
pub mod Comparators
pub mod Merge
pub mod Orders
pub mod Exchanges
pub mod Aks
pub mod Batch
pub mod Below
pub mod Dispatcher
pub mod Passes
pub mod Shares
pub mod Rows
pub mod Heap
pub mod Sealed
pub mod Shuffle
pub mod Sorted
pub mod Window
pub mod Transform
