-- ===== src/Store.antt =====
-- pkg/store: the types of the persistence seam, and pkg/store/memstore, the backend that keeps
-- them in memory.
pub mod Hash
pub mod MemStore
mod Tests
