-- ===== src/CannonProxy.antt =====
-- The programs under cannon_proxy/: stores that hold two versions of a model, and a proxy that
-- spreads keys over several stores.
pub mod KeyMap
pub mod Store
pub mod StoreServer
pub mod Service
pub mod Inserts
pub mod ThreadPool
pub mod FilesReader
pub mod Reload
