-- ===== src/Sync.antt =====
-- internal/client/sync: the client's synchronisation of the local datasites with the server.
pub mod Status
pub mod Files
pub mod Reconcile
pub mod Handlers
pub mod Downloads
pub mod Priority
