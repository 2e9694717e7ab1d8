-- ===== src/Tests.antt =====
-- The theorems at concrete data, and runs of the model.
mod Acl
mod Rules
mod Samples
mod Store
mod Auth
mod Blob
mod Explorer
mod Hub
mod Send
mod Priority
mod Domains
mod Subdomain
mod Sync
mod Handlers
