-- ===== src/Acl.antt =====
-- The server's access control (internal/server/acl): paths, rules, the tree, the cache, the service.
pub mod Paths
pub mod Level
pub mod Matcher
pub mod Rule
pub mod Specificity
pub mod Node
pub mod Tree
pub mod Cache
pub mod Service
