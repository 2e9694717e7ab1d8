-- ===== src/Lib.antt =====
-- SyftBox keeps the datasites of its users on a server and synchronises them with folders on the
-- users' machines. This library models the parts of the program that decide: who may do what with
-- a file on the server, what the server does with a request, what a client's synchronisation does
-- with each file, and which subdomain belongs to which datasite. Paths are from the repository's
-- root.
--
-- The server's access control (internal/aclspec, internal/server/acl). A datasite holds files
-- named `syft.pub.yaml`, each a ruleset for its folder. The service keeps the rulesets in a tree by
-- path segments and answers requests with the rule that matches first in the nearest node, and it
-- remembers its answers in a cache.
--   FilePath      what the program uses of path/filepath (Clean, Base, Join) on slashes
--   AclSpec       aclspec.go, access.go, limits.go, rule.go, ruleset.go
--   Acl.Paths     path.go: ACLNormPath, ACLPathSegments, ACLJoinPath
--   Acl.Level     level.go and types.go: AccessLevel, ACLRequest, File
--   Acl.Matcher   matcher.go: exact, glob and template matchers
--   Acl.Rule      rule.go: CheckAccess, CheckLimits, Compile
--   Acl.Specificity  utils.go: the order of rules and the owner of a path
--   Acl.Node      node.go: ACLNode; a node is a value, its children an association list
--   Acl.Tree      tree.go: AddRuleSet, RemoveRuleSet, GetNearestNode, GetCompiledRule; what the
--                 tree stands for, a map from path parts to entries, is in Acl.Tree.View
--   Acl.Cache     cache.go: the keys and DeletePrefix, over the interface `Lru`
--   Acl.Service   acl.go: AddRuleSet, RemoveRuleSet, CanAccess, onBlobChange
--
-- The server's files and messages. The files are objects of a store with an index of them; the HTTP
-- handlers test the path and the rights of the user before they call the store, and an upload of an
-- ACL file changes the rules as well. A client that is connected by a websocket sends the files it
-- writes as messages, and the hub tells the users who may read them. The send service puts a
-- request for a datasite into a file, tells the datasite's websockets, and waits for the file of
-- the response.
--   Datasite        internal/server/datasite/utils.go, internal/utils/email.go: paths and owners
--   Blob            internal/server/blob: blob.go with PutObject, DeleteObject, CopyObject
--                   and ValidateKey
--   Blob.Handlers   internal/server/handlers/blob: Upload, UploadACL, checkPermissions
--   Blob.Keys       DeleteObjects, DownloadObjectsPresigned and UploadPresigned
--   Hub             internal/server/handlers/ws/ws_hub.go: sending to the clients
--   Hub.Steps       what the goroutines of ws_hub.go and ws_client.go do to a client, a step at a time
--   Hub.Messages    internal/syftmsg; onMessage and handleFileWrite of internal/server/server.go
--   SyftUrl         internal/utils/url.go
--   Send            internal/server/handlers/send: the loop of a poll, the paths, the store
--   Send.Exchange   send_service.go: SendMessage, checkForResponse, PollForResponse
--   Explorer        internal/server/handlers/explorer: the pages of folders and files
--   Auth            internal/server/auth and internal/server/middlewares/jwtauth.go: the codes that are
--                   sent by email, the tokens, and the user of a request
--   Datasite.Domains, Datasite.View   internal/server/datasite/datasite.go: the subdomains of the
--                   settings, and GetView
--
-- The client's synchronisation (internal/client/sync). A round reads the local state, the remote
-- state and the journal of what was synchronised, decides for each path what to do, and runs a
-- handler for it; the status of a path tells later rounds whether it is in work, failed or marked.
--   Sync.Status     sync_status.go: SyncStatus and every operation of it
--   Sync.Files      file_metadata.go, hasModified and getRemoteState of sync_engine.go, and the
--                   rows of sync_journal.go
--   Sync.Reconcile  sync_engine_types.go; reconcile and rebuildJournal of sync_engine.go
--   Sync.Handlers   processUpload of sync_engine_upload.go, the result of a delete request and
--                   the loops of sync_engine_delete.go, the loop of sync_engine_conflict.go
--   Sync.Downloads  handleLocalWrites, the grouping by content and getDownloadPriority of
--                   sync_engine_download.go
--   Sync.Priority   sync_engine_priority_*.go, handleSocketEvents, writeFileWithIntegrityCheck
--
-- The subdomains (internal/server/datasite).
--   Subdomain       subdomain_mapping.go and subdomain_utils.go
--
-- Base holds what the modules share: tests on numbers, lists, texts as lists of bytes, Go's maps as
-- association lists (Base.Dict) and signed integers (Base.Int). Tests holds runs of the model and
-- each theorem at concrete data.
--
-- State is passed explicitly: an operation takes the state it reads and returns the state it leaves,
-- with its result where it has one. A pointer into a map is the value under its key. An error is a
-- value, `none` or a constructor. Go visits a map in any order; the theorems on loops over maps
-- describe the result by what it holds under each key, and no order enters.
--
-- Bounds and fuel. Levels and depths are uint8 and written out as such (the depth of a node is
-- taken modulo 256). The specificity is a signed integer. `chunk_batch_slice` runs on fuel, the length
-- of the batch; each chunk takes at least one element from it. `poll_for_object` runs on fuel, the
-- rounds of the loop; one round more than the timeout divided by the interval, rounded up past it, is
-- enough. All other loops are structural. A size is a natural number. The buffers of a websocket hold
-- 8 messages.
--
-- Parameters. doublestar's matching, the template engine and SHA-256 are functions of `Acl.Matcher.Env`.
-- The expirable LRU is `Acl.Cache.Lru`, with the laws of `IsLawful`: it may drop an entry at any
-- operation and never makes one up; Acl.Service.Readers says what decisions in a loop rest on. The ignore list is a function on paths. `reread` is the
-- location that a time has after its RFC 3339 text was parsed. The subdomain's SHA-256 is a function
-- on texts. What the file system and the server answer to a handler is an argument of it. S3 is
-- `Blob.Backend`, with no laws. The libraries around the send service are fields of `Send.Exchange.Setup`.
-- mail.ParseAddress, url.Parse, the JSON and YAML decoders and MD5 are functions. What other goroutines
-- do to the files during a poll is `Send.Course`. The LRU of the codes is `Auth.CodeStore`, which makes
-- no entry up, and the library of tokens is `Auth.Jwt`, which reads back what was signed. SQLite's
-- GLOB is a function.
--
-- Not modelled: locks (each operation of a locked object is one step, and the items of a batch are
-- handled one after another) and the scheduling of goroutines; a callback of the blob service and the
-- write of a message's file are noted to run by themselves later; the
-- errors of SQLite; YAML and JSON; the binding of HTTP requests, the text of emails and of pages, the
-- access log; the index in SQLite with its indexer, and multipart uploads; the apps and the control
-- plane of the client; the file watcher, the transfer of downloads and the files that conflict
-- markers rename.
-- The SQL of the journal and of the index is read as its statements say, on a map by key. Lower case
-- and spaces are those of ASCII.
pub mod Base
pub mod FilePath
pub mod AclSpec
pub mod Acl
pub mod Datasite
pub mod Auth
pub mod Blob
pub mod SyftUrl
pub mod Explorer
pub mod Hub
pub mod Send
pub mod Sync
pub mod Subdomain
pub mod Tests
