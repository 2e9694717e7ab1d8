-- ===== src/Hub/Messages.antt =====
-- internal/syftmsg and internal/server/server.go: the messages, and what the server does with one
-- that a client has sent.
pub mod Writes
use syftbox.Base.{
  ℕ, Bool, true, false, not, ◌&&◌, ◌||◌, List, [], ◌∷◌, ◌++◌, Option, none, some, Text, codes,
  text_eq, is_some, if◌then◌else◌, ◌⊎◌, inl, inr,
}
use syftbox.Base.Dict.{Dict}
use syftbox.AclSpec.{RuleSet}
use syftbox.Acl.Level.{new_request, access_read, access_write}
use syftbox.Acl.Matcher.{Env, Today}
use syftbox.Acl.Cache.{Lru}
use syftbox.Acl.Service.{Denial, Service, Outcome, can_access}
use syftbox.Blob.{Backend, BlobService, put_object}
use syftbox.Blob.Handlers.{Server}
use syftbox.SyftUrl.{SyftBoxUrl}
use syftbox.Hub.{WebsocketClient, Sending, sent, panics, waits, send_message, broadcast_filtered}

-- `FileWrite`
pub record FileWrite : Type 0 where
  pub path : Text
  pub etag : Text
  pub length : ℕ
  pub content : Text

-- `HttpMsg`
pub record HttpMsg : Type 0 where
  pub from : Text
  pub syft_url : SyftBoxUrl
  pub method : Text
  pub headers : Dict Text
  pub body : Text
  pub id : Text
  pub etag : Text

-- The type and the data of a `Message`.
pub data Payload : Type 0 where
  system : Text → Text → Payload
  error : ℕ → Text → Text → Payload
  file_write : FileWrite → Payload
  file_delete : Text → Payload
  ack : Payload
  nack : Text → Payload
  http : HttpMsg → Payload

pub record Message : Type 0 where
  pub id : Text
  pub payload : Payload

-- The server with its hub. `writes` are the writes of files that run by themselves, each in a
-- goroutine of its own.
pub record Live (c : Lru) (b : Backend) : Type 0 where
  pub server : Server c b
  pub clients : List (WebsocketClient Message)
  pub writes : List FileWrite

-- What the handling of a message comes to: done, a panic, or a wait for the sender's buffer.
pub data Handled (c : Lru) (b : Backend) : Type 0 where
  done : Live c b → Handled c b
  panicked : Handled c b
  blocked : Handled c b

module _ (c : Lru) (b : Backend) (env : Env) (now : Today) where
  -- The predicate of the broadcast: every user but the sender who may read the file.
  unfoldable pub may_receive : Text → Text → Text → Service c → Bool × Service c
  may_receive path from to s =
      if text_eq to from
      then (false, s)
      else (let out = can_access c env now (new_request path to access_read) s in
          (not (is_some out.denial), out.service))

  -- The answer to a sender who may not write. `id` is the ID of the new message.
  abbrev pub refusal : Text → Text → Message
  refusal id path = record {
    id = id;
    payload = error 403 path (codes "permission denied for write operation");
  }

  abbrev pub after_refusal : Service c → Live c b → Sending Message → Handled c b
  after_refusal acl live (sent cs) =
      done (record live { server = record live.server { acl = acl }; clients = cs })
  after_refusal acl live panics = panicked
  after_refusal acl live waits = blocked

  abbrev pub after_broadcast :
      FileWrite → Live c b → Option (List (WebsocketClient Message) × Service c) → Handled c b
  after_broadcast w live none = panicked
  after_broadcast w live (some (cs, acl)) = done (record {
    server = record live.server { acl = acl };
    clients = cs;
    writes = live.writes ++ (w ∷ []);
  })

  -- `handleFileWrite`, for the message `m` of the user `from` on the connection `conn`.
  unfoldable pub handle_file_write :
      Text → Text → Text → Message → FileWrite → Live c b → Handled c b
  handle_file_write id conn from m w live =
      let out = can_access c env now (new_request w.path from access_write) live.server.acl in
      if is_some out.denial
      then after_refusal out.service live (send_message conn (refusal id w.path) live.clients)
      else after_broadcast w live
          (broadcast_filtered (may_receive w.path from) m live.clients out.service)

  -- `onMessage`
  unfoldable pub on_message : Text → Text → Text → Message → Live c b → Handled c b
  on_message id conn from m live = elim m.payload [
    | file_write w ↦ handle_file_write id conn from m w live
    | other ↦ done live
  ]

  -- The goroutine that puts the file; the goroutines end in any order.
  unfoldable pub finish_write : FileWrite → Server c b → Server c b
  finish_write w srv = record srv { blob = (put_object b w.path w.length w.content srv.blob).1 }
