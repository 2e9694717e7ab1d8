-- ===== src/Send/Requests.antt =====
-- internal/server/handlers/send/send_service.go, SendMessage and PollForResponse: what they do to
-- the files, and to whom a response is given.
use syftbox.Base.{
  ◌≡◌, refl, ◌∙◌, Bool, not, length, ◌&&◌, List, Option, none, some, Text, is_some, if◌then◌else◌,
  Bool-cases, Option-cases, Sum-cases, inl, inr,
}
use syftbox.Acl.Level.{access_write}
use syftbox.Acl.Service.{Service}
use syftbox.Blob.{BlobService, validate_key, put_valid, put_object}
use syftbox.Hub.{WebsocketClient, send_message_user}
use syftbox.Hub.Messages.{Message, Live}
use syftbox.Send.{MessageRequest, store_msg, Course}
use syftbox.Send.Exchange.{
  Setup, target, request_path, http_message, prepare, check_permission, deliver_request,
  store_request, send_message,
}

module _ (k : Setup) where
  abbrev may : Text → Text → Service k.lru → Bool
  may path user s = not (is_some (check_permission k path user access_write s).0)

  -- The clients of the datasite after the message, or `none` for a panic.
  abbrev reached :
      Text
      → Text
      → MessageRequest
      → Text
      → Live k.lru k.backend
      → Option (Bool × List (WebsocketClient Message))
  reached mid id req bytes live =
      send_message_user (target k req).datasite (http_message k mid id req bytes) live.clients

  abbrev pub path_of : Text → MessageRequest → Text
  path_of id req = request_path k id req

  -- The bytes of the request that the store is called with, if any: the message is valid, the sender
  -- may write the file of the request, no websocket panics, and the store takes the path.
  abbrev pub bytes_to_store :
      Text → Text → MessageRequest → Text → Live k.lru k.backend → Option Text
  bytes_to_store mid id req body live = elim (prepare k id req body) [
    | none ↦ none
    | some bytes ↦
        if (may (path_of id req) req.from live.server.acl
            && is_some (reached mid id req bytes live))
          && validate_key (path_of id req)
        then some bytes
        else none
  ]

  abbrev pub files_with : Text → Option Text → BlobService k.backend → BlobService k.backend
  files_with path none s = s
  files_with path (some bytes) s = (put_valid k.backend path (length bytes) bytes s).1

  store_msg-files :
      (path bytes : Text) (s : BlobService k.backend)
      → (store_msg k.backend path bytes s).1
        ≡ files_with path (if validate_key path then some bytes else none) s
  unfolding store_msg put_object
  store_msg-files path bytes s = elim (Bool-cases (validate_key path)) [
    | inl v ↦ rw (store_msg, put_object, v) refl
    | inr v ↦ rw (store_msg, put_object, v) refl
  ]

  store_request-blob :
      (id : Text) (req : MessageRequest) (bytes : Text) (dispatched : Bool)
      (course : BlobService k.backend → Course k.backend) (live : Live k.lru k.backend)
      → (store_request k id req bytes dispatched course live).1.server.blob
        ≡ (store_msg k.backend (path_of id req) bytes live.server.blob).1
  unfolding store_request
  store_request-blob id req bytes dispatched course live =
      elim (Sum-cases (store_msg k.backend (path_of id req) bytes live.server.blob).0) [
        | inl (err, e) ↦ rw (store_request, e) refl
        | inr (i, e) ↦ rw (store_request, e) refl
      ]

  -- `SendMessage` calls the store with the bytes of the request and its path, or leaves the files as
  -- they are. It calls it exactly if the message is valid, the sender may write the file of the
  -- request, no websocket panics, and the path is a key that the store takes.
  pub send_message-files :
      (mid id : Text) (req : MessageRequest) (body : Text)
      (course : BlobService k.backend → Course k.backend) (live : Live k.lru k.backend)
      → (send_message k mid id req body course live).1.server.blob
        ≡ files_with (path_of id req) (bytes_to_store mid id req body live) live.server.blob
  unfolding send_message deliver_request
  send_message-files mid id req body course live = elim (Option-cases (prepare k id req body)) [
    | inl e ↦ rw (send_message, bytes_to_store, e) refl
    | inr (bytes, e) ↦
        elim (Bool-cases
          (is_some (check_permission k (path_of id req) req.from access_write live.server.acl).0)) [
            | inl d ↦ rw (send_message, bytes_to_store, e, d) refl
            | inr d ↦ elim (Option-cases (reached mid id req bytes live)) [
              | inl p ↦ rw (send_message, deliver_request, bytes_to_store, e, d, p) refl
              | inr ((sent, cs), p) ↦
                  rw (send_message, deliver_request, bytes_to_store, e, d, p)
                    (store_request-blob id req bytes sent course _
                      ∙ store_msg-files (path_of id req) bytes live.server.blob)
            ]
          ]
  ]
