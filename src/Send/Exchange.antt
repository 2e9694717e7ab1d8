-- ===== src/Send/Exchange.antt =====
-- internal/server/handlers/send/send_service.go: SendMessage and PollForResponse. `course` tells what
-- happens to the files while the loop of a poll runs.
use syftbox.Base.{
  ℕ, Bool, true, false, [], Option, none, some, Text, is_some, if◌then◌else◌, ◌⊎◌, inl, inr,
}
use syftbox.Acl.Level.{Level, access_read, access_write}
use syftbox.Acl.Matcher.{Env, Today}
use syftbox.Acl.Cache.{Lru}
use syftbox.Acl.Service.{Denial, Service, can_access}
use syftbox.Datasite.{owns}
use syftbox.Blob.{Backend, BlobService}
use syftbox.Blob.Handlers.{Server}
use syftbox.SyftUrl.{SyftBoxUrl, to_local_path}
use syftbox.Hub.{send_message_user}
use syftbox.Hub.Messages.{Message, http, Live}
use syftbox.Send.{
  MessageRequest, PollObjectRequest, RpcMessage, Stored, missing, unreadable, object, SendError,
  invalid_message, permission_denied, request_not_found, poll_timeout, cancelled, store_failed,
  bad_response, Result, failed, accepted, responded, panicked, exhausted, is_valid_message,
  with_sender, request_suffix, response_suffix, file_path, replace_first, candidate_paths,
  construct_poll_url, get_msg, store_msg, Course, poll_for_object, timeout_of,
}

-- What the service is made of: the cache and the store; the matching of patterns and the date; the
-- libraries, where `parses` is mail.ParseAddress, `marshal` the JSON of a message, `unmarshal` the
-- reading of a response and `md5` the digest of crypto/md5 in hexadecimal; `DefaultTimeout`; and the
-- fuel of the loop.
pub record Setup : Type 1 where
  pub lru : Lru
  pub backend : Backend
  pub env : Env
  pub today : Today
  pub parses : Text → Bool
  pub marshal : RpcMessage → Option Text
  pub unmarshal : Bool → Text → Option Text
  pub md5 : Text → Text
  pub default_timeout : ℕ
  pub fuel : ℕ

module _ (k : Setup) where
  -- `checkPermission`: the path is not brought to its normal form for the rules.
  unfoldable pub check_permission :
      Text → Text → Level → Service k.lru → Option Denial × Service k.lru
  unfolding owns can_access
  check_permission path user level s =
      if owns path user
      then (none, s)
      else (let out =
            can_access k.lru k.env k.today
              (record { path = path; level = level; user = user; file = none }) s in
          (out.denial, out.service))

  -- The URL that a request goes to, with the sender at the end of the endpoint if it is asked for.
  abbrev pub target : MessageRequest → SyftBoxUrl
  target req = with_sender req.suffix_sender req.from req.syft_url

  abbrev pub request_path : Text → MessageRequest → Text
  request_path id req = file_path (to_local_path (target req)) id request_suffix

  -- The bytes of the message, or `none` if it is not valid.
  unfoldable pub prepare : Text → MessageRequest → Text → Option Text
  unfolding is_valid_message
  prepare id req body =
      let m : RpcMessage = record {
        id = id;
        sender = req.from;
        url = req.syft_url;
        method = req.method;
        body = body;
      } in
      if is_valid_message k.parses m then k.marshal m else none

  -- The message for the websockets of the datasite. `mid` is its own ID.
  abbrev pub http_message : Text → Text → MessageRequest → Text → Message
  http_message mid id req bytes = record {
    id = mid;
    payload = http (record {
      from = req.from;
      syft_url = target req;
      method = req.method;
      headers = [];
      body = bytes;
      id = id;
      etag = k.md5 bytes;
    });
  }

  -- The response in the file that was found.
  abbrev pub from_content : Text → Option Text → Result
  from_content id none = failed bad_response
  from_content id (some r) = responded id r

  abbrev pub response_of : Text → Bool → Text → Result
  response_of id as_raw body = from_content id (k.unmarshal as_raw body)

  abbrev later : Text → MessageRequest → Result
  later id req = accepted id (construct_poll_url id req.syft_url req.from req.as_raw)

  -- What `checkForResponse` answers after the loop.
  abbrev pub after_poll : Text → MessageRequest → Option (SendError ⊎ Text) → Result
  after_poll id req none = exhausted
  after_poll id req (some (inl poll_timeout)) = later id req
  after_poll id req (some (inl invalid_message)) = failed invalid_message
  after_poll id req (some (inl permission_denied)) = failed permission_denied
  after_poll id req (some (inl request_not_found)) = failed request_not_found
  after_poll id req (some (inl cancelled)) = failed cancelled
  after_poll id req (some (inl bad_response)) = failed bad_response
  after_poll id req (some (inl (store_failed err))) = failed (store_failed err)
  after_poll id req (some (inr body)) = response_of id req.as_raw body

  -- `checkForResponse`
  unfoldable pub check_for_response : Text → MessageRequest → Course k.backend → Result
  unfolding poll_for_object
  check_for_response id req course = after_poll id req (
      poll_for_object k.backend k.fuel 0 (file_path (to_local_path (target req)) id response_suffix)
        (timeout_of k.default_timeout req.timeout) course)

  -- `SendMessage` from the storing of the request on; `course` is given by the files as they are
  -- when the loop begins.
  unfoldable pub store_request :
      Text
      → MessageRequest
      → Text
      → Bool
      → (BlobService k.backend → Course k.backend)
      → Live k.lru k.backend
      → Result × Live k.lru k.backend
  unfolding store_msg check_for_response
  store_request id req bytes dispatched course live =
      let (answer, blob) = store_msg k.backend (request_path id req) bytes live.server.blob in
      let live' = record live { server = record live.server { blob = blob } } in
      elim answer [
        | inl err ↦ (failed (store_failed err), live')
        | inr _ ↦
            (if dispatched then check_for_response id req (course blob) else later id req, live')
      ]

  -- `SendMessage` from the websockets on.
  unfoldable pub deliver_request :
      Text
      → Text
      → MessageRequest
      → Text
      → (BlobService k.backend → Course k.backend)
      → Live k.lru k.backend
      → Result × Live k.lru k.backend
  unfolding send_message_user store_request
  deliver_request mid id req bytes course live =
      elim (send_message_user (target req).datasite (http_message mid id req bytes) live.clients) [
        | none ↦ (panicked, live)
        | some (dispatched, cs) ↦
            store_request id req bytes dispatched course (record live { clients = cs })
      ]

  -- `SendMessage`; `id` is the new ID of the request.
  unfoldable pub send_message :
      Text
      → Text
      → MessageRequest
      → Text
      → (BlobService k.backend → Course k.backend)
      → Live k.lru k.backend
      → Result × Live k.lru k.backend
  unfolding prepare check_permission deliver_request
  send_message mid id req body course live = elim (prepare id req body) [
    | none ↦ (failed invalid_message, live)
    | some bytes ↦
        let (denial, acl) =
          check_permission (request_path id req) req.from access_write live.server.acl in
        let live' = record live { server = record live.server { acl = acl } } in
        if is_some denial
        then (failed permission_denied, live')
        else deliver_request mid id req bytes course live'
  ]

  -- The loop of `findValidRequest` over its two paths, from what is read at each.
  abbrev pub pick_request : Text → Text → Stored → Stored → SendError ⊎ (Text × Bool)
  pick_request p q (object _) other = inr (p, true)
  pick_request p q (unreadable err) other = inl (store_failed err)
  pick_request p q missing (object _) = inr (q, false)
  pick_request p q missing (unreadable err) = inl (store_failed err)
  pick_request p q missing missing = inl request_not_found

  -- `findValidRequest`: the path of the request, and whether it has the sender in it.
  unfoldable pub find_valid_request :
      PollObjectRequest → BlobService k.backend → SendError ⊎ (Text × Bool)
  unfolding candidate_paths get_msg
  find_valid_request req s =
      let (p, q) = candidate_paths req in
      pick_request p q (get_msg k.backend p s) (get_msg k.backend q s)

  -- The path of the response to the request at a path.
  unfoldable pub response_path : Text → Text
  unfolding replace_first
  response_path path = replace_first request_suffix response_suffix path

  -- `PollForResponse` from the end of the loop on.
  abbrev pub after_response :
      PollObjectRequest → Text → Service k.lru → Option (SendError ⊎ Text) → Result × Service k.lru
  after_response req path s none = (exhausted, s)
  after_response req path s (some (inl err)) = (failed err, s)
  after_response req path s (some (inr body)) =
      let (denial, s') = check_permission path req.from access_read s in
      (
        if is_some denial
            then failed permission_denied
            else response_of req.request_id req.as_raw body,
        s',
      )

  -- `PollForResponse` at the path of a request.
  unfoldable pub poll_request :
      PollObjectRequest → Text → Course k.backend → Service k.lru → Result × Service k.lru
  unfolding check_permission response_path poll_for_object
  poll_request req path course s =
      let (denial, s') = check_permission path req.from access_read s in
      if is_some denial
      then (failed permission_denied, s')
      else after_response req (response_path path) s' (
          poll_for_object k.backend k.fuel 0 (response_path path)
            (timeout_of k.default_timeout req.timeout) course)

  -- `PollForResponse` after `findValidRequest`.
  unfoldable pub poll_found :
      PollObjectRequest
      → (BlobService k.backend → Course k.backend)
      → Server k.lru k.backend
      → SendError ⊎ (Text × Bool)
      → Result × Service k.lru
  unfolding poll_request
  poll_found req course srv (inl err) = (failed err, srv.acl)
  poll_found req course srv (inr (path, _)) = poll_request req path (course srv.blob) srv.acl

  -- `PollForResponse`
  unfoldable pub poll_for_response :
      PollObjectRequest
      → (BlobService k.backend → Course k.backend)
      → Server k.lru k.backend
      → Result × Service k.lru
  unfolding find_valid_request
  poll_for_response req course srv = poll_found req course srv (find_valid_request req srv.blob)
