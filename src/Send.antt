-- ===== src/Send.antt =====
-- internal/server/handlers/send: the service that hands a request to a datasite, over its websocket
-- and as a file, and waits for the file of the response. The headers of a request are left out.
pub mod Exchange
pub mod Poll
pub mod Requests
pub mod Responses
pub mod ResponsePath
use syftbox.Base.{
  ℕ, suc, zero, ◌+◌, Bool, true, false, not, ◌&&◌, ◌||◌, List, [], ◌∷◌, ◌++◌, Option, none, some,
  Text, codes, text_eq, is_some, ltb, length, has_prefix, if◌then◌else◌, ◌⊎◌, inl, inr,
}
use syftbox.Base.Dict.{Dict, lookup}
use syftbox.FilePath.{is_empty}
use syftbox.Acl.Level.{Level, AclRequest, access_read, access_write}
use syftbox.Acl.Matcher.{Env, Today}
use syftbox.Acl.Cache.{Lru}
use syftbox.Acl.Service.{Denial, Service, Outcome, can_access}
use syftbox.Datasite.{owns}
use syftbox.Blob.{BlobInfo, Backend, BlobService, put_object, delete_object}
use syftbox.Blob.Handlers.{Server}
use syftbox.SyftUrl.{SyftBoxUrl, join_all, base_url, to_local_path, validate}
use syftbox.Hub.{WebsocketClient, send_message_user}
use syftbox.Hub.Messages.{Message, Payload, http, HttpMsg, Live}

-- What `GetMsg` answers.
pub data Stored : Type 0 where
  missing : Stored
  unreadable : Text → Stored
  object : Text → Stored

-- `MessageRequest`
pub record MessageRequest : Type 0 where
  pub syft_url : SyftBoxUrl
  pub from : Text
  pub timeout : ℕ
  pub as_raw : Bool
  pub method : Text
  pub suffix_sender : Bool

-- `PollObjectRequest`
pub record PollObjectRequest : Type 0 where
  pub request_id : Text
  pub from : Text
  pub syft_url : SyftBoxUrl
  pub timeout : ℕ
  pub as_raw : Bool

-- `SyftRPCMessage`, with the fields that the model speaks of.
pub record RpcMessage : Type 0 where
  pub id : Text
  pub sender : Text
  pub url : SyftBoxUrl
  pub method : Text
  pub body : Text

-- The errors of the service.
pub data SendError : Type 0 where
  invalid_message : SendError
  permission_denied : SendError
  request_not_found : SendError
  poll_timeout : SendError
  cancelled : SendError
  store_failed : Text → SendError
  bad_response : SendError

-- `SendResult` and `PollResult`, or the error: a response, or the URL to ask at later. `exhausted`
-- is for the fuel of the loop, and `panicked` for a send on a closed channel.
pub data Result : Type 0 where
  failed : SendError → Result
  accepted : Text → Text → Result
  responded : Text → Text → Result
  panicked : Result
  exhausted : Result

-- `SyftMethod.Validate`
unfoldable pub is_method : Text → Bool
unfolding text_eq is_empty
is_method m =
    is_empty m
    || text_eq m (codes "GET")
    || text_eq m (codes "POST")
    || text_eq m (codes "PUT")
    || text_eq m (codes "DELETE")

-- `SyftRPCMessage.Validate` of a message with a fresh ID and no status.
unfoldable pub is_valid_message : (Text → Bool) → RpcMessage → Bool
unfolding is_method is_empty validate
is_valid_message parses m =
    not (is_empty m.sender) && not (is_some (validate parses m.url)) && is_method m.method

-- A URL with the sender at the end of its endpoint.
unfoldable pub with_sender : Bool → Text → SyftBoxUrl → SyftBoxUrl
unfolding join_all
with_sender suffix from u =
    if suffix then record u { endpoint = join_all (u.endpoint ∷ from ∷ []) } else u

abbrev pub request_suffix : Text
request_suffix = codes ".request"

abbrev pub response_suffix : Text
response_suffix = codes ".response"

-- The file of a request or a response.
unfoldable pub file_path : Text → Text → Text → Text
unfolding join_all
file_path dir id suffix = join_all (dir ∷ (id ++ suffix) ∷ [])

abbrev pub drop : ℕ → Text → Text
drop zero s = s
drop (suc n) [] = []
drop (suc n) (c ∷ s) = drop n s

-- `strings.Replace(s, old, new, 1)` for an `old` that is not empty.
unfoldable pub replace_first : Text → Text → Text → Text
unfolding has_prefix
replace_first old new [] = []
replace_first old new (c ∷ s) =
    let rest = replace_first old new s in
    if has_prefix (c ∷ s) old then new ++ drop (length old) (c ∷ s) else c ∷ rest

-- `getCandidateRequestPaths`
unfoldable pub candidate_paths : PollObjectRequest → Text × Text
unfolding to_local_path join_all
candidate_paths req =
    let base = to_local_path req.syft_url in
    let name = req.request_id ++ request_suffix in
    (join_all (base ∷ req.from ∷ name ∷ []), join_all (base ∷ name ∷ []))

-- `constructPollURL`
unfoldable pub construct_poll_url : Text → SyftBoxUrl → Text → Bool → Text
unfolding base_url
construct_poll_url id u from as_raw =
    codes "/api/v1/send/poll?x-syft-request-id="
    ++ (id
        ++ (codes "&x-syft-url="
            ++ (base_url u
                ++ (codes "&x-syft-from="
                    ++ (from
                        ++ (codes "&x-syft-raw="
                            ++ (if as_raw then codes "true" else codes "false")))))))

module _ (b : Backend) where
  -- `GetMsg`
  unfoldable pub get_msg : Text → BlobService b → Stored
  unfolding lookup
  get_msg path s = elim (lookup path s.index) [
    | none ↦ missing
    | some _ ↦ elim (b.get path s.objects) [ inl err ↦ unreadable err | inr body ↦ object body ]
  ]

  -- `StoreMsg`
  unfoldable pub store_msg : Text → Text → BlobService b → (Text ⊎ BlobInfo) × BlobService b
  unfolding put_object
  store_msg path bytes s = put_object b path (length bytes) bytes s

  -- `DeleteMsg`
  unfoldable pub delete_msg : Text → BlobService b → BlobService b
  unfolding delete_object
  delete_msg path s = (delete_object b path s).1

  -- `cleanReqResponse`, which runs by itself after the response is given.
  unfoldable pub clean_req_response : SyftBoxUrl → Text → BlobService b → BlobService b
  unfolding delete_msg file_path to_local_path
  clean_req_response u id s =
      delete_msg (file_path (to_local_path u) id response_suffix)
        (delete_msg (file_path (to_local_path u) id request_suffix) s)

  -- What the loop of `pollForObject` goes by: the files, the time since its start and whether the
  -- context is done, at each round.
  pub record Course : Type 0 where
    pub files : ℕ → BlobService b
    pub since : ℕ → ℕ
    pub is_done : ℕ → Bool

  -- One round of the loop and the rest of the loop: the tests are whether the timeout is over and
  -- whether the context is done.
  abbrev pub poll_round :
      Stored → Bool → Bool → Option (SendError ⊎ Text) → Option (SendError ⊎ Text)
  poll_round (object body) late done rest = some (inr body)
  poll_round (unreadable err) late done rest = some (inl (store_failed err))
  poll_round missing late done rest =
      if late then some (inl poll_timeout) else if done then some (inl cancelled) else rest

  -- `pollForObject`, from the round `i` on: an object, an error, or `none` where the fuel ends.
  unfoldable pub poll_for_object : ℕ → ℕ → Text → ℕ → Course → Option (SendError ⊎ Text)
  unfolding get_msg
  poll_for_object zero i path timeout w = none
  poll_for_object (suc fuel) i path timeout w =
      let rest = poll_for_object fuel (suc i) path timeout w in
      poll_round (get_msg path (w.files i)) (ltb timeout (w.since i)) (w.is_done i) rest

-- `req.Timeout`, or the default.
abbrev pub timeout_of : ℕ → ℕ → ℕ
timeout_of default zero = default
timeout_of default (suc t) = suc t
