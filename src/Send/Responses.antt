-- ===== src/Send/Responses.antt =====
-- internal/server/handlers/send/send_service.go, PollForResponse: to whom a response is given.
use syftbox.Base.{
  ◌≡◌, refl, Bool, true, false, Option, none, some, Text, is_some-none, if◌then◌else◌, ◌⊎◌, inl,
  inr,
}
use mathlib.Core.Path.{subst}
use syftbox.Acl.Level.{access_read}
use syftbox.Acl.Service.{Service}
use syftbox.Blob.{BlobService}
use syftbox.Blob.Handlers.{Server}
use syftbox.Send.{
  PollObjectRequest, Stored, missing, unreadable, object, SendError, Result, failed, accepted,
  responded, panicked, exhausted, candidate_paths, get_msg, Course, poll_for_object, timeout_of,
}
use syftbox.Send.Exchange.{
  Setup, check_permission, find_valid_request, response_path, poll_request, poll_for_response,
  after_response, from_content, pick_request, poll_found,
}

module _ (k : Setup) where
  -- A user whom the access control lets read a file, in a state of the service.
  abbrev pub MayReadFile : Text → Text → Service k.lru → Type 0
  MayReadFile path user s = (check_permission k path user access_read s).0 ≡ none

  -- The service after the test of the rights to a file: its cache may have changed.
  abbrev pub tested : Text → Text → Service k.lru → Service k.lru
  tested path user s = (check_permission k path user access_read s).1

  abbrev OnResponse : (Text → Type 0) → Result → Type 0
  OnResponse P (responded id r) = P r
  OnResponse P (failed err) = Unit
  OnResponse P (accepted id url) = Unit
  OnResponse P panicked = Unit
  OnResponse P exhausted = Unit

  -- What a response comes from: a file that the user may read, whose content `out` is.
  abbrev pub IsGiven :
      Text → Text → Service k.lru → Bool → Option (SendError ⊎ Text) → Text → Type 0
  IsGiven path user s as_raw out r =
      MayReadFile path user s
      × ((body : Text) × (out ≡ some (inr body)) × (k.unmarshal as_raw body ≡ some r))

  from_content-IsGiven :
      (path user id body : Text) (s : Service k.lru) (as_raw : Bool)
      (out : Option (SendError ⊎ Text)) (o : Option Text)
      → MayReadFile path user s
      → out ≡ some (inr body)
      → k.unmarshal as_raw body ≡ o
      → OnResponse (IsGiven path user s as_raw out) (from_content k id o)
  from_content-IsGiven path user id body s as_raw out none may e h = tt
  from_content-IsGiven path user id body s as_raw out (some r) may e h = (may, (body, e, h))

  -- A test that a response has passed.
  on_test :
      {S : Type 0} (P : Text → Type 0) (b : Bool) (x y : Result × S)
      → OnResponse P x.0
      → (b ≡ false → OnResponse P y.0)
      → OnResponse P (if b then x else y).0
  on_test P true x y p q = p
  on_test P false x y p q = q refl

  on_reply :
      (P : Text → Type 0) (b : Bool) (x y : Result)
      → OnResponse P x
      → (b ≡ false → OnResponse P y)
      → OnResponse P (if b then x else y)
  on_reply P true x y p q = p
  on_reply P false x y p q = q refl

  after_response-IsGiven :
      (req : PollObjectRequest) (path : Text) (s : Service k.lru) (out : Option (SendError ⊎ Text))
      → OnResponse (IsGiven path req.from s req.as_raw out) (after_response k req path s out).0
  after_response-IsGiven req path s none = tt
  after_response-IsGiven req path s (some (inl err)) = tt
  after_response-IsGiven req path s (some (inr body)) =
      on_reply (IsGiven path req.from s req.as_raw (some (inr body))) _ _ _ tt (λ d.
        from_content-IsGiven path req.from req.request_id body s req.as_raw (some (inr body)) _
          (is_some-none _ d) refl refl)

  -- The path that a request was found at.
  abbrev pub IsFound : PollObjectRequest → BlobService k.backend → Text → Type 0
  IsFound req s path =
      ((path ≡ (candidate_paths req).0) ⊎ (path ≡ (candidate_paths req).1))
      × ((body : Text) × (get_msg k.backend path s ≡ object body))

  abbrev OnFound : PollObjectRequest → BlobService k.backend → SendError ⊎ (Text × Bool) → Type 0
  OnFound req s (inl err) = Unit
  OnFound req s (inr (path, w)) = IsFound req s path

  pick_request-IsFound :
      (req : PollObjectRequest) (s : BlobService k.backend) (x y : Stored)
      → get_msg k.backend (candidate_paths req).0 s ≡ x
      → get_msg k.backend (candidate_paths req).1 s ≡ y
      → OnFound req s (pick_request k (candidate_paths req).0 (candidate_paths req).1 x y)
  pick_request-IsFound req s (object body) y e f = (inl refl, (body, e))
  pick_request-IsFound req s (unreadable err) y e f = tt
  pick_request-IsFound req s missing (object body) e f = (inr refl, (body, f))
  pick_request-IsFound req s missing (unreadable err) e f = tt
  pick_request-IsFound req s missing missing e f = tt

  -- What the loop of the poll gives for the response to the request at a path.
  abbrev pub polled : PollObjectRequest → Text → Course k.backend → Option (SendError ⊎ Text)
  polled req path course =
      poll_for_object k.backend k.fuel 0 (response_path k path)
        (timeout_of k.default_timeout req.timeout) course

  -- What `PollForResponse` answers a response for: the access control, as it is, lets the user read
  -- the file of the request and then that of the response, and the response is the content of the
  -- latter.
  abbrev pub IsOpen : PollObjectRequest → Text → Course k.backend → Service k.lru → Text → Type 0
  IsOpen req path course s r =
      MayReadFile path req.from s
      × IsGiven (response_path k path) req.from (tested path req.from s) req.as_raw
          (polled req path course) r

  widened :
      (P Q : Text → Type 0) (x : Result)
      → ((r : Text) → P r → Q r)
      → OnResponse P x
      → OnResponse Q x
  widened P Q (responded id r) f p = f r p
  widened P Q (failed err) f p = tt
  widened P Q (accepted id url) f p = tt
  widened P Q panicked f p = tt
  widened P Q exhausted f p = tt

  poll_request-IsOpen :
      (req : PollObjectRequest) (path : Text) (course : Course k.backend) (s : Service k.lru)
      → OnResponse (IsOpen req path course s) (poll_request k req path course s).0
  unfolding poll_request
  poll_request-IsOpen req path course s = on_test (IsOpen req path course s) _ _ _ tt (λ d.
      widened
        (IsGiven (response_path k path) req.from (tested path req.from s) req.as_raw
          (polled req path course))
        (IsOpen req path course s) _ (λ r given. (is_some-none _ d, given))
        (after_response-IsGiven req (response_path k path) _ (polled req path course)))

  poll_found-IsOpen :
      (req : PollObjectRequest) (course : BlobService k.backend → Course k.backend)
      (srv : Server k.lru k.backend) (found : SendError ⊎ (Text × Bool))
      → OnFound req srv.blob found
      → OnResponse
          (λ r.
            (path : Text) × IsFound req srv.blob path × IsOpen req path (course srv.blob) srv.acl r)
          (poll_found k req course srv found).0
  unfolding poll_found
  poll_found-IsOpen req course srv (inl err) h = tt
  poll_found-IsOpen req course srv (inr (path, w)) h =
      widened (IsOpen req path (course srv.blob) srv.acl)
        (λ r. (p : Text) × IsFound req srv.blob p × IsOpen req p (course srv.blob) srv.acl r) _
        (λ r open_now. (path, h, open_now)) (poll_request-IsOpen req path (course srv.blob) srv.acl)

  -- A response is given only to a user who may read both files: where `PollForResponse` answers one,
  -- a request can be read at one of the two paths that the poll stands for; the access control that
  -- the server has then lets the user read that file and, after this test, the file of the response;
  -- and the response is the content that the loop found in the latter.
  pub poll_for_response-IsOpen :
      (req : PollObjectRequest) (course : BlobService k.backend → Course k.backend)
      (srv : Server k.lru k.backend) (id r : Text)
      → (poll_for_response k req course srv).0 ≡ responded id r
      → (path : Text) × IsFound req srv.blob path × IsOpen req path (course srv.blob) srv.acl r
  unfolding poll_for_response find_valid_request
  poll_for_response-IsOpen req course srv id r h =
      subst
        (OnResponse (λ r.
          (path : Text) × IsFound req srv.blob path × IsOpen req path (course srv.blob) srv.acl r))
        h (poll_found-IsOpen req course srv _ (pick_request-IsFound req srv.blob _ _ refl refl))
