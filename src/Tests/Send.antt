-- ===== src/Tests/Send.antt =====
-- Runs of the service that sends requests, and its theorems at concrete data.
use syftbox.Base.{◌≡◌, ◌≢◌, refl, true, false, [], ◌∷◌, none, some, Text, codes, arith}
use syftbox.SyftUrl.{
  SyftBoxUrl, trim_end, trim, join_all, base_url, to_local_path, validate, path_parts, split_at_rpc,
  app_and_endpoint, app_data, rpc,
}
use syftbox.SyftUrl.Laws.{app_and_endpoint-join}
use syftbox.FilePath.{slash}
use syftbox.Base.{join, contains}
use syftbox.Blob.{BlobService}
use syftbox.Blob.Handlers.{Server}
use syftbox.Hub.Messages.{Live}
use syftbox.Send.{
  MessageRequest, PollObjectRequest, is_method, is_valid_message, with_sender, file_path,
  replace_first, candidate_paths, construct_poll_url, get_msg, store_msg, Course, poll_for_object,
}
use syftbox.Send.Exchange.{
  Setup, check_permission, prepare, find_valid_request, response_path, poll_request, poll_found,
  poll_for_response, send_message,
}
use syftbox.Send.Poll.{poll_for_object-ends}
use syftbox.Send.Requests.{send_message-files, files_with, bytes_to_store, path_of}
use syftbox.Send.Responses.{IsFound, IsOpen, poll_for_response-IsOpen}
use syftbox.Send.ResponsePath.{response_path-request}
use syftbox.Tests.Samples.{env, now, table, alice}
use syftbox.Tests.Blob.{server}
use syftbox.Tests.Hub.{opened_hub}
use syftbox.Tests.Acl.{start}
use syftbox.Tests.Store.{store, holding}

opened_send : Unit {0}
unfolding opened_hub trim_end trim join_all base_url to_local_path validate path_parts split_at_rpc
    app_and_endpoint is_method is_valid_message with_sender file_path replace_first candidate_paths
    construct_poll_url get_msg store_msg poll_for_object check_permission prepare find_valid_request
    response_path poll_request poll_found poll_for_response
opened_send = tt

abbrev url : SyftBoxUrl
url = record { datasite = alice; app_name = codes "a"; endpoint = codes "e"; query_params = [] }

abbrev setup : Setup
setup = record {
  lru = table;
  backend = store;
  env = env;
  today = now;
  parses = λ t. true;
  marshal = λ m. some m.body;
  unmarshal = λ b t. some t;
  md5 = λ t. t;
  default_timeout = 3;
  fuel = 5;
}

-- Files that stay as they are, with a clock that runs.
abbrev still : BlobService store → Course store
still s = record { files = λ i. s; since = λ i. i; is_done = λ i. false }

app_and_endpoint-join_example :
    app_and_endpoint
      (path_parts (slash ∷ join slash (app_data ∷ codes "a" ∷ codes "b" ∷ rpc ∷ codes "e" ∷ [])))
    ≡ some (join slash (codes "a" ∷ codes "b" ∷ []), codes "e")
unfolding opened_send
app_and_endpoint-join_example =
    app_and_endpoint-join (codes "a") (codes "b" ∷ []) (codes "e") [] refl refl refl

poll_for_object-ends_example : poll_for_object store 5 0 (codes "x") 3 (still (holding [])) ≢ none
poll_for_object-ends_example =
    poll_for_object-ends store 4 3 1 (codes "x") (still (holding [])) (λ j. omega arith)
      (omega arith)

abbrev asked : MessageRequest
asked = record {
  syft_url = url;
  from = alice;
  timeout = 0;
  as_raw = true;
  method = codes "POST";
  suffix_sender = false;
}

abbrev live : Live table store
live = record { server = server; clients = []; writes = [] }

send_message-files_example :
    (send_message setup (codes "m") (codes "7") asked (codes "hi") still live).1.server.blob
    ≡ files_with setup
        (path_of setup (codes "7") asked)
        (bytes_to_store setup (codes "m") (codes "7") asked (codes "hi") live)
        server.blob
send_message-files_example =
    send_message-files setup (codes "m") (codes "7") asked (codes "hi") still live

-- Alice polls for the response to a request of hers.
abbrev polled_for : PollObjectRequest
polled_for = record {
  request_id = codes "7";
  from = alice;
  syft_url = url;
  timeout = 0;
  as_raw = true;
}

abbrev answered : Server table store
answered = record {
  acl = start;
  blob = holding (
      (codes "alice@x.co/app_data/a/rpc/e/7.request", codes "q")
      ∷ (codes "alice@x.co/app_data/a/rpc/e/7.response", codes "r")
      ∷ []);
}

poll_for_response-IsOpen_example :
    (path : Text) × IsFound setup polled_for answered.blob path
    × IsOpen setup polled_for path (still answered.blob) answered.acl (codes "r")
unfolding opened_send
poll_for_response-IsOpen_example =
    poll_for_response-IsOpen setup polled_for still answered (codes "7") (codes "r") refl

response_path-request_example :
    response_path setup (codes "a@b.co/e.request/7.request") ≡ codes "a@b.co/e.response/7.request"
unfolding contains opened_send
response_path-request_example =
    response_path-request setup (codes "a@b.co/e") (codes "/7.request") refl
