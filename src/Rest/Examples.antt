-- ===== src/Rest/Examples.antt =====
-- A transport that answers 503 until its third call, and clients of a service that has the resource group
-- "rg" only.
use azure_aci.Prelude.{
  ℕ, suc, ◌<◌, ◌≤◌, ◌<◌, ◌⊎◌, String, ◌<>◌, false, none, some, [], ◌∷◌, ◌≡◌, refl, ok,
  if◌then◌else◌, ltb, Result,
}
use azure_aci.Rest.{
  HttpResponse, Attempted, answered, Matching, Request, UserAgentTransport, default_retry_config,
  retry_policy, round_trip, retried, backoff,
}
use azure_aci.Rest.Attempts.{Counts, round_trip-IsCounted}
use azure_aci.Rest.Api.{
  Net, Reply, Url, Call, check_response, fetch_answer, exchange, send_call, request_url,
  resolve_relative, expand_url,
}
use azure_aci.Rest.Answered.{IsAnswered, fetch_answer-IsAnswered}
use azure_aci.Rest.Resources.{ResourcesClient, resource_call, get_resource_group}

abbrev busy : ℕ → HttpResponse (Unit {0})
busy code = record { status_code = code; status = ""; header = []; body = tt }

abbrev matching : Matching
matching = record {
  matches_redirects = λ s. false;
  matches_scheme = λ s. false;
  parse_int = λ s. none;
}

-- The world counts the calls.
abbrev base : Request → ℕ → Attempted (Unit {0}) × ℕ
base req w = (answered (busy (if ltb w 2 then 503 else 200)), suc w)

abbrev transport : UserAgentTransport ℕ (Unit {0})
transport = record {
  user_agent = "vk" ∷ [];
  base = some base;
  refresher = none;
  o_auth_token = λ w. "token";
  sleep = λ wait w. w;
  retry_config = default_retry_config;
  matching = matching;
}

abbrev request : Request
request = record { verb = "GET"; url = "u"; header = []; body = none }

counts : Counts transport base (λ w. w)
counts = record {
  is_base = refl;
  calling = λ req w. refl;
  sleeping = λ wait w. refl;
  refreshing = λ w. refl;
}

third : round_trip transport request 0 ≡ (ok (answered (busy 200)), 3)
unfolding round_trip retried retry_policy backoff
third = refl

round_trip-IsCounted_example :
    (0 < 3)
    × (3 ≤ 41)
    × ((retry_policy matching (answered (busy 200)) ≡ false) ⊎ (◌≡◌ {A = ℕ} 3 41))
round_trip-IsCounted_example =
    round_trip-IsCounted transport base (λ w. w) counts request 0 3 (answered (busy 200)) third

abbrev reply_of : String → Url → Reply String
reply_of verb url = record { status_code = 200; status = "OK"; body = some "group"; url = url.path }

abbrev net : Net ℕ String String
net = record {
  resolve_reference = λ base rel. ok (base <> rel);
  encode_values = λ values. "q";
  query_escape = λ s. s;
  new_request = λ verb uri body. ok (record { origin = ""; path = uri; raw_path = ""; query = "" });
  send = λ verb url body w. (ok (reply_of verb url), suc w);
  parse_template = λ s. ok s;
  execute = λ t expansions. ok t;
  read_all = λ s. ok s;
  unmarshal_reply = λ s. ok none;
  show_code = λ n. "";
  quote = λ s. s;
}

abbrev missing : Reply String
missing = record { status_code = 404; status = "Not Found"; body = some ""; url = "u" }

abbrev client : ResourcesClient ℕ String String
client = record { net = net; resource_manager_endpoint = "m"; subscription_id = "s" }

abbrev get_rg : Call
get_rg =
    resource_call client "GET" "rg" (ok none) "Creating get resource group uri request failed: "
      "Sending get resource group request failed: "

abbrev as_text : String → Result String
as_text s = ok s

got_rg : get_resource_group client as_text "rg" 0 ≡ (ok "group", 1)
unfolding get_resource_group fetch_answer exchange check_response send_call request_url
    resolve_relative expand_url
got_rg = refl

fetch_answer-IsAnswered_example : IsAnswered net get_rg as_text 0 "group" 1
unfolding get_resource_group
fetch_answer-IsAnswered_example =
    fetch_answer-IsAnswered net get_rg as_text
      "Create resource group returned an empty body in the response"
      "Decoding get resource group response body failed: " 0 1 "group" got_rg
