-- ===== src/Tests/Node.antt =====
-- A request from the Node.js client through the gateway and back.
use encryption_gateway.Prelude.{
  ℕ, Text, codes, text_eq, List, [], ◌∷◌, Option, none, some, true, false, if◌then◌else◌, ◌==◌, ◌≡◌,
  refl, ok, inl,
}
use encryption_gateway.Runtime.{Json, num, str, arr, obj, nil, end, field, member, Runtime}
use encryption_gateway.Config.{Config}
use encryption_gateway.Encryption.{ServerKey, candidates, seal}
use encryption_gateway.Payload.{
  DecryptedPayload, parse_payload, parse_fields, parse_access_point, parse_method, validate_header,
  validate_parameter, validate_body, validate_nonce, validate_timestamp, validate_header_items,
  normalize_request_body, validate_json_depth, validate_items_depth, validate_fields_depth,
  decode_body,
}
use encryption_gateway.Replay.{assert_fresh}
use encryption_gateway.TargetPolicy.{assert_allowed, has_encoded_slash, matches, matches_path}
use encryption_gateway.Proxy.Headers.{
  normalize_headers, header_entries, connection_headers, add_pairs, sanitize_response_headers,
}
use encryption_gateway.Proxy.Service.{
  UpstreamRequest, UpstreamResult, UpstreamResponse, response, ProxyService, answer, build_request,
  validate_and_build_url, request_body, request_params,
}
use encryption_gateway.Proxy.Controller.{
  GatewayState, Reply, json_of_response, json_of_reply, handle_gateway,
}
use encryption_gateway.NodeClient.{
  ServerInfo, NodeTools, NodeRequest, payload_of, body_of, get_server_key, key_from_file, prepare,
  receive,
}
use encryption_gateway.NodeClient.Reply.{shown_answer}
use encryption_gateway.NodeClient.EndToEnd.{IsReadable, receive-prepare}
use encryption_gateway.Tests.Toys.{same, toy_runtime, toy_times}
use encryption_gateway.Tests.Gateway.{
  toy_cipher, toy_aes_key, toy_iv, no_info, a_url, toy_parse_url,
}

-- A JSON format of three values: 4, a payload with its access point, 5, an answer with its status
-- and its body, and 6, a body.
abbrev three_stringify : Json ℕ → Text
three_stringify (obj (field m (str a) (field p (str t) more))) = 4 ∷ t
three_stringify (obj (field m (num s) (field h (obj hs) (field d (num b) more)))) = 5 ∷ s ∷ b ∷ []
three_stringify _ = []

abbrev node_payload : Text → Json ℕ
node_payload t = obj (
    field (codes "Method") (str (codes "POST")) (
      field (codes "AccessPoint") (str t)
        (field (codes "Header") (arr nil) (field (codes "Body") (obj end) end))))

abbrev upstream_answer : Text → Option (Json ℕ)
upstream_answer (s ∷ b ∷ []) = some (
    obj (
      field (codes "StatusCode") (num s)
        (field (codes "Headers") (obj end) (field (codes "Data") (num b) end))))
upstream_answer _ = some (obj end)

abbrev three_parse : Text → Option (Json ℕ)
three_parse [] = none
three_parse (c ∷ t) = if c == 4 then some (node_payload t) else upstream_answer t

abbrev node_runtime : Runtime
node_runtime = record toy_runtime { parse = three_parse; stringify = three_stringify }

-- The key 7 is in the file, under the id of the environment.
abbrev an_env : Config
an_env name =
    if text_eq (codes name) (codes "SERVER_PUBLIC_KEY_PATH")
    then some (codes "public.pem")
    else if text_eq (codes name) (codes "KEY_ID")
    then some (codes "only")
    else if text_eq (codes name) (codes "ACCESS_POINT")
    then some (codes "u")
    else none

abbrev node_tools : NodeTools node_runtime toy_cipher
node_tools = record { read_file = λ path. some (7 ∷ []); public_encrypt = λ pem key. some (7 ∷ []) }

abbrev the_server : ServerInfo node_runtime toy_cipher
the_server = record { pem = some (str (7 ∷ [])); key_id = some (str (codes "only")) }

abbrev node_keys : List (ServerKey node_runtime toy_cipher)
node_keys = record { key_id = codes "only"; private_key = 7; info = no_info } ∷ []

posted-IsReadable :
    IsReadable node_runtime toy_cipher node_keys node_tools the_server
      (some (codes "only"))
      toy_aes_key
      toy_iv
      (payload_of node_runtime toy_cipher an_env (obj end))
unfolding payload_of candidates text_eq seal
posted-IsReadable = record {
  encrypted_key = 7 ∷ [];
  named = refl;
  encrypts = refl;
  unwraps = inl refl;
  key_size = refl;
  iv_size = refl;
  key_back = refl;
  openable = record {
    tag_size = refl;
    opens = refl;
    utf8_back = refl;
    iv_back = refl;
    sealed_back = refl;
  };
  json = refl;
}

abbrev posted_payload : DecryptedPayload ℕ
posted_payload = record {
  access_point = codes "u";
  method = some (codes "POST");
  header = some (arr nil);
  body = some (obj end);
  parameter = none;
  nonce = none;
  timestamp = none;
}

posted-accepted :
    parse_payload node_runtime (payload_of node_runtime toy_cipher an_env (obj end))
    ≡ ok posted_payload
unfolding payload_of parse_payload parse_fields parse_access_point parse_method validate_header
    validate_parameter validate_body validate_nonce validate_timestamp member text_eq
    validate_header_items normalize_request_body validate_json_depth decode_body
posted-accepted = refl

abbrev node_service : ProxyService node_runtime
node_service = record {
  rules =
      record {
        method = codes "*";
        host = codes "api.example.com";
        path = codes "/";
        is_prefix = true;
        source = codes "api.example.com";
      }
      ∷ [];
  allow_http = false;
  timeout_ms = 15000;
  max_response_bytes = 5242880;
}

abbrev node_upstream : UpstreamRequest node_runtime → UpstreamResult node_runtime
node_upstream request = response 200 (num 1) none

abbrev node_state : GatewayState node_runtime toy_cipher toy_times
node_state = record {
  replay = record { is_required = false; max_skew_ms = 60000; max_entries = 10; seen = [] };
  sent = [];
}

abbrev forwarded : UpstreamRequest node_runtime
forwarded = record {
  url = a_url;
  method = codes "POST";
  headers = [];
  body = some (obj end);
  params = none;
  timeout = 15000;
  max_content_length = 5242880;
  max_redirects = 0;
}

forwarded-built :
    build_request node_runtime same same (λ t. some t) toy_parse_url node_service posted_payload
    ≡ ok forwarded
unfolding build_request validate_and_build_url assert_allowed has_encoded_slash matches matches_path
    normalize_headers header_entries connection_headers add_pairs request_body request_params
    text_eq normalize_request_body validate_json_depth validate_items_depth validate_fields_depth
    decode_body
forwarded-built = refl

abbrev an_answer : UpstreamResponse node_runtime
an_answer = record { status = 200; body = num 1; headers = [] }

receive-prepare_example :
    (posted_request : NodeRequest node_runtime toy_cipher) × (reply : Reply node_runtime toy_cipher
      toy_times)
    × (prepare node_runtime toy_cipher node_tools an_env none toy_aes_key toy_iv
        ≡ ok posted_request)
    × ((handle_gateway node_runtime toy_cipher toy_times same same
          (λ t. some t)
          toy_parse_url
          true
          node_keys
          node_service
          node_upstream
          10
          toy_iv
          (record {
            key_id = some (codes "only");
            encrypted_key = posted_request.encrypted_key;
            iv = posted_request.iv;
            payload = posted_request.payload;
          })
          node_state).0
        ≡ ok reply)
    × (posted_request.key_id ≡ some (str (codes "only")))
    × (receive node_runtime toy_cipher an_env toy_aes_key (record {
      status = 200;
      json = some (json_of_reply node_runtime toy_cipher toy_times reply);
    })
        ≡ ok (some (shown_answer node_runtime toy_cipher toy_times an_answer)))
unfolding assert_fresh answer sanitize_response_headers text_eq body_of get_server_key key_from_file
    json_of_response seal
receive-prepare_example =
    receive-prepare node_runtime toy_cipher toy_times same same (λ t. some t) toy_parse_url
      node_keys node_tools an_env none (obj end) the_server (some (codes "only")) toy_aes_key toy_iv
      toy_iv true node_service node_upstream 10 node_state posted_payload forwarded an_answer
      posted-IsReadable refl refl posted-accepted refl forwarded-built refl
      (inl (
        refl,
        record {
          tag_size = refl;
          opens = refl;
          utf8_back = refl;
          iv_back = refl;
          sealed_back = refl;
        },
        refl,
      ))
