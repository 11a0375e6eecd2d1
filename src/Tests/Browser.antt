-- ===== src/Tests/Browser.antt =====
-- The browser client, and a request from the browser through the gateway and back.
use encryption_gateway.Prelude.{
  ℕ, ◌-◌, Text, codes, text_eq, List, [], ◌∷◌, ◌++◌, length, take, replicate, Option, none, some,
  true, false, if◌then◌else◌, ◌==◌, ◌&&◌, leb, ◌≡◌, refl, ok, inl,
}
use encryption_gateway.Runtime.{Json, num, str, arr, obj, nil, Fields, end, field, member, Runtime}
use encryption_gateway.Encryption.{GatewayRequest, ServerKey, candidates, seal}
use encryption_gateway.Payload.{
  DecryptedPayload, parse_payload, parse_fields, parse_access_point, parse_method, validate_header,
  validate_parameter, validate_body, validate_nonce, validate_timestamp, validate_header_items,
}
use encryption_gateway.Replay.{assert_fresh}
use encryption_gateway.TargetPolicy.{assert_allowed, has_encoded_slash, matches, matches_path}
use encryption_gateway.Proxy.Headers.{
  normalize_headers, header_entries, connection_headers, add_pairs, sanitize_response_headers,
}
use encryption_gateway.Proxy.Service.{
  UpstreamRequest, UpstreamResult, UpstreamResponse, response, ProxyService, answer, build_request,
  validate_and_build_url, request_body, request_params,
}
use encryption_gateway.Proxy.Controller.{
  GatewayState, Reply, json_of_response, json_of_reply, handle_gateway,
}
use encryption_gateway.WebClient.{
  WebCrypto, SendOptions, GatewayClient, GatewayResult, binary_string, payload_of, seal_request,
  result, open_reply, receive_sealed, receive_marked, receive,
}
use encryption_gateway.WebClient.Binary.{binary_string_lem}
use encryption_gateway.WebClient.Authentic.{IsAuthentic, receive-IsAuthentic}
use encryption_gateway.WebClient.EndToEnd.{IsReadable, IsReplyReadable, receive-handle_gateway}
use encryption_gateway.Tests.Toys.{same, toy_runtime, toy_times}
use encryption_gateway.Tests.Gateway.{
  toy_cipher, toy_aes_key, toy_iv, no_info, a_url, toy_parse_url,
}

binary_string_lem_example : binary_string (7 ∷ 8 ∷ 255 ∷ []) ≡ 7 ∷ 8 ∷ 255 ∷ []
binary_string_lem_example = binary_string_lem (7 ∷ 8 ∷ 255 ∷ [])

-- A JSON format of two values: 4, a payload with its access point, and 5, an answer with its status
-- and its body.
abbrev two_stringify : Json ℕ → Text
two_stringify (obj (field m (str a) (field p (str t) more))) = 4 ∷ t
two_stringify (obj (field m (num s) (field h (obj hs) (field d (num b) more)))) = 5 ∷ s ∷ b ∷ []
two_stringify _ = []

abbrev payload_value : Text → Json ℕ
payload_value t = obj (
    field (codes "Method") (str (codes "GET"))
      (field (codes "AccessPoint") (str t) (field (codes "Header") (arr nil) end)))

abbrev answer_value : ℕ → ℕ → Json ℕ
answer_value s b = obj (
    field (codes "StatusCode") (num s)
      (field (codes "Headers") (obj end) (field (codes "Data") (num b) end)))

abbrev answer_of : Text → Option (Json ℕ)
answer_of (s ∷ b ∷ []) = some (answer_value s b)
answer_of _ = none

abbrev two_parse : Text → Option (Json ℕ)
two_parse [] = none
two_parse (c ∷ t) = if c == 4 then some (payload_value t) else answer_of t

abbrev two_runtime : Runtime
two_runtime = record toy_runtime { parse = two_parse; stringify = two_stringify }

abbrev toy_web_crypto : WebCrypto ℕ
toy_web_crypto = record {
  PublicKey = ℕ;
  import_spki = λ der. some 7;
  rsa_encrypt = λ k raw. some (k ∷ []);
  aes_encrypt = λ key iv bytes. bytes ++ replicate 16 0;
  aes_decrypt = λ key iv sealed. some (take (length sealed - 16) sealed);
  btoa = λ t. t;
  atob = λ t. some t;
  decode = λ b. b;
  is_status = λ n. leb 100 n && leb n 599;
}

abbrev a_client : GatewayClient two_runtime toy_web_crypto
a_client = record {
  require_encrypted_response = true;
  gateway_url = codes "https://gateway";
  key_id = none;
  server_key = some 7;
}

abbrev a_result : GatewayResult two_runtime toy_web_crypto
a_result = record { status_code = 200; headers = end; content = num 1 }

-- The reply with the status 200 and the body 1.
abbrev sealed_fields : Fields ℕ
sealed_fields =
    field (codes "IV") (str toy_iv)
      (field (codes "Payload") (str (5 ∷ 200 ∷ 1 ∷ replicate 16 0)) end)

receive-IsAuthentic_example :
    (fs : Fields ℕ) × (obj sealed_fields ≡ obj fs)
    × IsAuthentic two_runtime toy_web_crypto toy_aes_key fs a_result
unfolding receive receive_marked receive_sealed open_reply result member text_eq
receive-IsAuthentic_example =
    receive-IsAuthentic two_runtime toy_web_crypto a_client toy_aes_key 200 true (obj sealed_fields)
      a_result refl refl

abbrev some_options : SendOptions ℕ
some_options = record {
  method = none;
  access_point = codes "u";
  headers = [];
  body = none;
  parameter = none;
}

abbrev its_keys : List (ServerKey two_runtime toy_cipher)
its_keys = record { key_id = codes "only"; private_key = 7; info = no_info } ∷ []

abbrev its_payload : DecryptedPayload ℕ
its_payload = record {
  access_point = codes "u";
  method = some (codes "GET");
  header = some (arr nil);
  body = none;
  parameter = none;
  nonce = none;
  timestamp = none;
}

its_request-IsReadable :
    IsReadable two_runtime toy_cipher toy_web_crypto its_keys a_client toy_aes_key toy_iv
      (two_runtime.stringify (payload_of two_runtime toy_web_crypto some_options))
      (payload_of two_runtime toy_web_crypto some_options)
unfolding payload_of candidates text_eq
its_request-IsReadable = record {
  public_key = 7;
  encrypted_key = 7 ∷ [];
  imported = refl;
  encrypts = refl;
  unwraps = inl refl;
  key_size = refl;
  iv_size = refl;
  tag_size = refl;
  appends = refl;
  opens = refl;
  base64 = λ b. refl;
  utf8_back = refl;
  json = refl;
}

its_payload-accepted :
    parse_payload two_runtime (payload_of two_runtime toy_web_crypto some_options) ≡ ok its_payload
unfolding payload_of parse_payload parse_fields parse_access_point parse_method validate_header
    validate_parameter validate_body validate_nonce validate_timestamp member text_eq
    validate_header_items
its_payload-accepted = refl

abbrev its_service : ProxyService two_runtime
its_service = record {
  rules =
      record {
        method = codes "*";
        host = codes "api.example.com";
        path = codes "/";
        is_prefix = true;
        source = codes "api.example.com";
      }
      ∷ [];
  allow_http = false;
  timeout_ms = 15000;
  max_response_bytes = 5242880;
}

abbrev its_upstream : UpstreamRequest two_runtime → UpstreamResult two_runtime
its_upstream request = response 200 (num 1) none

abbrev its_state : GatewayState two_runtime toy_cipher toy_times
its_state = record {
  replay = record { is_required = false; max_skew_ms = 60000; max_entries = 10; seen = [] };
  sent = [];
}

abbrev its_request : UpstreamRequest two_runtime
its_request = record {
  url = a_url;
  method = codes "GET";
  headers = [];
  body = none;
  params = none;
  timeout = 15000;
  max_content_length = 5242880;
  max_redirects = 0;
}

abbrev its_answer : UpstreamResponse two_runtime
its_answer = record { status = 200; body = num 1; headers = [] }

its_reply-IsReplyReadable :
    IsReplyReadable two_runtime toy_cipher toy_web_crypto toy_aes_key toy_iv
      (json_of_response two_runtime toy_cipher toy_times its_answer)
unfolding json_of_response seal
its_reply-IsReplyReadable = record {
  iv_back = refl;
  sealed_back = refl;
  opens = refl;
  utf8_back = refl;
  json = refl;
}

receive-handle_gateway_example :
    (dto : GatewayRequest) × (reply : Reply two_runtime toy_cipher toy_times) × (seal_request
        two_runtime toy_web_crypto a_client some_options toy_aes_key toy_iv
      ≡ ok dto)
    × ((handle_gateway two_runtime toy_cipher toy_times same same
          (λ t. some t)
          toy_parse_url
          true
          its_keys
          its_service
          its_upstream
          10
          toy_iv
          dto
          its_state).0
        ≡ ok reply)
    × (receive two_runtime toy_web_crypto a_client toy_aes_key true 200
          (json_of_reply two_runtime toy_cipher toy_times reply)
        ≡ ok a_result)
unfolding assert_fresh build_request validate_and_build_url assert_allowed has_encoded_slash matches
    matches_path normalize_headers header_entries connection_headers add_pairs request_body
    request_params answer sanitize_response_headers text_eq
receive-handle_gateway_example =
    receive-handle_gateway two_runtime toy_cipher toy_web_crypto toy_times same same (λ t. some t)
      toy_parse_url its_keys a_client some_options toy_aes_key toy_iv toy_iv its_service
      its_upstream 10 its_state its_payload its_request its_answer its_request-IsReadable
      its_payload-accepted refl refl refl refl its_reply-IsReplyReadable
