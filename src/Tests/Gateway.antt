-- ===== src/Tests/Gateway.antt =====
-- Sealed requests, forwarding, and the gateway as a whole.
use encryption_gateway.Prelude.{
  ℕ, ◌≤◌, ◌≢◌, Text, codes, text_eq, List, [], ◌∷◌, replicate, Option, none, some, true, false,
  if◌then◌else◌, ◌==◌, ◌≡◌, ◌↔◌, ◌⊎◌, ok, err, Failure, arith, ◌++◌,
}
use encryption_gateway.Runtime.{Bytes, Json, num, str, obj, end, field}
use encryption_gateway.Encryption.{Cipher, GatewayRequest, KeyInfo, ServerKey, decrypt}
use encryption_gateway.Encryption.Sealed.{IsSealed, decrypt_iff}
use encryption_gateway.Payload.{DecryptedPayload}
use encryption_gateway.TargetPolicy.{Url}
use encryption_gateway.Proxy.Service.{
  UpstreamRequest, UpstreamResult, response, ProxyService, answer, forward,
}
use encryption_gateway.Proxy.Service.Sent.{IsPermitted, forward-IsPermitted}
use encryption_gateway.Proxy.Controller.{GatewayState, handle_gateway}
use encryption_gateway.Proxy.Controller.Gateway.{IsSent, handle_gateway-IsSent}
use encryption_gateway.OrderedMap
use encryption_gateway.JsText.{split_on}
use encryption_gateway.ClientIp.{client_ip_key}
use encryption_gateway.RateLimit.{overflow}
use encryption_gateway.App.{HttpRequest, App, client_of}
use encryption_gateway.App.Limited.{sent_for, sent_limit}
use encryption_gateway.Tests.Toys.{same, byte, toy_runtime, toy_times}

-- The AES key of a text whose first byte names the server's key; a tag of zeros.
abbrev pub toy_aes_key : Bytes
toy_aes_key = replicate 32 1

abbrev pub toy_iv : Bytes
toy_iv = replicate 12 2

abbrev pub toy_cipher : Cipher
toy_cipher = record {
  PrivateKey = ℕ;
  private_decrypt = λ c k. if byte 0 c == k then some toy_aes_key else none;
  gcm_encrypt = λ plain key iv. (plain, replicate 16 0);
  gcm_decrypt = λ c tag key iv. if text_eq tag (replicate 16 0) then some c else none;
  utf8_text = λ b. b;
}

abbrev pub no_info : KeyInfo
no_info = record {
  key_id = [];
  algorithm = [];
  pem = [];
  spki_base64 = [];
  pkcs1_base64 = [];
  sha256_fingerprint = [];
}

-- A newer key, and the one that the request was sealed for.
abbrev some_keys : List (ServerKey toy_runtime toy_cipher)
some_keys =
    record { key_id = codes "new"; private_key = 8; info = no_info }
    ∷ record { key_id = codes "old"; private_key = 7; info = no_info }
    ∷ []

abbrev a_request : GatewayRequest
a_request = record {
  key_id = none;
  encrypted_key = 7 ∷ [];
  iv = toy_iv;
  payload = 3 ∷ codes "u" ++ replicate 16 0;
}

abbrev pub a_payload : DecryptedPayload ℕ
a_payload = record {
  access_point = codes "u";
  method = none;
  header = none;
  body = none;
  parameter = none;
  nonce = none;
  timestamp = none;
}

decrypt_iff_example :
    (decrypt toy_runtime toy_cipher some_keys a_request ≡ ok (a_payload, toy_aes_key))
    ↔ IsSealed toy_runtime toy_cipher some_keys a_request a_payload toy_aes_key
decrypt_iff_example = decrypt_iff toy_runtime toy_cipher some_keys a_request a_payload toy_aes_key

abbrev a_value : Json ℕ
a_value = obj (field (codes "nonce") (str (5 ∷ [])) (field (codes "purpose") (str (codes "x")) end))

abbrev pub a_url : Url
a_url = record {
  protocol = codes "https:";
  host = codes "api.example.com";
  pathname = codes "/users";
  text = codes "https://api.example.com/users";
}

-- Every text is this URL; any path of the host is allowed.
abbrev pub toy_parse_url : Text → Option Url
toy_parse_url t = some a_url

abbrev a_service : ProxyService toy_runtime
a_service = record {
  rules =
      record {
        method = codes "*";
        host = codes "api.example.com";
        path = codes "/";
        is_prefix = true;
        source = codes "api.example.com";
      }
      ∷ [];
  allow_http = false;
  timeout_ms = 15000;
  max_response_bytes = 5242880;
}

abbrev pub toy_client : UpstreamRequest toy_runtime → UpstreamResult toy_runtime
toy_client request = response 200 (num 1) none

forward-IsPermitted_example :
    ((e : Failure) × (forward toy_runtime same same
          (λ t. some t)
          toy_parse_url
          a_service
          toy_client
          a_payload
          []
        ≡ (err e, [])))
    ⊎ ((request : UpstreamRequest toy_runtime) × IsPermitted toy_runtime same same
          (λ t. some t)
          toy_parse_url
          a_service
          a_payload
          request
        × (forward toy_runtime same same
              (λ t. some t)
              toy_parse_url
              a_service
              toy_client
              a_payload
              []
            ≡ (
              answer toy_runtime same same (λ t. some t) toy_parse_url (toy_client request),
              request ∷ [],
            )))
forward-IsPermitted_example =
    forward-IsPermitted toy_runtime same same (λ t. some t) toy_parse_url a_service toy_client
      a_payload []

abbrev a_state : GatewayState toy_runtime toy_cipher toy_times
a_state = record {
  replay = record { is_required = false; max_skew_ms = 60000; max_entries = 10; seen = [] };
  sent = [];
}

abbrev handled : GatewayState toy_runtime toy_cipher toy_times
handled =
    (handle_gateway toy_runtime toy_cipher toy_times same same (λ t. some t) toy_parse_url true
      some_keys a_service toy_client 10 toy_iv a_request a_state).1

handle_gateway-IsSent_example :
    (handled.sent ≡ [])
    ⊎ IsSent toy_runtime toy_cipher toy_times same same
        (λ t. some t)
        toy_parse_url
        some_keys
        a_service
        10
        a_request
        a_state
        handled
handle_gateway-IsSent_example =
    handle_gateway-IsSent toy_runtime toy_cipher toy_times same same (λ t. some t) toy_parse_url
      true some_keys a_service toy_client 10 toy_iv a_request a_state

abbrev an_upstream_request : UpstreamRequest toy_runtime
an_upstream_request = record {
  url = a_url;
  method = codes "GET";
  headers = [];
  body = none;
  params = none;
  timeout = 15000;
  max_content_length = 5242880;
  max_redirects = 0;
}

-- The same request, twice in a window of one request, by one client.
abbrev a_call : HttpRequest
a_call = record {
  ip = some (codes "u");
  remote_address = none;
  at = 5;
  now = 10;
  iv = toy_iv;
  dto = a_request;
}

abbrev an_app : App toy_runtime toy_cipher toy_times
an_app = record {
  rate = record { ttl_ms = 1000; limit = 1; max_entries = 10; hits = []; next_sweep_at = 0 };
  gateway = a_state;
}

overflow_apart : overflow ≢ client_of same (λ t. 4) a_call
unfolding client_ip_key overflow split_on
overflow_apart = ground arith

sent_limit_example :
    sent_for toy_runtime toy_cipher toy_times same same
      (λ t. 4)
      (λ t. some t)
      toy_parse_url
      true
      some_keys
      a_service
      toy_client
      (client_of same (λ t. 4) a_call)
      (a_call ∷ a_call ∷ [])
      an_app
    ≤ 1
unfolding OrderedMap.get
sent_limit_example =
    sent_limit toy_runtime toy_cipher toy_times same same (λ t. 4) (λ t. some t) toy_parse_url true
      some_keys a_service toy_client a_call (a_call ∷ []) an_app tt overflow_apart tt (ground arith)
      (ground arith, tt)
