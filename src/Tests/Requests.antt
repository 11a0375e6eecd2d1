-- ===== src/Tests/Requests.antt =====
-- The check of payloads.
use encryption_gateway.Prelude.{ℕ, ◌≤◌, codes, none, some, ◌≡◌, ◌↔◌, ok}
use encryption_gateway.Runtime.{Json, num, str, obj, Fields, end, field, arr, cons, nil}
use encryption_gateway.Payload.{
  DecryptedPayload, parse_payload, decode_body, normalize_request_body,
}
use encryption_gateway.Payload.Accepted.{IsAccepted, parse_payload_iff}
use encryption_gateway.Payload.Depth.{height, normalize_request_body_iff}
use encryption_gateway.Tests.Toys.{toy_runtime}

abbrev some_fields : Fields ℕ
some_fields = field (codes "AccessPoint") (str (codes "https://api.example.com/")) (
    field (codes "Method") (str (codes "POST"))
      (field (codes "Body") (obj (field (codes "a") (num 1) end)) end))

abbrev a_payload : DecryptedPayload ℕ
a_payload = record {
  access_point = codes "https://api.example.com/";
  method = some (codes "POST");
  header = none;
  body = some (obj (field (codes "a") (num 1) end));
  parameter = none;
  nonce = none;
  timestamp = none;
}

parse_payload_iff_example :
    (parse_payload toy_runtime (obj some_fields) ≡ ok a_payload)
    ↔ ((p : Fields ℕ) × (obj some_fields ≡ obj p) × IsAccepted toy_runtime p a_payload)
parse_payload_iff_example = parse_payload_iff toy_runtime (obj some_fields) a_payload

abbrev a_body : Json ℕ
a_body = arr (cons (num 1) (cons (arr nil) nil))

normalize_request_body_iff_example :
    (normalize_request_body toy_runtime a_body ≡ ok a_body)
    ↔ ((a_body ≡ decode_body toy_runtime a_body) × (height (decode_body toy_runtime a_body) ≤ 32))
normalize_request_body_iff_example = normalize_request_body_iff toy_runtime a_body a_body
