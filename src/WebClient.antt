-- ===== src/WebClient.antt =====
-- clients/web/gatewayClient.js: the browser's side of a gateway request. WebCrypto, atob and btoa are
-- parameters, and the random key and initialisation vector of a request are arguments. What fetch
-- gives is the status and the JSON of the reply.
pub mod Binary
pub mod Authentic
pub mod EndToEnd
use encryption_gateway.Prelude.{
  ℕ, zero, suc, ◌+◌, ◌-◌, ◌==◌, Text, codes, List, [], ◌∷◌, ◌++◌, length, take, drop, Option, none,
  some, Bool, true, false, ◌||◌, if◌then◌else◌, ltb, Result, ok, err, crash, http, ◌>>=◌, ◌>>◌,
}
use encryption_gateway.JsText.{is_space}
use encryption_gateway.Runtime.{
  Bytes, Json, bool, num, str, arr, obj, Items, nil, cons, Fields, end, field, member, Runtime,
}
use encryption_gateway.Encryption.{GatewayRequest}

pub record WebCrypto (N : Type 0) : Type 1 where
  pub PublicKey : Type 0
  -- subtle.importKey of SPKI for RSA-OAEP with SHA-256, `none` if it is rejected
  pub import_spki : Bytes → Option PublicKey
  pub rsa_encrypt : PublicKey → Bytes → Option Bytes
  -- AES-GCM with the tag behind the ciphertext: key, initialisation vector, data
  pub aes_encrypt : Bytes → Bytes → Bytes → Bytes
  pub aes_decrypt : Bytes → Bytes → Bytes → Option Bytes
  -- btoa, and the bytes of atob, `none` if it throws
  pub btoa : Text → Text
  pub atob : Text → Option Bytes
  -- TextDecoder
  pub decode : Bytes → Text
  -- Number.isInteger(n) && n >= 100 && n <= 599
  pub is_status : N → Bool

-- The loop of `toB64` from an index on, with fuel for its rounds: a code unit for each byte.
unfoldable pub binary_from : ℕ → ℕ → Bytes → Text
binary_from zero i bytes = []
binary_from (suc fuel) i bytes =
    let rest = binary_from fuel (i + 0x8000) bytes in
    if ltb i (length bytes) then take 0x8000 (drop i bytes) ++ rest else []

unfoldable pub binary_string : Bytes → Text
binary_string bytes = binary_from (length bytes) 0 bytes

-- The length of a match of /-----[^-]+-----/ at the start of a text, by the dashes that are still to
-- come before the words, whether there was a word unit, and the dashes behind them.
unfoldable pub dashes : ℕ → Text → Option Text
dashes zero s = some s
dashes (suc n) [] = none
dashes (suc n) (c ∷ s) = let rest = dashes n s in if c == b'-' then rest else none

abbrev pub after_words : Text → Text
after_words [] = []
after_words (c ∷ s) = let rest = after_words s in if c == b'-' then c ∷ s else rest

-- What stands behind such a match.
unfoldable pub after_mark : Text → Option Text
after_mark s = elim (dashes 5 s) [
  | none ↦ none
  | some [] ↦ none
  | some (c ∷ t) ↦ if c == b'-' then none else dashes 5 (after_words t)
]

-- pem.replace(/-----[^-]+-----|\s/g, ''), with the number of units that belong to a match that has
-- begun.
unfoldable pub strip_pem : ℕ → Text → Text
strip_pem skip [] = []
strip_pem (suc skip) (c ∷ s) = strip_pem skip s
strip_pem zero (c ∷ s) =
    let kept = strip_pem zero s in
    elim (after_mark (c ∷ s)) [
      | some rest ↦ strip_pem (length s - length rest) s
      | none ↦ if is_space c then kept else c ∷ kept
    ]

pub record SendOptions (N : Type 0) : Type 0 where
  pub method : Option Text
  pub access_point : Text
  pub headers : List (Text × Json N)
  pub body : Option (Json N)
  pub parameter : Option (Json N)

module _ (R : Runtime) (W : WebCrypto R.Num) where
  open R use {Num, parse, stringify, utf8}
  open W use {
    PublicKey, import_spki, rsa_encrypt, aes_encrypt, aes_decrypt, btoa, atob, decode, is_status,
  }

  -- `server_key` is what the import of the key gives, `none` where it is rejected.
  pub record GatewayClient : Type 0 where
    pub require_encrypted_response : Bool
    pub gateway_url : Text
    pub key_id : Option Text
    pub server_key : Option PublicKey

  unfoldable pub to_b64 : Bytes → Text
  to_b64 bytes = btoa (binary_string bytes)

  -- The constructor; atob of a key that is not Base64 throws.
  unfoldable pub gateway_client : Text → Text → Option Text → Bool → Result GatewayClient
  gateway_client gateway_url server_public_pem key_id require_encrypted_response =
      elim (atob (strip_pem 0 server_public_pem)) [
        | none ↦ err (crash "InvalidCharacterError")
        | some der ↦ ok (record {
          require_encrypted_response = require_encrypted_response;
          gateway_url = gateway_url;
          key_id = key_id;
          server_key = import_spki der;
        })
      ]

  abbrev pub json_pairs : List (Text × Json Num) → Items Num
  json_pairs [] = nil
  json_pairs ((key, value) ∷ rest) =
      cons (obj (field (codes "Key") (str key) (field (codes "Value") value end))) (json_pairs rest)

  -- A member that is undefined is left out by JSON.stringify.
  abbrev pub optional : Text → Option (Json Num) → Fields Num → Fields Num
  optional name none rest = rest
  optional name (some v) rest = field name v rest

  abbrev pub method_or_get : Option Text → Text
  method_or_get none = codes "GET"
  method_or_get (some m) = m

  unfoldable pub payload_of : SendOptions Num → Json Num
  payload_of options = obj (
      field (codes "Method") (str (method_or_get options.method)) (
        field (codes "AccessPoint") (str options.access_point) (
          field (codes "Header") (arr (json_pairs options.headers)) (
            optional (codes "Body") options.body
              (optional (codes "Parameter") options.parameter end)))))

  -- `none` is a value, `crash` what a rejected promise gives.
  abbrev pub or_reject {ℓ} : {A : Type ℓ} → Option A → Result A
  or_reject none = err (crash "rejected")
  or_reject (some a) = ok a

  -- Steps 1 to 3: the body of the POST.
  unfoldable pub seal_request :
      GatewayClient → SendOptions Num → Bytes → Bytes → Result GatewayRequest
  seal_request client options raw_key iv = do
    server_key ← or_reject client.server_key
    encrypted_key ← or_reject (rsa_encrypt server_key raw_key)
    ok (record {
      key_id = client.key_id;
      encrypted_key = to_b64 encrypted_key;
      iv = to_b64 iv;
      payload = to_b64 (aes_encrypt raw_key iv (utf8 (stringify (payload_of options))));
    })

  pub record GatewayResult : Type 0 where
    pub status_code : Num
    pub headers : Fields Num
    pub content : Json Num

  abbrev pub checked_result :
      Option (Json Num) → Option (Json Num) → Option (Json Num) → Result GatewayResult
  checked_result (some (num status)) (some (obj headers)) (some content) =
      if is_status status
      then ok (record { status_code = status; headers = headers; content = content })
      else err (crash "Invalid gateway response")
  checked_result _ _ _ = err (crash "Invalid gateway response")

  -- result(value)
  unfoldable pub result : Json Num → Result GatewayResult
  result (obj fs) =
      checked_result (member (codes "StatusCode") fs) (member (codes "Headers") fs)
        (member (codes "Data") fs)
  result _ = err (crash "Invalid gateway response")

  -- Decryption with the key of the request, and the check of the JSON.
  unfoldable pub open_reply : Bytes → Text → Text → Result GatewayResult
  open_reply raw_key iv payload = do
    iv_bytes ← or_reject (atob iv)
    sealed ← or_reject (atob payload)
    plain ← or_reject (aes_decrypt raw_key iv_bytes sealed)
    value ← or_reject (parse (decode plain))
    result value

  abbrev pub is_there : Option (Json Num) → Bool
  is_there none = false
  is_there (some v) = true

  unfoldable pub receive_plain : Bool → Fields Num → Result GatewayResult
  receive_plain require_encrypted fs =
      if require_encrypted
      then err (crash "Encrypted response required")
      else if is_there (member (codes "IV") fs) || is_there (member (codes "Payload") fs)
      then err (crash "Invalid gateway response")
      else result (obj fs)

  unfoldable pub receive_sealed :
      Bytes → Option (Json Num) → Option (Json Num) → Result GatewayResult
  receive_sealed raw_key (some (str iv)) (some (str payload)) = open_reply raw_key iv payload
  receive_sealed raw_key _ _ = err (crash "Invalid gateway response")

  -- By the marker Encrypted: false, true or undefined, anything else.
  unfoldable pub receive_marked :
      GatewayClient → Bytes → Fields Num → Option (Json Num) → Result GatewayResult
  receive_marked client raw_key fs (some (bool false)) =
      receive_plain client.require_encrypted_response fs
  receive_marked client raw_key fs (some (bool true)) =
      receive_sealed raw_key (member (codes "IV") fs) (member (codes "Payload") fs)
  receive_marked client raw_key fs none =
      receive_sealed raw_key (member (codes "IV") fs) (member (codes "Payload") fs)
  receive_marked client raw_key fs (some _) = err (crash "Invalid gateway response")

  -- The rest of `send`: from the reply, whose status was ok or not.
  unfoldable pub receive : GatewayClient → Bytes → Bool → ℕ → Json Num → Result GatewayResult
  receive client raw_key false status json = err (http status "GatewayError")
  receive client raw_key true status (obj fs) =
      receive_marked client raw_key fs (member (codes "Encrypted") fs)
  receive client raw_key true status _ = err (crash "Invalid gateway response")
