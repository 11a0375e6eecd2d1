-- ===== src/NodeClient.antt =====
-- test-client.js: the client of the gateway for Node.js. The environment is a function, the random
-- key and initialisation vector of a request are arguments, and so is what the two calls of fetch
-- give. RSA and the file system are parameters, AES-GCM is the one of the gateway. An Error, after
-- which the script exits with status 1, is `crash`; what it prints is left out, less the three values
-- of the upstream's answer.

pub mod Reply
pub mod EndToEnd
use encryption_gateway.Prelude.{
  ℕ, ◌+◌, ◌-◌, ◌==◌, Text, codes, text_eq, [], ◌∷◌, ◌++◌, length, take, drop, Option, none, some,
  Bool, true, false, not, ◌&&◌, if◌then◌else◌, leb, Result, ok, err, crash, guard, ◌>>=◌, ◌>>◌,
}
use encryption_gateway.JsText.{is_given}
use encryption_gateway.Runtime.{
  Bytes, Json, null, bool, str, arr, obj, nil, cons, end, field, member, Runtime,
}
use encryption_gateway.Config.{Config}
use encryption_gateway.Encryption.{Cipher}

-- .replace(/\/+$/, '')
unfoldable pub without_slashes : Text → Text
without_slashes [] = []
without_slashes (c ∷ s) =
    let rest = without_slashes s in if c == b'/' && not (is_given rest) then [] else c ∷ rest

-- left ?? right
abbrev pub value_or : Option Text → Text → Text
value_or none fallback = fallback
value_or (some value) fallback = value

-- A value that is set and not empty.
abbrev pub is_true : Option Text → Bool
is_true none = false
is_true (some value) = is_given value

-- The constant GATEWAY_URL.
unfoldable pub gateway_url : Config → Text
gateway_url env = without_slashes (value_or (env "GATEWAY_URL") (codes "http://localhost:3000"))

-- process.env.REQUIRE_ENCRYPTED_RESPONSE !== 'false'
abbrev pub requires_encryption : Option Text → Bool
requires_encryption none = true
requires_encryption (some value) = not (text_eq value (codes "false"))

-- What fetch gives: the status, and the JSON of the body, `none` if its parser throws.
pub record Fetched (N : Type 0) : Type 0 where
  pub status : ℕ
  pub json : Option (Json N)

module _ (R : Runtime) (C : Cipher) where
  open R use {Num, parse, stringify, to_base64, from_base64, buffer_of, utf8}
  open C use {gcm_encrypt, gcm_decrypt, utf8_text}

  pub record ServerInfo : Type 0 where
    pub pem : Option (Json Num)
    pub key_id : Option (Json Num)

  -- readFileSync as UTF-8, and publicEncrypt with OAEP and SHA-256; `none` means that a call throws.
  pub record NodeTools : Type 0 where
    pub read_file : Text → Option Text
    pub public_encrypt : Option (Json Num) → Bytes → Option Bytes

  abbrev pub or_throw {ℓ} : {A : Type ℓ} → Option A → Result A
  or_throw none = err (crash "Error")
  or_throw (some a) = ok a

  -- A property of a value; one of null throws.
  unfoldable pub property : Text → Json Num → Result (Option (Json Num))
  property name null = err (crash "TypeError")
  property name (obj fs) = ok (member name fs)
  property name _ = ok none

  unfoldable pub info_of : Json Num → Result ServerInfo
  info_of info = do
    pem ← property (codes "pem") info
    key_id ← property (codes "keyId") info
    ok (record { pem = pem; key_id = key_id })

  abbrev pub text_json : Option Text → Option (Json Num)
  text_json none = none
  text_json (some t) = some (str t)

  -- From GET /public-key; `none` if fetch throws.
  unfoldable pub fetched_key : Option (Fetched Num) → Result ServerInfo
  fetched_key reply = do
    res ← or_throw reply
    guard (leb 200 res.status && leb res.status 299) (crash "GET /public-key")
    info ← or_throw res.json
    info_of info

  unfoldable pub key_from_file : NodeTools → Text → Option Text → Result ServerInfo
  key_from_file tools path key_id = do
    pem ← or_throw (tools.read_file path)
    ok (record { pem = some (str pem); key_id = text_json key_id })

  unfoldable pub get_server_key : NodeTools → Config → Option (Fetched Num) → Result ServerInfo
  get_server_key tools env reply =
      if is_true (env "SERVER_PUBLIC_KEY_PATH")
      then key_from_file tools (value_or (env "SERVER_PUBLIC_KEY_PATH") []) (env "KEY_ID")
      else fetched_key reply

  abbrev pub header_of : Option Text → Json Num
  header_of token =
      if is_true token
      then arr (
          cons
            (obj (
              field (codes "Key") (str (codes "Authorization"))
                (field (codes "Value") (str (codes "Bearer " ++ value_or token [])) end)))
            nil)
      else arr nil

  unfoldable pub payload_of : Config → Json Num → Json Num
  payload_of env body = obj (
      field (codes "Method") (str (value_or (env "METHOD") (codes "POST"))) (
        field (codes "AccessPoint")
          (str (value_or (env "ACCESS_POINT") (codes "http://localhost:4000/api/getprofile")))
          (field (codes "Header") (header_of (env "AUTH_TOKEN")) (field (codes "Body") body end))))

  -- The constant BODY.
  unfoldable pub body_of : Config → Result (Json Num)
  body_of env = or_throw (parse (value_or (env "BODY") (codes "{\"userId\":456}")))

  -- The body of the POST; a KeyId that is undefined is left out.
  pub record NodeRequest : Type 0 where
    pub key_id : Option (Json Num)
    pub encrypted_key : Text
    pub iv : Text
    pub payload : Text

  unfoldable pub sealed_payload : Json Num → Bytes → Bytes → Bytes
  sealed_payload payload aes_key iv =
      let (cipher_text, tag) = gcm_encrypt (utf8 (stringify payload)) aes_key iv in
      cipher_text ++ tag

  unfoldable pub seal_request :
      NodeTools → ServerInfo → Json Num → Bytes → Bytes → Result NodeRequest
  seal_request tools server payload aes_key iv = do
    encrypted_key ← or_throw (tools.public_encrypt server.pem aes_key)
    ok (record {
      key_id = server.key_id;
      encrypted_key = to_base64 encrypted_key;
      iv = to_base64 iv;
      payload = to_base64 (sealed_payload payload aes_key iv);
    })

  -- Buffer.from(value, 'base64')
  unfoldable pub base64_bytes : Option (Json Num) → Result Bytes
  base64_bytes (some (str t)) = ok (from_base64 t)
  base64_bytes v = or_throw (buffer_of v)

  -- Where data.subarray(data.length - 16) begins: a negative index counts from the end.
  abbrev pub tag_start : ℕ → ℕ
  tag_start n = if leb 16 n then n - 16 else n + n - 16

  -- The decipher, and JSON.parse of what it gives.
  unfoldable pub open_data : Bytes → Bytes → Bytes → Result (Json Num)
  open_data aes_key iv sealed = do
    plain ← or_throw (
        gcm_decrypt (take (tag_start (length sealed)) sealed)
          (drop (tag_start (length sealed)) sealed) aes_key iv)
    or_throw (parse (utf8_text plain))

  unfoldable pub open_body : Bytes → Json Num → Result (Json Num)
  open_body aes_key body = do
    payload ← property (codes "Payload") body
    sealed ← base64_bytes payload
    iv ← property (codes "IV") body
    iv_bytes ← base64_bytes iv
    open_data aes_key iv_bytes sealed

  -- What is read of a result, and printed.
  pub record Shown : Type 0 where
    pub status_code : Option (Json Num)
    pub headers : Option (Json Num)
    pub content : Option (Json Num)

  unfoldable pub shown_of : Json Num → Result Shown
  shown_of result = do
    status_code ← property (codes "StatusCode") result
    headers ← property (codes "Headers") result
    content ← property (codes "Data") result
    ok (record { status_code = status_code; headers = headers; content = content })

  -- By the marker Encrypted: false, true or undefined, anything else.
  unfoldable pub result_of : Config → Bytes → Json Num → Option (Json Num) → Result (Json Num)
  result_of env aes_key body (some (bool false)) =
      if requires_encryption (env "REQUIRE_ENCRYPTED_RESPONSE")
      then err (crash "Encrypted response required")
      else ok body
  result_of env aes_key body (some (bool true)) = open_body aes_key body
  result_of env aes_key body none = open_body aes_key body
  result_of env aes_key body (some _) = err (crash "Invalid response mode")

  -- What the script does with what the POST gives, where its fetch does not throw. A reply with
  -- another status than 200 ends the script with status 1 and shows nothing.
  unfoldable pub receive : Config → Bytes → Fetched Num → Result (Option Shown)
  receive env aes_key res = do
    body ← or_throw res.json
    if not (res.status == 200) then ok none else do
      marker ← property (codes "Encrypted") body
      result ← result_of env aes_key body marker
      shown ← shown_of result
      ok (some shown)

  -- The whole script, up to the POST.
  unfoldable pub prepare :
      NodeTools → Config → Option (Fetched Num) → Bytes → Bytes → Result NodeRequest
  prepare tools env reply aes_key iv = do
    body ← body_of env
    server ← get_server_key tools env reply
    seal_request tools server (payload_of env body) aes_key iv
