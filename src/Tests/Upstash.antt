-- ===== src/Tests/Upstash.antt =====
-- A challenge over a service that keeps values in a map, without lifetimes.
use encryption_gateway.Prelude.{
  ℕ, Text, codes, text_eq, text_eq_iff, List, [], ◌∷◌, ◌++◌, Option, some, Bool, true, false,
  if◌then◌else◌, ◌&&◌, not, ◌==◌, ◌≡◌, ◌≢◌, refl, arith, ok,
}
use encryption_gateway.OrderedMap
use encryption_gateway.OrderedMap.{OrderedMap}
use encryption_gateway.OrderedMap.Laws.{get-set, get-delete, has-set, has-delete}
use encryption_gateway.Config.{includes}
use encryption_gateway.Runtime.{Json, null, num, str, obj, end, field, member}
use encryption_gateway.Kv.Upstash.{
  Answer, body, status, Service, read_answer, read_body, command, get_delete, upstash_port,
}
use encryption_gateway.Kv.Upstash.SingleUse.{json_of, IsRedis, upstash-consume_once}
use encryption_gateway.Kv.Upstash.Durable.{IsDurable, nx}
use encryption_gateway.Attestation.Challenges.{
  consume, read_challenge, check_purpose, equals, buffer_from, key,
}
use encryption_gateway.Attestation.Challenges.SingleUse.{Call, issuing, consuming, after_all}
use encryption_gateway.Tests.Toys.{toy_runtime, toy_crypto}

abbrev answer_with : Json ℕ → Answer ℕ
answer_with v = body (obj (field (codes "result") v end))

abbrev set_value : Text → List Text → OrderedMap Text → Answer ℕ × OrderedMap Text
set_value k [] s = (status 400, s)
set_value k (v ∷ options) s =
    if includes options (codes "NX") && OrderedMap.has k s
    then (answer_with null, s)
    else (answer_with (str (codes "OK")), OrderedMap.set k v s)

abbrev toy_respond : ℕ → List Text → OrderedMap Text → Answer ℕ × OrderedMap Text
toy_respond now (name ∷ k ∷ rest) s =
    if text_eq name (codes "GET")
    then (answer_with (json_of (OrderedMap.get k s)), s)
    else if text_eq name (codes "GETDEL")
    then (answer_with (json_of (OrderedMap.get k s)), OrderedMap.delete k s)
    else if text_eq name (codes "DEL")
    then (answer_with (num (if OrderedMap.has k s then 1 else 0)), OrderedMap.delete k s)
    else set_value k rest s
toy_respond now _ s = (status 400, s)

abbrev toy_positive : Option (Json ℕ) → Bool
toy_positive (some (num n)) = not (n == 0)
toy_positive _ = false

abbrev pub toy_service : Service ℕ
toy_service = record {
  State = OrderedMap Text;
  respond = toy_respond;
  is_true_number = λ n. true;
  is_positive = toy_positive;
}

pub toy_service-IsRedis : IsRedis toy_service
unfolding read_answer read_body member text_eq
toy_service-IsRedis = record {
  contents = λ now s k. OrderedMap.get k s;
  get_reply = λ now k s v h. ground (arith, h);
  getdel_reply = λ now k s v h. ground (arith, h);
  getdel_removes = λ now t k s v h. ground (arith, get-delete k k s, text_eq_iff k k);
  get_keeps = λ now t k j s h. h;
  getdel_keeps = λ now t k j s h. ground (arith, h, get-delete k j s);
  del_keeps = λ now t k j s h. ground (arith, h, get-delete k j s);
  set_keeps = λ now t k j v options s ne h. ground (arith, h, ne, get-set k j v s, text_eq_iff k j);
}

includes-nx : (options : List Text) → includes (options ++ nx) (codes "NX") ≡ true
unfolding text_eq
includes-nx [] = refl
includes-nx (o ∷ options) = ground (arith, includes-nx options)

-- Without lifetimes, a key keeps its value until it is deleted.
pub toy_service-IsDurable : IsDurable toy_service toy_service-IsRedis
unfolding read_answer read_body member text_eq OrderedMap.has
toy_service-IsDurable = record {
  HasValue = λ k s. OrderedMap.has k s ≡ true;
  nx_stores = λ now k v s h. ground (arith, h, has-set k k v s, text_eq_iff k k);
  nx_refuses = λ now k v options s r h e. ground (arith, h, e, includes-nx options);
  nx_stays = λ now k j v options s h. ground (arith, h, has-set k j v s);
  get_stays = λ now k j s h. h;
  set_stays = λ now k j v options s ne h. ground (arith, h, has-set k j v s);
  getdel_stays = λ now k j s ne h. ground (arith, h, ne, has-delete k j s, text_eq_iff k j);
}

-- The challenge `c` with the nonce 7, issued for enrolment.
abbrev pub one_challenge : OrderedMap Text
one_challenge = (key (codes "c"), 1 ∷ 7 ∷ codes "enroll") ∷ []

-- It is consumed, another challenge is issued, and it is asked for again.
abbrev more_calls : List (Call toy_runtime toy_crypto (upstash_port toy_service))
more_calls =
    issuing 30 (codes "d") (8 ∷ []) (codes "enroll") ∷ consuming 31 (codes "d") (codes "x") ∷ []

first_consume :
    (consume toy_runtime (upstash_port toy_service) 20 (codes "c") (codes "enroll") one_challenge).0
    ≡ ok (some (7 ∷ []))
unfolding consume get_delete command read_answer read_body member text_eq key read_challenge
    check_purpose equals buffer_from OrderedMap.get
first_consume = refl

upstash-consume_once_example :
    (consume toy_runtime (upstash_port toy_service) 40 (codes "c") (codes "enroll") (
      after_all toy_runtime toy_crypto
        (upstash_port toy_service)
        more_calls
        (consume toy_runtime
          (upstash_port toy_service)
          20
          (codes "c")
          (codes "enroll")
          one_challenge).1)).0
    ≢ ok (some (7 ∷ []))
upstash-consume_once_example =
    upstash-consume_once toy_service toy_service-IsRedis toy_runtime toy_crypto 20 40 (codes "c")
      (codes "enroll") (codes "enroll") one_challenge (some (7 ∷ [])) more_calls (7 ∷ [])
      first_consume (ground arith, (tt, tt))
