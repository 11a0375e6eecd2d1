-- ===== src/Tests/Guards.antt =====
-- The device guard and the replay protection.
use encryption_gateway.Prelude.{
  ℕ, Text, codes, text_eq, [], ◌∷◌, none, some, true, ◌≡◌, ◌≢◌, refl, arith, ok, ◌-◌, ◌*◌, ◌<◌, ◌⊎◌,
  ◌↔◌, ap, ltb, ◌+◌, err, http,
}
use encryption_gateway.OrderedMap
use encryption_gateway.Runtime.{num, str, member}
use encryption_gateway.Kv.Memory.{MemoryKvStore, get, lookup, lookup_entry, get_delete}
use encryption_gateway.Kv.Memory.AsPort.{memory_port}
use encryption_gateway.Attestation.Challenges
use encryption_gateway.Attestation.Challenges.{
  consume, issue, read_challenge, check_purpose, equals, buffer_from,
}
use encryption_gateway.Attestation.Devices
use encryption_gateway.Attestation.Devices.{EnrolledDevice, read_device, decode}
use encryption_gateway.Attestation.Chain.{verify_signature}
use encryption_gateway.Attestation.DeviceGuard.{
  DeviceContext, DeviceHeaders, required, check, check_nonce, check_enrolled, can_activate,
}
use encryption_gateway.Attestation.DeviceGuard.Verified.{IsSigned, check-IsSigned}
use encryption_gateway.Attestation.DeviceGuard.Admitted.{verified, can_activate-issue}
use encryption_gateway.Payload.{DecryptedPayload}
use encryption_gateway.Replay
use encryption_gateway.Replay.{
  ReplayProtection, valid, is_nonce, check_fresh, check_timestamp, use_nonce, is_replayed, sweep,
  remember, check_nonce as check_nonce_of, parse_timestamp, assert_fresh,
}
use encryption_gateway.Replay.Bounds.{assert_fresh-IsValid}
use encryption_gateway.Replay.Fresh.{verdict, assert_fresh_lem}
use encryption_gateway.Replay.Window.{assert_fresh_once}
use encryption_gateway.Replay.Window.Held.{after_all}
use encryption_gateway.Replay.Ahead.{accepted_twice}
use encryption_gateway.Replay.Skew.{IsMath, instant, seconds_threshold, assert_fresh_window}
use encryption_gateway.Tests.Toys.{same, toy_runtime, toy_crypto, toy_policy, toy_times}

-- The challenge `c` for `gateway`, with the nonce 7, and a device with the key 6.
abbrev a_store : MemoryKvStore
a_store = record {
  entries =
      (
        Challenges.key (codes "c"),
        record { value = 1 ∷ 7 ∷ codes "gateway"; expires_at = some 60000 },
      )
      ∷ (Devices.key (codes "u"), record { value = 2 ∷ 6 ∷ 1 ∷ 9 ∷ []; expires_at = none })
      ∷ [];
  max_entries = 5;
}

abbrev signed_headers : DeviceHeaders
signed_headers = record {
  x_device_id = some (codes "u");
  x_device_challenge_id = some (codes "c");
  x_device_signature = some (6 ∷ 7 ∷ []);
}

abbrev a_device : DeviceContext
a_device = record { is_verified = true; device_id = some (codes "u"); reason = none }

checked :
    (check toy_runtime toy_crypto memory_port same toy_policy 20 21 signed_headers
      (codes "gateway")
      a_store).0
    ≡ ok a_device
unfolding check check_nonce check_enrolled verify_signature consume Challenges.key Devices.get
    Devices.key get get_delete lookup lookup_entry OrderedMap.get OrderedMap.delete text_eq
    read_challenge check_purpose equals buffer_from read_device decode member
checked = refl

check-IsSigned_example :
    (d : Text) × (some (codes "u") ≡ some d)
    × IsSigned toy_runtime toy_crypto memory_port same toy_policy 20 21 signed_headers
        (codes "gateway")
        a_store
        d
check-IsSigned_example =
    check-IsSigned toy_runtime toy_crypto memory_port same toy_policy 20 21 signed_headers
      (codes "gateway") a_store a_device checked refl

-- A window of 300 s, and no nonce yet.
abbrev a_cache : ReplayProtection
a_cache = record { is_required = true; max_skew_ms = 300000; max_entries = 10; seen = [] }

abbrev a_nonce : Text
a_nonce = codes "0123456789abcdef"

abbrev another_nonce : Text
another_nonce = codes "fedcba9876543210"

-- A payload with a nonce and a timestamp.
abbrev dated : Text → ℕ → DecryptedPayload ℕ
dated nonce at = record {
  access_point = codes "https://api.example.com/";
  method = none;
  header = none;
  body = none;
  parameter = none;
  nonce = some (str nonce);
  timestamp = some (num at);
}

a_nonce-is_valid : check_nonce_of {N = ℕ} (some (str a_nonce)) ≡ valid a_nonce
unfolding check_nonce_of is_nonce
a_nonce-is_valid = refl

accepted : (assert_fresh toy_times (dated a_nonce 2000000000000) 2000000000000 a_cache).0 ≡ ok tt
unfolding assert_fresh check_fresh check_timestamp use_nonce is_replayed sweep remember
    parse_timestamp check_nonce_of is_nonce OrderedMap.get
accepted = refl

assert_fresh_once_example :
    (assert_fresh toy_times (dated a_nonce 2000000000000) 2000000299999 (
      after_all toy_times a_nonce 2000000300000
        ((dated another_nonce 2000000000000, 2000000000100) ∷ [])
        (assert_fresh toy_times (dated a_nonce 2000000000000) 2000000000000 a_cache).1)).0
    ≢ ok tt
unfolding OrderedMap.get
assert_fresh_once_example =
    assert_fresh_once toy_times a_nonce (dated a_nonce 2000000000000) (dated a_nonce 2000000000000)
      2000000000000 2000000299999 300000 10
      ((dated another_nonce 2000000000000, 2000000000100) ∷ []) a_cache
      (record { required = refl; skew_is = refl; max_is = refl }) tt refl a_nonce-is_valid
      a_nonce-is_valid accepted (ground arith, tt) (ground arith) (ground arith)

assert_fresh_lem_example :
    (assert_fresh toy_times (dated a_nonce 2000000000000) 2000000000000 a_cache).0
    ≡ verdict toy_times
        (check_nonce_of {N = ℕ} (some (str a_nonce)))
        (parse_timestamp toy_times (some (num 2000000000000)))
        2000000000000
        a_cache
assert_fresh_lem_example =
    assert_fresh_lem toy_times (dated a_nonce 2000000000000) 2000000000000 a_cache tt

assert_fresh-IsValid_example :
    Replay.IsValid (assert_fresh toy_times (dated a_nonce 2000000000000) 2000000000000 a_cache).1
assert_fresh-IsValid_example =
    assert_fresh-IsValid toy_times (dated a_nonce 2000000000000) 2000000000000 a_cache
      (record { distinct = tt; bounded = ground arith })

-- Every natural number stands for itself, and a difference without its sign.
abbrev toy_math : IsMath toy_times
toy_math = record {
  Is = λ n a. n ≡ a;
  IsDifference = λ n a b. n ≡ (a - b) + (b - a);
  finite = λ n a is. refl;
  seconds = λ n a is. ap (λ k. ltb k seconds_threshold) is;
  times = λ n a is small. ap (λ k. k * 1000) is;
  minus = λ n a now safe is. ap (λ k. (now - k) + (k - now)) is;
  abs = λ n a b is. is;
  exceeds = λ n a k is. ap (ltb k) is;
}

-- A timestamp of 2000000000 seconds, 300001 ms after which it is no longer in the window.
assert_fresh_window_example :
    (assert_fresh toy_times (dated a_nonce 2000000000) 2000000300001 a_cache
      ≡ (err (http 400 "REQUEST_EXPIRED"), a_cache))
    ↔ ((instant 2000000000 + 300000 < 2000000300001)
        ⊎ (2000000300001 + 300000 < instant 2000000000))
assert_fresh_window_example =
    assert_fresh_window toy_times toy_math (dated a_nonce 2000000000) a_nonce 2000000000 2000000000
      2000000300001 a_cache refl a_nonce-is_valid refl refl (ground arith)

-- The timestamp is a whole window ahead of the clock.
accepted_twice_example :
    ((assert_fresh toy_times (dated a_nonce 2000000300000) 2000000000000 a_cache).0 ≡ ok tt)
    × ((assert_fresh toy_times
          (dated a_nonce 2000000300000)
          2000000300000
          (assert_fresh toy_times (dated a_nonce 2000000300000) 2000000000000 a_cache).1).0
        ≡ ok tt)
unfolding OrderedMap.get parse_timestamp
accepted_twice_example =
    accepted_twice toy_times a_nonce (dated a_nonce 2000000300000) 2000000300000 2000000000000
      300000 10 a_cache (record { required = refl; skew_is = refl; max_is = refl }) (ground arith)
      tt refl a_nonce-is_valid refl refl refl

abbrev the_device : EnrolledDevice toy_runtime toy_crypto
the_device = record { public_key = 6; security_level = some (num 1); enrolled_at = 9 }

-- The device of the store gets the challenge `e`.
can_activate-issue_example :
    (can_activate toy_runtime toy_crypto memory_port same toy_policy 30 31 required
      (record {
        x_device_id = some (codes "u");
        x_device_challenge_id = some (codes "e");
        x_device_signature = some (6 ∷ 8 ∷ []);
      })
      (codes "gateway")
      (issue toy_runtime memory_port 25 (codes "e") (8 ∷ []) (codes "gateway") a_store).1).0
    ≡ ok (verified (codes "u"))
unfolding Devices.get get lookup lookup_entry OrderedMap.get OrderedMap.has OrderedMap.delete
    Challenges.key Devices.key read_device decode member text_eq verify_signature
can_activate-issue_example =
    can_activate-issue toy_runtime toy_crypto same toy_policy required 25 30 31 (codes "e") (8 ∷ [])
      (codes "gateway") (codes "u") (6 ∷ 8 ∷ []) the_device a_store (refl, (refl, tt))
      (record { json = refl; some_text = ground arith; base64 = refl }) (ground arith)
      (ground arith) (ground arith) (ground arith) (ground arith) (ground arith) refl refl
