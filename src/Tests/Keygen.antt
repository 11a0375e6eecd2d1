-- ===== src/Tests/Keygen.antt =====
-- Runs of the script that makes keys, and the gateway started with what they print.
use encryption_gateway.Prelude.{
  ℕ, zero, suc, ◌+◌, ◌-◌, ◌*◌, ◌/◌, ◌%◌, ap, ◌==◌, length, Text, codes, text_eq, List, [], ◌∷◌,
  ◌++◌, map, Option, none, some, true, false, if◌then◌else◌, ok, ◌≡◌, ◌≢◌, refl, arith,
}
use encryption_gateway.OrderedMap
use encryption_gateway.OrderedMap.{OrderedMap}
use encryption_gateway.JsText.{is_space, join, trim_start, parse_decimal_from}
use encryption_gateway.JsText.Entries.{IsPlain}
use encryption_gateway.Config.{Config, includes, is_unset, strict_boolean}
use encryption_gateway.Encryption.{ServerKey}
use encryption_gateway.Encryption.Keys.{KeyTools, start, auto_generate_keys}
use encryption_gateway.Keygen.{
  Shell, Report, report_of, make_directory, write_file, write_keys, write_unless, keygen, size_of,
  parse_int, leading_digits, opt, option_from,
}
use encryption_gateway.Keygen.Keeps.{keygen-keeps}
use encryption_gateway.Keygen.Startup.{IsNode, start-keygen}
use encryption_gateway.Tests.Toys.{toy_runtime}
use encryption_gateway.Tests.Gateway.{toy_cipher}

-- A key is twice its size, and 1 more for random bytes of an odd number; its text has one unit
-- more than that number.
abbrev pem_of : ℕ → Text
pem_of zero = 97 ∷ []
pem_of (suc k) = 97 ∷ pem_of k

abbrev key_of : Text → Option ℕ
key_of t = if length t == 0 then none else some (length t - 1)

abbrev the_tools : KeyTools toy_cipher
the_tools = record {
  create_private_key = key_of;
  is_rsa = λ k. true;
  modulus_length = λ k. some (k / 2);
  spki_der = λ k. k ∷ [];
  spki_pem = λ k. k ∷ [];
  pkcs1_der = λ k. k ∷ [];
  sha256_hex = λ b. b;
  exists = λ p. false;
  read_file = λ p. none;
  resolve = λ p. p;
  default_private = codes "private";
  default_public = codes "public";
  generated_private = [];
  generated_public = [];
}

abbrev the_shell : Shell toy_cipher
the_shell = record {
  generate = λ entropy bits. 2 * bits + length entropy % 2;
  pkcs8_pem = pem_of;
  resolve = λ p. p;
  join = λ p q. p ++ (b'/' ∷ q);
  relative = λ p. p;
  can_make = λ p. true;
  can_write = λ p. true;
}

length-pem_of : (k : ℕ) → length (pem_of k) ≡ k + 1
length-pem_of zero = refl
length-pem_of (suc k) = omega (arith, length-pem_of k)

key_of-pem_of : (k : ℕ) → key_of (pem_of k) ≡ some k
key_of-pem_of k = ground (arith, length-pem_of k)

pem_of-IsPlain : (k : ℕ) → IsPlain (pem_of k)
unfolding is_space
pem_of-IsPlain zero = ((record { no_space = refl; no_dash = refl }, refl), tt)
pem_of-IsPlain (suc k) = ((record { no_space = refl; no_dash = refl }, refl), pem_of-IsPlain k)

pem_of_nonempty : (k : ℕ) → pem_of k ≢ []
pem_of_nonempty zero = ground arith
pem_of_nonempty (suc k) = ground arith

half : (n bits : ℕ) → (2 * bits + n % 2) / 2 ≡ bits
half n bits = omega arith

the_shell-IsNode : IsNode toy_runtime toy_cipher the_tools the_shell
the_shell-IsNode = record {
  from_base64-to_base64 = λ k. refl;
  utf8_text-utf8 = λ k. refl;
  create-pkcs8_pem = key_of-pem_of;
  rsa = λ entropy bits. refl;
  modulus = λ entropy bits. ap some (half (length entropy) bits);
  base64_pem = λ k. (pem_of_nonempty k, pem_of-IsPlain k);
}

abbrev large_args : List Text
large_args = codes "--bits" ∷ codes "3072" ∷ codes "--out" ∷ codes "k" ∷ []

abbrev old_report : Report
old_report =
    report_of toy_runtime toy_cipher the_tools the_shell 2048 4096 (codes "keys/private.pem")
      (codes "keys/public.pem")

abbrev new_report : Report
new_report =
    report_of toy_runtime toy_cipher the_tools the_shell 3072 6145 (codes "k/private.pem")
      (codes "k/public.pem")

old_printed : (keygen toy_runtime toy_cipher the_tools the_shell [] [] []).0 ≡ ok old_report
unfolding keygen write_unless write_keys make_directory write_file size_of parse_int leading_digits
    opt option_from trim_start is_space parse_decimal_from text_eq OrderedMap.has OrderedMap.get
old_printed = refl

new_printed :
    (keygen toy_runtime toy_cipher the_tools the_shell (5 ∷ []) large_args []).0 ≡ ok new_report
unfolding keygen write_unless write_keys make_directory write_file size_of parse_int leading_digits
    opt option_from trim_start is_space parse_decimal_from text_eq OrderedMap.has OrderedMap.get
new_printed = refl

-- A file that is there, at a path of the script.
abbrev a_file : OrderedMap Text
a_file = (codes "keys/private.pem", codes "x") ∷ []

keygen-keeps_example :
    ((codes "keys/private.pem" ≢ codes "keys/private.pem")
      → (codes "keys/public.pem" ≢ codes "keys/private.pem")
      → OrderedMap.get
          (codes "keys/private.pem")
          (keygen toy_runtime toy_cipher the_tools the_shell [] [] a_file).1
        ≡ OrderedMap.get (codes "keys/private.pem") a_file)
    × ((v : Text)
        → includes [] (codes "--force") ≡ false
        → OrderedMap.get (codes "keys/private.pem") a_file ≡ some v
        → OrderedMap.get
            (codes "keys/private.pem")
            (keygen toy_runtime toy_cipher the_tools the_shell [] [] a_file).1
          ≡ some v)
unfolding opt option_from
keygen-keeps_example =
    keygen-keeps toy_runtime toy_cipher the_tools the_shell [] [] (codes "keys/private.pem") a_file

-- A rotation: the new key first.
abbrev rotated : Config
rotated name =
    if text_eq (codes name) (codes "RSA_PRIVATE_KEY")
    then some (new_report.rsa_private_key ++ (b',' ∷ old_report.rsa_private_key))
    else none

start-keygen_example :
    (keys : List (ServerKey toy_runtime toy_cipher)) × (start toy_runtime toy_cipher the_tools
        rotated rotated []
      ≡ (ok keys, []))
    × (map (λ k. k.key_id) keys ≡ (6145 ∷ []) ∷ (4096 ∷ []) ∷ [])
    × (map (λ k. k.private_key) keys ≡ 6145 ∷ 4096 ∷ [])
unfolding auto_generate_keys strict_boolean is_unset text_eq join report_of
start-keygen_example =
    start-keygen toy_runtime toy_cipher the_tools the_shell the_shell-IsNode rotated rotated []
      (5 ∷ [], new_report) (([], old_report) ∷ []) true
      ((large_args, [], new_printed), (([], [], old_printed), tt)) refl refl
