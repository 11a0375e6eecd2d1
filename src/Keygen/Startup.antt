-- ===== src/Keygen/Startup.antt =====
-- The gateway started with what the script prints.
use encryption_gateway.Prelude.{
  ℕ, ◌≤◌, Text, codes, List, [], ◌∷◌, All, map, Option, none, some, Bool, true, ok, ◌≡◌, refl,
  arith, ap, sym, subst,
}
use encryption_gateway.Exec.{>>=-eq-ok}
use encryption_gateway.OrderedMap.{OrderedMap}
use encryption_gateway.JsText.{join}
use encryption_gateway.JsText.Entries.{
  IsEntry, join-IsClear, trim-IsClear, includes_text-IsClear, split_on-entries, filter-entries,
  join_nonempty,
}
use encryption_gateway.Runtime.{Runtime, Bytes}
use encryption_gateway.Config.{Config}
use encryption_gateway.Encryption.{Cipher, ServerKey}
use encryption_gateway.Encryption.Keys.{
  KeyTools, Files, key_id_of, inline_pems, load_pems, check_key, check_keys, some_keys,
  load_private_keys, auto_generate_keys, describe_key, start, min_key_bits,
}
use encryption_gateway.Keygen.{
  Shell, Report, report_of, make_directory, write_file, write_keys, write_unless, write_of_size,
  keygen, size_of, parse_int, opt,
}

-- What the documentation of Node.js says of Base64 and UTF-8, on the texts of keys, and of a fresh
-- key.
pub record IsNode (R : Runtime) (C : Cipher) (K : KeyTools C) (shell : Shell C) : Type 0 where
  pub from_base64-to_base64 :
      (k : C.PrivateKey)
      → R.from_base64 (R.to_base64 (R.utf8 (shell.pkcs8_pem k))) ≡ R.utf8 (shell.pkcs8_pem k)
  pub utf8_text-utf8 :
      (k : C.PrivateKey) → C.utf8_text (R.utf8 (shell.pkcs8_pem k)) ≡ shell.pkcs8_pem k
  pub create-pkcs8_pem : (k : C.PrivateKey) → K.create_private_key (shell.pkcs8_pem k) ≡ some k
  pub rsa : (entropy : Bytes) (bits : ℕ) → K.is_rsa (shell.generate entropy bits) ≡ true
  pub modulus :
      (entropy : Bytes) (bits : ℕ) → K.modulus_length (shell.generate entropy bits) ≡ some bits
  -- letters, digits, plus, slash and equals signs
  pub base64_pem : (k : C.PrivateKey) → IsEntry (R.to_base64 (R.utf8 (shell.pkcs8_pem k)))

module _ (R : Runtime) (C : Cipher) (K : KeyTools C) (shell : Shell C) where
  open shell use {generate, pkcs8_pem}

  -- A run of the script: the random bytes that it drew, and what it printed.
  abbrev pub Run : Type 0
  Run = Bytes × Report

  abbrev pub IsPrinted : Run → Type 0
  IsPrinted (entropy, r) =
      (args : List Text) × (files : OrderedMap Text) × ((keygen R C K shell entropy args files).0
        ≡ ok r)

  abbrev pub key_of : Run → C.PrivateKey
  key_of (entropy, r) = generate entropy r.bits

  -- What a report says of its key.
  pub record IsReport (entropy : Bytes) (r : Report) : Type 0 where
    pub size : min_key_bits ≤ r.bits
    pub encoded : r.rsa_private_key ≡ R.to_base64 (R.utf8 (pkcs8_pem (generate entropy r.bits)))
    pub id_is : r.key_id ≡ (describe_key R C K (generate entropy r.bits)).key_id

  report_of-IsReport :
      (entropy : Bytes) (bits : ℕ) (p q : Text)
      → min_key_bits ≤ bits
      → IsReport entropy (report_of R C K shell bits (generate entropy bits) p q)
  unfolding report_of describe_key key_id_of
  report_of-IsReport entropy bits p q large = record { size = large; encoded = refl; id_is = refl }

  size_of-large : (size : Option ℕ) (bits : ℕ) → size_of size ≡ some bits → min_key_bits ≤ bits
  unfolding size_of
  size_of-large none bits h = ground (arith, h)
  size_of-large (some n) bits h = ground (arith, h)

  write_keys-IsReport :
      (entropy : Bytes) (bits : ℕ) (directory : Text) (files : OrderedMap Text) (r : Report)
      → min_key_bits ≤ bits
      → (write_keys R C K shell entropy bits directory files).0 ≡ ok r
      → IsReport entropy r
  unfolding write_keys
  write_keys-IsReport entropy bits directory files r large h =
      let (_, made, h1) = >>=-eq-ok (make_directory R C K shell directory) _ files h in
      let (_, first, h2) = >>=-eq-ok (write_file R C K shell _ _) _ _ h1 in
      let (_, second, last) = >>=-eq-ok (write_file R C K shell _ _) _ _ h2 in
      let same : report_of R C K shell bits (generate entropy bits)
            (shell.join directory (codes "private.pem")) (shell.join directory (codes "public.pem"))
          ≡ r =
        ground (arith, last) in
      subst (IsReport entropy) same (report_of-IsReport entropy bits _ _ large)

  write_unless-IsReport :
      (entropy : Bytes) (force : Bool) (bits : ℕ) (directory : Text) (files : OrderedMap Text)
      (r : Report)
      → min_key_bits ≤ bits
      → (write_unless R C K shell entropy force bits directory files).0 ≡ ok r
      → IsReport entropy r
  unfolding write_unless
  write_unless-IsReport entropy force bits directory files r large h =
      write_keys-IsReport entropy bits directory files r large (ground (arith, h))

  size-IsReport :
      (entropy : Bytes) (asked size : Option ℕ) (force : Bool) (directory : Text)
      (files : OrderedMap Text) (r : Report)
      → size_of asked ≡ size
      → (write_of_size R C K shell entropy size force directory files).0 ≡ ok r
      → IsReport entropy r
  size-IsReport entropy asked none force directory files r e h = ground (arith, h)
  size-IsReport entropy asked (some bits) force directory files r e h =
      write_unless-IsReport entropy force bits directory files r (size_of-large asked bits e) h

  keygen-IsReport : (run : Run) → IsPrinted run → IsReport run.0 run.1
  unfolding keygen
  keygen-IsReport (entropy, r) (args, files, h) =
      size-IsReport entropy (parse_int (opt args (codes "bits") (codes "2048"))) _ _ _ files r refl
        h

  module _ (node : IsNode R C K shell) where
    abbrev keys_of : List Run → List C.PrivateKey
    keys_of runs = map key_of runs

    -- The lines of the variable RSA_PRIVATE_KEY.
    abbrev lines_of : List Run → List Text
    lines_of runs = map (λ q. q.1.rsa_private_key) runs

    abbrev AllReports : List Run → Type 0
    AllReports runs = All (λ q. IsReport q.0 q.1) runs

    report-IsEntry : (run : Run) → IsReport run.0 run.1 → IsEntry run.1.rsa_private_key
    report-IsEntry run is = subst IsEntry (sym is.encoded) (node.base64_pem (key_of run))

    lines-IsEntry : (rs : List Run) → AllReports rs → All IsEntry (lines_of rs)
    lines-IsEntry [] is = tt
    lines-IsEntry (r ∷ rs) (i, is) = (report-IsEntry r i, lines-IsEntry rs is)

    decode_lines :
        (rs : List Run)
        → AllReports rs
        → map (λ v. C.utf8_text (R.from_base64 v)) (lines_of rs) ≡ map pkcs8_pem (keys_of rs)
    decode_lines [] is = refl
    decode_lines (r ∷ rs) (i, is) =
        let one : C.utf8_text (R.from_base64 r.1.rsa_private_key) ≡ pkcs8_pem (key_of r) =
          rw (i.encoded, node.from_base64-to_base64 (key_of r)) (node.utf8_text-utf8 (key_of r)) in
        rw (one, decode_lines rs is) refl

    check_keys-generated :
        (rs : List Run)
        → AllReports rs
        → check_keys R C K (map pkcs8_pem (keys_of rs)) ≡ ok (keys_of rs)
    unfolding check_keys check_key
    check_keys-generated [] is = refl
    check_keys-generated ((entropy, r) ∷ rs) (i, is) =
        let fresh = generate entropy r.bits in
        let one : check_key R C K (pkcs8_pem fresh) ≡ ok fresh = ground (
          arith,
          node.create-pkcs8_pem fresh,
          node.rsa entropy r.bits,
          node.modulus entropy r.bits,
          i.size,
        ) in
        ground (arith, one, check_keys-generated rs is)

    -- The value that `RSA_PRIVATE_KEY` is given, new keys first.
    abbrev pub value_of : List Run → Text
    value_of runs = join (codes ",") (lines_of runs)

    inline_pems-value_of :
        (r : Run) (rs : List Run)
        → AllReports (r ∷ rs)
        → inline_pems R C K (value_of (r ∷ rs)) ≡ map pkcs8_pem (keys_of (r ∷ rs))
    unfolding inline_pems
    inline_pems-value_of r rs is =
        let entries = lines-IsEntry (r ∷ rs) is in
        rw
          (
            includes_text-IsClear (value_of (r ∷ rs)) (codes "----BEGIN")
                (join-IsClear (lines_of (r ∷ rs)) entries),
            split_on-entries r.1.rsa_private_key (lines_of rs) entries,
            filter-entries (lines_of (r ∷ rs)) entries,
          )
          (decode_lines (r ∷ rs) is)

    load_pems-value_of :
        (auto : Bool) (config : Config) (log : Files) (r : Run) (rs : List Run)
        → AllReports (r ∷ rs)
        → config "RSA_PRIVATE_KEY" ≡ some (value_of (r ∷ rs))
        → load_pems R C K auto config log ≡ (ok (map pkcs8_pem (keys_of (r ∷ rs))), log)
    unfolding load_pems
    load_pems-value_of auto config log r rs is set =
        let entries = lines-IsEntry (r ∷ rs) is in
        rw
          (
            set,
            trim-IsClear (value_of (r ∷ rs)) (join-IsClear (lines_of (r ∷ rs)) entries),
            join_nonempty r.1.rsa_private_key (lines_of rs) entries.0.0,
            inline_pems-value_of r rs is,
          )
          refl

    reported_ids :
        (rs : List Run)
        → AllReports rs
        → map (λ k. k.key_id) (map (describe_key R C K) (keys_of rs)) ≡ map (λ q. q.1.key_id) rs
    reported_ids [] is = refl
    reported_ids (r ∷ rs) (i, is) = rw (i.id_is, reported_ids rs is) refl

    described_keys :
        (ks : List C.PrivateKey) → map (λ k. k.private_key) (map (describe_key R C K) ks) ≡ ks
    unfolding describe_key
    described_keys [] = refl
    described_keys (k ∷ ks) = ap (λ js. k ∷ js) (described_keys ks)

    printed_reports : (rs : List Run) → All IsPrinted rs → AllReports rs
    printed_reports [] is = tt
    printed_reports (r ∷ rs) (i, is) = (keygen-IsReport r i, printed_reports rs is)

    -- The gateway that is started with what runs of the key generator printed for RSA_PRIVATE_KEY,
    -- with commas in between, has the keys that these runs made, in this order, under the ids that
    -- were printed, and writes no file, where AUTO_GENERATE_KEYS can be read. Each run draws random
    -- bytes of its own; on the text of a key, Base64 and UTF-8 give back what was encoded, and it is
    -- read as the key.
    pub start-keygen :
        (env config : Config) (log : Files) (r : Run) (rs : List Run) (auto : Bool)
        → All IsPrinted (r ∷ rs)
        → config "RSA_PRIVATE_KEY" ≡ some (value_of (r ∷ rs))
        → auto_generate_keys R C K env config ≡ ok auto
        → (keys : List (ServerKey R C)) × (start R C K env config log ≡ (ok keys, log))
          × (map (λ k. k.key_id) keys ≡ map (λ q. q.1.key_id) (r ∷ rs))
          × (map (λ k. k.private_key) keys ≡ keys_of (r ∷ rs))
    unfolding start load_private_keys some_keys describe_key
    start-keygen env config log r rs auto printed set read =
        let is = printed_reports (r ∷ rs) printed in
        let keys = map (describe_key R C K) (keys_of (r ∷ rs)) in
        (
          keys,
          rw
              (
                read,
                load_pems-value_of auto config log r rs is set,
                check_keys-generated (r ∷ rs) is,
              )
              refl,
          reported_ids (r ∷ rs) is,
          described_keys (keys_of (r ∷ rs)),
        )
