-- ===== src/Encryption/Keys/Strong.antt =====
-- The keys that the service starts with.
use encryption_gateway.Prelude.{
  ◌≤◌, Text, codes, text_eq, List, [], ◌∷◌, map, All, some, Bool, true, false, Result, ok, err, ◌≡◌,
  ◌≢◌, refl, arith, inl, subst, ◌∙◌,
}
use encryption_gateway.Exec.{pure, lift, >>=-eq-ok, state-continue}
use encryption_gateway.Runtime.{Runtime}
use encryption_gateway.Config.{Config, is_unset}
use encryption_gateway.Config.Checked.{strict_boolean_iff}
use encryption_gateway.Encryption.{Cipher, ServerKey}
use encryption_gateway.Encryption.Keys.{
  min_key_bits, KeyTools, Files, key_id_of, bits_of, or_else, auto_generate_keys, default_pems,
  load_pems, check_key, check_keys, some_keys, load_private_keys, describe_key, start,
}

module _ (R : Runtime) (C : Cipher) (K : KeyTools C) where
  open C use {PrivateKey}
  open K use {is_rsa, modulus_length, spki_der}

  -- An RSA key of 2048 bits at least.
  abbrev pub IsStrong : PrivateKey → Type 0
  IsStrong key = (is_rsa key ≡ true) × (min_key_bits ≤ bits_of R C K (modulus_length key))

  check_key-IsStrong : (pem : Text) (key : PrivateKey) → check_key R C K pem ≡ ok key → IsStrong key
  unfolding check_key
  check_key-IsStrong pem key h = ground arith

  -- The key of one text and those of the rest.
  both_ok :
      (r : Result PrivateKey) (rs : Result (List PrivateKey)) (keys : List PrivateKey)
      → (elim r [ err e ↦ err e | ok key ↦ elim rs [ err e ↦ err e | ok more ↦ ok (key ∷ more) ] ])
        ≡ ok keys
      → (key : PrivateKey) × (more : List PrivateKey) × (r ≡ ok key)
        × (rs ≡ ok more)
        × (key ∷ more ≡ keys)
  both_ok (err e) rs keys h = ground (arith, h)
  both_ok (ok key) (err e) keys h = ground (arith, h)
  both_ok (ok key) (ok more) keys h = (key, more, refl, refl, ground (arith, h))

  check_keys-IsStrong :
      (pems : List Text) (keys : List PrivateKey)
      → check_keys R C K pems ≡ ok keys
      → All IsStrong keys
  unfolding check_keys
  check_keys-IsStrong [] keys h =
      let same : [] ≡ keys = ground (arith, h) in subst (All IsStrong) same tt
  check_keys-IsStrong (pem ∷ pems) keys h =
      let (key, more, e, es, same) = both_ok (check_key R C K pem) (check_keys R C K pems) keys h in
      subst (All IsStrong) same (check_key-IsStrong pem key e, check_keys-IsStrong pems more es)

  some_keys-IsStrong :
      (pems : List Text) (keys : List PrivateKey)
      → some_keys R C K pems ≡ ok keys
      → (keys ≢ []) × All IsStrong keys
  unfolding some_keys check_keys
  some_keys-IsStrong [] keys h = ground (arith, h)
  some_keys-IsStrong (pem ∷ pems) keys h =
      let (key, more, e, es, same) = both_ok (check_key R C K pem) (check_keys R C K pems) keys h in
      (ground (arith, same), check_keys-IsStrong (pem ∷ pems) keys h)

  map_nonempty : (keys : List PrivateKey) → keys ≢ [] → map (describe_key R C K) keys ≢ []
  map_nonempty [] h = absurd (h refl)
  map_nonempty (k ∷ ks) h = ground arith

  -- A described key: its id is the one of its public key.
  pub record IsServerKey (k : ServerKey R C) : Type 0 where
    pub strong : IsStrong k.private_key
    pub id_is : k.key_id ≡ key_id_of R C K (spki_der k.private_key)

  map-IsServerKey :
      (keys : List PrivateKey) → All IsStrong keys → All IsServerKey (map (describe_key R C K) keys)
  unfolding describe_key
  map-IsServerKey [] h = tt
  map-IsServerKey (k ∷ ks) h = (record { strong = h.0; id_is = refl }, map-IsServerKey ks h.1)

  load-IsStrong :
      (auto : Bool) (config : Config) (files : Files) (keys : List PrivateKey)
      → (load_private_keys R C K auto config files).0 ≡ ok keys
      → (keys ≢ []) × All IsStrong keys
  unfolding load_private_keys
  load-IsStrong auto config files keys h =
      let (pems, loaded, checked) =
        >>=-eq-ok (load_pems R C K auto config) (λ pems. lift (some_keys R C K pems)) files h in
      some_keys-IsStrong pems keys checked

  -- Where the service starts, it has a key, and every key is an RSA key of 2048 bits at least under
  -- the id of its public key.
  pub start-IsServerKey :
      (env config : Config) (files : Files) (keys : List (ServerKey R C))
      → (start R C K env config files).0 ≡ ok keys
      → (keys ≢ []) × All IsServerKey keys
  unfolding start
  start-IsServerKey env config files keys h =
      let (auto, a, h1) = >>=-eq-ok (lift (auto_generate_keys R C K env config)) _ files h in
      let (privates, loaded, last) =
        >>=-eq-ok (load_private_keys R C K auto config) (λ ks. pure (map (describe_key R C K) ks))
          files h1 in
      let (some_key, strong) = load-IsStrong auto config files privates loaded in
      let same : map (describe_key R C K) privates ≡ keys = ground (arith, last) in
      (
        subst (λ ks. ks ≢ []) same (map_nonempty privates some_key),
        subst (All IsServerKey) same (map-IsServerKey privates strong),
      )

  auto_generate_keys-production :
      (env config : Config)
      → or_else (config "NODE_ENV") (env "NODE_ENV") ≡ some (codes "production")
      → is_unset (config "AUTO_GENERATE_KEYS") ≡ true
      → auto_generate_keys R C K env config ≡ ok false
  unfolding auto_generate_keys text_eq
  auto_generate_keys-production env config production unset =
      (strict_boolean_iff config "AUTO_GENERATE_KEYS" _ false).1 (inl (unset, rw production))

  load_pems-reads :
      (config : Config) (files : Files) → (load_pems R C K false config files).1 ≡ files
  unfolding load_pems default_pems
  load_pems-reads config files = ground arith

  load_private_keys-reads :
      (config : Config) (files : Files) → (load_private_keys R C K false config files).1 ≡ files
  unfolding load_private_keys
  load_private_keys-reads config files =
      state-continue _ (some_keys R C K) _ ∙ load_pems-reads config files

  -- In production no key is generated and no file is written, unless AUTO_GENERATE_KEYS is set.
  pub start-writes_nothing :
      (env config : Config) (files : Files)
      → or_else (config "NODE_ENV") (env "NODE_ENV") ≡ some (codes "production")
      → is_unset (config "AUTO_GENERATE_KEYS") ≡ true
      → (start R C K env config files).1 ≡ files
  unfolding start
  start-writes_nothing env config files production unset =
      rw (auto_generate_keys-production env config production unset) (
        state-continue _ (λ keys. ok (map (describe_key R C K) keys)) _
        ∙ load_private_keys-reads config files)
