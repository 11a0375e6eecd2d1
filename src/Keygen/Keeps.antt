-- ===== src/Keygen/Keeps.antt =====
-- What the script does to the files that are there.
use encryption_gateway.Prelude.{
  ℕ, Text, codes, text_eq_iff, List, Option, none, some, Bool, false, ◌≡◌, ◌≢◌, refl, arith,
  Bool-cases, inl, inr, ◌∙◌,
}
use encryption_gateway.OrderedMap
use encryption_gateway.OrderedMap.{OrderedMap}
use encryption_gateway.OrderedMap.Laws.{get-set}
use encryption_gateway.Config.{includes}
use encryption_gateway.Runtime.{Bytes, Runtime}
use encryption_gateway.Encryption.{Cipher}
use encryption_gateway.Encryption.Keys.{KeyTools}
use encryption_gateway.Keygen.{
  Shell, make_directory, write_file, write_keys, has_keys, write_unless, write_of_size, keygen,
  size_of, parse_int, opt,
}

module _ (R : Runtime) (C : Cipher) (K : KeyTools C) (shell : Shell C) where
  open shell use {join}

  write_keys-get :
      (entropy : Bytes) (bits : ℕ) (directory j : Text) (files : OrderedMap Text)
      → join directory (codes "private.pem") ≢ j
      → join directory (codes "public.pem") ≢ j
      → OrderedMap.get j (write_keys R C K shell entropy bits directory files).1
        ≡ OrderedMap.get j files
  unfolding write_keys make_directory write_file
  write_keys-get entropy bits directory j files n1 n2 =
      let key = shell.generate entropy bits in
      let first =
        OrderedMap.set (join directory (codes "private.pem")) (shell.pkcs8_pem key) files in
      ground (
        arith,
        get-set (join directory (codes "private.pem")) j (shell.pkcs8_pem key) files,
        get-set (join directory (codes "public.pem")) j (K.spki_pem key) first,
        text_eq_iff (join directory (codes "private.pem")) j,
        text_eq_iff (join directory (codes "public.pem")) j,
        n1,
        n2,
      )

  -- The directory that the arguments name.
  abbrev pub directory_of : List Text → Text
  directory_of args = shell.resolve (opt args (codes "out") (codes "keys"))

  write_unless-get :
      (entropy : Bytes) (force : Bool) (bits : ℕ) (directory j : Text) (files : OrderedMap Text)
      → join directory (codes "private.pem") ≢ j
      → join directory (codes "public.pem") ≢ j
      → OrderedMap.get j (write_unless R C K shell entropy force bits directory files).1
        ≡ OrderedMap.get j files
  unfolding write_unless
  write_unless-get entropy force bits directory j files n1 n2 =
      ground (arith, write_keys-get entropy bits directory j files n1 n2)

  absent_of :
      (p j v : Text) (files : OrderedMap Text)
      → OrderedMap.get j files ≡ some v
      → OrderedMap.has p files ≡ false
      → p ≢ j
  unfolding OrderedMap.has
  absent_of p j v files here gone e =
      let other : OrderedMap.get p files ≡ some v = rw e here in ground (arith, other, gone)

  write_unless-keeps :
      (entropy : Bytes) (bits : ℕ) (directory j v : Text) (files : OrderedMap Text)
      → OrderedMap.get j files ≡ some v
      → OrderedMap.get j (write_unless R C K shell entropy false bits directory files).1 ≡ some v
  write_unless-keeps entropy bits directory j v files here =
      elim (Bool-cases (has_keys R C K shell directory files)) [
        | inl there ↦ unfold write_unless in rw there here
        | inr gone ↦
            write_unless-get entropy false bits directory j files
              (absent_of (join directory (codes "private.pem")) j v files here
                (ground (arith, gone)))
              (absent_of (join directory (codes "public.pem")) j v files here
                (ground (arith, gone)))
            ∙ here
      ]

  -- Whatever the arguments and the random bytes are and whichever call fails, the key generator leaves every file but
  -- the two of its directory as it is, and without --force those that are there too.
  pub keygen-keeps :
      (entropy : Bytes) (args : List Text) (j : Text) (files : OrderedMap Text)
      → ((join (directory_of args) (codes "private.pem") ≢ j)
          → (join (directory_of args) (codes "public.pem") ≢ j)
          → OrderedMap.get j (keygen R C K shell entropy args files).1 ≡ OrderedMap.get j files)
        × ((v : Text)
            → includes args (codes "--force") ≡ false
            → OrderedMap.get j files ≡ some v
            → OrderedMap.get j (keygen R C K shell entropy args files).1 ≡ some v)
  unfolding keygen
  keygen-keeps entropy args j files = (
    λ n1 n2.
        size-get (size_of (parse_int (opt args (codes "bits") (codes "2048"))))
          (includes args (codes "--force")) (directory_of args) n1 n2,
    λ v unforced here. rw unforced (
        size-keeps (size_of (parse_int (opt args (codes "bits") (codes "2048"))))
          (directory_of args) v here),
  )
    where
      size-get :
          (size : Option ℕ) (force : Bool) (directory : Text)
          → join directory (codes "private.pem") ≢ j
          → join directory (codes "public.pem") ≢ j
          → OrderedMap.get j (write_of_size R C K shell entropy size force directory files).1
            ≡ OrderedMap.get j files
      size-get none force directory n1 n2 = refl
      size-get (some bits) force directory n1 n2 =
          write_unless-get entropy force bits directory j files n1 n2

      size-keeps :
          (size : Option ℕ) (directory v : Text)
          → OrderedMap.get j files ≡ some v
          → OrderedMap.get j (write_of_size R C K shell entropy size false directory files).1
            ≡ some v
      size-keeps none directory v here = here
      size-keeps (some bits) directory v here =
          write_unless-keeps entropy bits directory j v files here
