-- ===== src/Attestation/Devices/Codec.antt =====
-- DeviceRegistry: a device that was stored is read back.
use encryption_gateway.Prelude.{[], some, ◌≡◌, ◌≢◌, arith, text_eq}
use encryption_gateway.Runtime.{Runtime, str, member}
use encryption_gateway.Attestation.Crypto.{Crypto}
use encryption_gateway.Attestation.Devices.{EnrolledDevice, encode, read_device}

module _ (R : Runtime) (C : Crypto) where
  open R use {parse, stringify, to_base64, from_base64, date_of, iso}
  open C use {export_spki, create_public_key}

  -- JSON, Base64, key and date conversion give back what was written, at this device.
  pub record IsReadable (device : EnrolledDevice R C) : Type 0 where
    pub json : parse (stringify (encode R C device)) ≡ some (encode R C device)
    pub some_text : stringify (encode R C device) ≢ []
    pub base64 :
        from_base64 (to_base64 (export_spki device.public_key)) ≡ export_spki device.public_key
    pub spki : create_public_key (export_spki device.public_key) ≡ some device.public_key
    pub date : date_of (some (str (iso device.enrolled_at))) ≡ device.enrolled_at

  -- The registry reads back the device that was stored, with its key, level and date.
  pub read_device-encode :
      (device : EnrolledDevice R C)
      → IsReadable device
      → read_device R C (some (stringify (encode R C device))) ≡ some device
  unfolding read_device member text_eq
  read_device-encode device r = ground arith
