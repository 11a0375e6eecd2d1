-- ===== src/Payload/Accepted/Headers.antt =====
-- What parsePayload accepts as Header.
use encryption_gateway.Prelude.{
  ◌≤◌, Text, codes, List, [], ◌∷◌, length, All, Option, none, some, true, ◌||◌, if◌then◌else◌, ok,
  guard, ◌>>◌, ◌≡◌, ◌↔◌, arith,
}
use encryption_gateway.Runtime.{
  Json, null, bool, num, str, arr, obj, Fields, items, entries, member, Runtime, string_of,
}
use encryption_gateway.Payload.{
  invalid, is_header_scalar, validate_header_entry, validate_entries, validate_header_map,
  is_string_scalar, text_of, value_of, is_there, validate_header_item, validate_header_items,
  validate_header,
}

module _ (R : Runtime) where
  open R use {Num}

  abbrev pub IsScalar : Json Num → Type 0
  IsScalar (str t) = Unit
  IsScalar (num n) = Unit
  IsScalar (bool b) = Unit
  IsScalar _ = ⊥

  -- A header: a name of up to 256 characters and a scalar of up to 8192.
  abbrev pub IsHeader : Text × Json Num → Type 0
  IsHeader (name, item) = (length name ≤ 256) × IsScalar item × (length (string_of R item) ≤ 8192)

  abbrev pub IsHeaderMap : Fields Num → Type 0
  IsHeaderMap fs = (length (entries fs) ≤ 100) × All IsHeader (entries fs)

  -- A pair of a Key and a Value, where one of them is there, or else a map.
  abbrev pub IsPair : Option (Json Num) → Option (Json Num) → Fields Num → Type 0
  IsPair none none fs = IsHeaderMap fs
  IsPair (some (str name)) (some item) fs = IsHeader (name, item)
  IsPair _ _ fs = ⊥

  abbrev pub IsHeaderItem : Json Num → Type 0
  IsHeaderItem (obj fs) = IsPair (member (codes "Key") fs) (member (codes "Value") fs) fs
  IsHeaderItem _ = ⊥

  abbrev pub IsHeaders : Option (Json Num) → Type 0
  IsHeaders none = Unit
  IsHeaders (some null) = Unit
  IsHeaders (some (arr vs)) = (length (items vs) ≤ 100) × All IsHeaderItem (items vs)
  IsHeaders (some (obj fs)) = IsHeaderMap fs
  IsHeaders (some _) = ⊥

  pub IsScalar-iff : (v : Json Num) → (is_header_scalar v ≡ true) ↔ IsScalar v
  unfolding is_header_scalar
  IsScalar-iff null = ground arith
  IsScalar-iff (bool b) = ground arith
  IsScalar-iff (num n) = ground arith
  IsScalar-iff (str t) = ground arith
  IsScalar-iff (arr vs) = ground arith
  IsScalar-iff (obj fs) = ground arith

  IsHeader-iff :
      (name : Text) (item : Json Num)
      → (validate_header_entry R name item ≡ ok tt) ↔ IsHeader (name, item)
  unfolding validate_header_entry
  IsHeader-iff name item = ground (arith, IsScalar-iff item)

  entries_iff : (es : List (Text × Json Num)) → (validate_entries R es ≡ ok tt) ↔ All IsHeader es
  unfolding validate_entries
  entries_iff [] = ground arith
  entries_iff ((name, item) ∷ es) = ground (arith, IsHeader-iff name item, entries_iff es)

  map_iff : (fs : Fields Num) → (validate_header_map R fs ≡ ok tt) ↔ IsHeaderMap fs
  unfolding validate_header_map
  map_iff fs = ground (arith, entries_iff (entries fs))

  -- The check of an object, at whatever stands under Key and Value.
  IsPair-iff :
      (key value : Option (Json Num)) (fs : Fields Num)
      → ((if is_there R key || is_there R value
            then (guard
                  (is_string_scalar R key value)
                  (invalid "Header must have a string Key and scalar Value")
                >> validate_header_entry R (text_of R key) (value_of R value))
            else validate_header_map R fs)
          ≡ ok tt)
        ↔ IsPair key value fs
  IsPair-iff none none fs = map_iff fs
  IsPair-iff none (some v) fs = ground arith
  IsPair-iff (some (str name)) none fs = ground arith
  IsPair-iff (some (str name)) (some item) fs =
      ground (arith, IsHeader-iff name item, IsScalar-iff item)
  IsPair-iff (some null) v fs = ground arith
  IsPair-iff (some (bool b)) v fs = ground arith
  IsPair-iff (some (num n)) v fs = ground arith
  IsPair-iff (some (arr vs)) v fs = ground arith
  IsPair-iff (some (obj gs)) v fs = ground arith

  item_iff : (v : Json Num) → (validate_header_item R v ≡ ok tt) ↔ IsHeaderItem v
  unfolding validate_header_item
  item_iff null = ground arith
  item_iff (bool b) = ground arith
  item_iff (num n) = ground arith
  item_iff (str t) = ground arith
  item_iff (arr vs) = ground arith
  item_iff (obj fs) = IsPair-iff (member (codes "Key") fs) (member (codes "Value") fs) fs

  items_iff : (vs : List (Json Num)) → (validate_header_items R vs ≡ ok tt) ↔ All IsHeaderItem vs
  unfolding validate_header_items
  items_iff [] = ground arith
  items_iff (v ∷ vs) = ground (arith, item_iff v, items_iff vs)

  pub IsHeaders-iff : (h : Option (Json Num)) → (validate_header R h ≡ ok tt) ↔ IsHeaders h
  unfolding validate_header
  IsHeaders-iff none = ground arith
  IsHeaders-iff (some null) = ground arith
  IsHeaders-iff (some (bool b)) = ground arith
  IsHeaders-iff (some (num n)) = ground arith
  IsHeaders-iff (some (str t)) = ground arith
  IsHeaders-iff (some (arr vs)) = ground (arith, items_iff (items vs))
  IsHeaders-iff (some (obj fs)) = ground (arith, map_iff fs)
