-- ===== src/Storage/Value.antt =====
-- `EyaValue` of include/common/types/value.h and `EValue` of include/storage/node.h. The type Z of
-- sorted sets, with its writer and reader, is a parameter.
pub mod RoundTrip
use eya_kv.Prelude.{
  ℕ, ◌<◌, Bool, true, false, ◌&&◌, ◌||◌, ◌==◌, ltb, if◌then◌else◌, none, List, [], ◌++◌,
}
use eya_kv.Codec.Words.{Bytes, Reader, ◌>>=◌, pure, put_u8, get_u8, put_net, get_net}
use eya_kv.Codec.Containers.{
  serialize_string, deserialize_string, serialize_deque, deserialize_deque, serialize_set,
  deserialize_set, serialize_map, deserialize_map,
}

-- the byte of a bool
unfoldable pub put_bool : Bool → Bytes
put_bool b = put_u8 (if b then 1 else 0)

module _ (Z : Type 0) where
  -- The alternatives in the order of the variant.
  pub data EyaValue : Type 0 where
    string : Bytes → EyaValue
    deque : List Bytes → EyaValue
    set : List Bytes → EyaValue
    hash : List (Bytes × Bytes) → EyaValue
    zset : Z → EyaValue

  pub record EValue : Type 0 where
    pub value : EyaValue
    pub deleted : Bool
    pub expire_time : ℕ

module _ {Z : Type 0} where
  -- EValue(value)
  unfoldable pub new_value : EyaValue Z → EValue Z
  new_value value = record { value = value; deleted = false; expire_time = 0 }

  -- `now` is the system clock in seconds.
  unfoldable pub is_expired : ℕ → EValue Z → Bool
  is_expired now v = ltb 0 v.expire_time && ltb v.expire_time now

  -- is_deleted() || is_expired()
  unfoldable pub is_dead : ℕ → EValue Z → Bool
  unfolding is_expired
  is_dead now v = v.deleted || is_expired now v

  unfoldable pub serialize_eya_value : (Z → Bytes) → EyaValue Z → Bytes
  serialize_eya_value write_zset (string s) = put_u8 0 ++ serialize_string s
  serialize_eya_value write_zset (deque l) = put_u8 1 ++ serialize_deque l
  serialize_eya_value write_zset (set l) = put_u8 2 ++ serialize_set l
  serialize_eya_value write_zset (hash m) = put_u8 3 ++ serialize_map m
  serialize_eya_value write_zset (zset z) = put_u8 4 ++ write_zset z

  -- the switch on the index; `none` is the exception of an invalid one
  unfoldable pub deserialize_alternative : Reader Z → ℕ → Reader (EyaValue Z)
  deserialize_alternative read_zset index =
      if index == 0
      then (deserialize_string >>= λ s. pure (string s))
      else if index == 1
      then (deserialize_deque >>= λ l. pure (deque l))
      else if index == 2
      then (deserialize_set >>= λ l. pure (set l))
      else if index == 3
      then (deserialize_map >>= λ m. pure (hash m))
      else if index == 4
      then (read_zset >>= λ z. pure (zset z))
      else λ xs. none

  unfoldable pub deserialize_eya_value : Reader Z → Reader (EyaValue Z)
  unfolding deserialize_alternative
  deserialize_eya_value read_zset = get_u8 >>= deserialize_alternative read_zset

  unfoldable pub serialize_value : (Z → Bytes) → EValue Z → Bytes
  unfolding put_bool serialize_eya_value
  serialize_value write_zset v =
      put_bool v.deleted ++ (put_net v.expire_time ++ serialize_eya_value write_zset v.value)

  unfoldable pub deserialize_value : Reader Z → Reader (EValue Z)
  unfolding deserialize_eya_value
  deserialize_value read_zset = get_u8 >>= λ deleted. get_net >>= λ expire_time.
      deserialize_eya_value read_zset >>= λ value.
      pure (record { value = value; deleted = ltb 0 deleted; expire_time = expire_time })
