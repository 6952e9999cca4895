-- ===== src/Storage/Value/RoundTrip.antt =====
-- include/storage/node.h: a value comes back from its bytes.
use eya_kv.Prelude.{
  Bool, if◌then◌else◌, ◌^◌, ◌<◌, ◌≡◌, refl, ap, ◌∙◌, true, false, ltb, some, [], ◌++◌, append_assoc,
  length, arith,
}
use eya_kv.Codec.Words.{
  Bytes, Reader, put_u8, get_u8, put_net, get_net, bind_some, get_u8-put_u8, get_net-put_net,
}
use eya_kv.Codec.Containers.{
  serialize_string, deserialize_string, serialize_deque, deserialize_deque, serialize_set,
  deserialize_set, serialize_map, deserialize_map,
}
use eya_kv.Codec.RoundTrip.{All, Trips, FitsString, read_field, string-Trips}
use eya_kv.Codec.Collections.{
  FitsPair, NoRepeatAfter, NoKeyAfter, deque_trips, set_trips, map_trips,
}
use eya_kv.Storage.Value.{
  EyaValue, EValue, serialize_eya_value, deserialize_eya_value, deserialize_alternative, put_bool,
  serialize_value, deserialize_value,
}

get_u8-put_bool :
    (b : Bool) (rest : Bytes) → get_u8 (put_bool b ++ rest) ≡ some (if b then 1 else 0, rest)
unfolding put_bool
get_u8-put_bool true rest = get_u8-put_u8 1 rest (omega arith)
get_u8-put_bool false rest = get_u8-put_u8 0 rest (omega arith)

bool_read : (b : Bool) → ltb 0 (if b then 1 else 0) ≡ b
bool_read true = refl
bool_read false = refl

module _ {Z : Type 0} (write_zset : Z → Bytes) (read_zset : Reader Z) where
  -- It is no sorted set, sizes fit in 32 bits, and elements and keys are distinct.
  abbrev pub FitsValue : EyaValue Z → Type 0
  FitsValue (EyaValue.string s) = FitsString s
  FitsValue (EyaValue.deque l) = (length l < 2 ^ 32) × All FitsString l
  FitsValue (EyaValue.set l) = (length l < 2 ^ 32) × All FitsString l × NoRepeatAfter [] l
  FitsValue (EyaValue.hash m) = (length m < 2 ^ 32) × All FitsPair m × NoKeyAfter [] m
  FitsValue (EyaValue.zset z) = ⊥

  eya_value-Trips :
      (v : EyaValue Z)
      → FitsValue v
      → Trips (serialize_eya_value write_zset) (deserialize_eya_value read_zset) v
  unfolding serialize_eya_value deserialize_eya_value
  eya_value-Trips (EyaValue.string s) h rest =
      read_field put_u8 get_u8 (deserialize_alternative read_zset) 0 (serialize_string s) rest
        (λ r. get_u8-put_u8 0 r (omega arith))
      ∙ bind_some deserialize_string _ (string-Trips s h rest)
  eya_value-Trips (EyaValue.deque l) h rest =
      read_field put_u8 get_u8 (deserialize_alternative read_zset) 1 (serialize_deque l) rest
        (λ r. get_u8-put_u8 1 r (omega arith))
      ∙ bind_some deserialize_deque _ (deque_trips l rest h.0 h.1)
  eya_value-Trips (EyaValue.set l) h rest =
      read_field put_u8 get_u8 (deserialize_alternative read_zset) 2 (serialize_set l) rest
        (λ r. get_u8-put_u8 2 r (omega arith))
      ∙ bind_some deserialize_set _ (set_trips l rest h.0 h.1 h.2)
  eya_value-Trips (EyaValue.hash m) h rest =
      read_field put_u8 get_u8 (deserialize_alternative read_zset) 3 (serialize_map m) rest
        (λ r. get_u8-put_u8 3 r (omega arith))
      ∙ bind_some deserialize_map _ (map_trips m rest h.0 h.1 h.2)
  eya_value-Trips (EyaValue.zset z) h rest = absurd h

  -- A stored string, list, set or hash, deleted or not, comes back from its bytes, whatever follows them:
  -- its expiry and its sizes fit in 32 bits, and a set or a hash has no element or key twice.
  pub deserialize_value-serialize_value :
      (v : EValue Z) (rest : Bytes)
      → v.expire_time < 2 ^ 32
      → FitsValue v.value
      → deserialize_value read_zset (serialize_value write_zset v ++ rest) ≡ some (v, rest)
  unfolding serialize_value deserialize_value
  deserialize_value-serialize_value v rest h f =
      let body = put_net v.expire_time ++ serialize_eya_value write_zset v.value in
      ap (deserialize_value read_zset) (append_assoc (put_bool v.deleted) body rest)
      ∙ bind_some get_u8 _ (get_u8-put_bool v.deleted (body ++ rest))
      ∙ read_field put_net get_net _ v.expire_time (serialize_eya_value write_zset v.value) rest
          (λ r. get_net-put_net v.expire_time r h)
      ∙ bind_some (deserialize_eya_value read_zset) _ (eya_value-Trips v.value f rest)
      ∙ ap (λ (b : Bool). some (record v { deleted = b }, rest)) (bool_read v.deleted)
