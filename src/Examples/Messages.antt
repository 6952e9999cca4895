-- ===== src/Examples/Messages.antt =====
-- Messages of include/raft/protocol/protocol.h that arrive.
use eya_kv.Prelude.{◌≡◌, refl, some, [], ◌∷◌, ◌++◌, arith}
use eya_kv.Codec.Words.{put_net, put_u32, htonl}
use eya_kv.Protocol.Envelope.{type_code, default_message, serialize_message, deserialize_message}
use eya_kv.Protocol.Factory.{append_entries_with_data, query_leader, make}
use eya_kv.Protocol.Delivery.{message_arrives}
use eya_kv.Examples.Codec.{sample, sample-FitsEntry}

query_test : serialize_message (make query_leader) ≡ 0 ∷ 0 ∷ 0 ∷ 9 ∷ 0 ∷ 0 ∷ 0 ∷ 0 ∷ []
unfolding serialize_message make type_code put_net put_u32 htonl
query_test = refl

message_arrives_example :
    deserialize_message default_message
      (serialize_message (make (append_entries_with_data 3 8 2 (sample 9 ∷ []) 7)) ++ 1 ∷ [])
    ≡ some (make (append_entries_with_data 3 8 2 (sample 9 ∷ []) 7), 1 ∷ [])
message_arrives_example =
    message_arrives (append_entries_with_data 3 8 2 (sample 9 ∷ []) 7) (1 ∷ []) (
      omega arith,
      omega arith,
      omega arith,
      omega arith,
      (omega arith, (sample-FitsEntry 9 (omega arith), tt), (tt, tt)),
    )
