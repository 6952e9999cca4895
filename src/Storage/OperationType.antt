-- ===== src/Storage/OperationType.antt =====
-- include/common/types/operation_type.h: the codes of the commands, and which read, which write and
-- which are Raft's.
pub mod Partition
use eya_kv.Prelude.{ℕ, ◌+◌, Bool, true, false, ◌==◌, if◌then◌else◌, List, [], ◌∷◌}

abbrev pub k_keys : ℕ
k_keys = 0

abbrev pub k_exists : ℕ
k_exists = k_keys + 1

abbrev pub k_remove : ℕ
k_remove = k_exists + 1

abbrev pub k_range : ℕ
k_range = k_remove + 1

abbrev pub k_expire : ℕ
k_expire = k_range + 1

abbrev pub k_get : ℕ
k_get = k_expire + 1

abbrev pub k_set : ℕ
k_set = k_get + 1

abbrev pub k_s_add : ℕ
k_s_add = k_set + 1

abbrev pub k_s_rem : ℕ
k_s_rem = k_s_add + 1

abbrev pub k_s_members : ℕ
k_s_members = k_s_rem + 1

abbrev pub k_z_add : ℕ
k_z_add = k_s_members + 1

abbrev pub k_z_rem : ℕ
k_z_rem = k_z_add + 1

abbrev pub k_z_score : ℕ
k_z_score = k_z_rem + 1

abbrev pub k_z_rank : ℕ
k_z_rank = k_z_score + 1

abbrev pub k_z_card : ℕ
k_z_card = k_z_rank + 1

abbrev pub k_z_incr_by : ℕ
k_z_incr_by = k_z_card + 1

abbrev pub k_z_range_by_rank : ℕ
k_z_range_by_rank = k_z_incr_by + 1

abbrev pub k_z_range_by_score : ℕ
k_z_range_by_score = k_z_range_by_rank + 1

abbrev pub k_z_rem_by_rank : ℕ
k_z_rem_by_rank = k_z_range_by_score + 1

abbrev pub k_z_rem_by_score : ℕ
k_z_rem_by_score = k_z_rem_by_rank + 1

abbrev pub k_l_push : ℕ
k_l_push = k_z_rem_by_score + 1

abbrev pub k_l_pop : ℕ
k_l_pop = k_l_push + 1

abbrev pub k_r_push : ℕ
k_r_push = k_l_pop + 1

abbrev pub k_r_pop : ℕ
k_r_pop = k_r_push + 1

abbrev pub k_l_range : ℕ
k_l_range = k_r_pop + 1

abbrev pub k_l_get : ℕ
k_l_get = k_l_range + 1

abbrev pub k_l_size : ℕ
k_l_size = k_l_get + 1

abbrev pub k_l_pop_n : ℕ
k_l_pop_n = k_l_size + 1

abbrev pub k_r_pop_n : ℕ
k_r_pop_n = k_l_pop_n + 1

abbrev pub k_h_set : ℕ
k_h_set = k_r_pop_n + 1

abbrev pub k_h_get : ℕ
k_h_get = k_h_set + 1

abbrev pub k_h_del : ℕ
k_h_del = k_h_get + 1

abbrev pub k_h_keys : ℕ
k_h_keys = k_h_del + 1

abbrev pub k_h_values : ℕ
k_h_values = k_h_keys + 1

abbrev pub k_h_entries : ℕ
k_h_entries = k_h_values + 1

abbrev pub k_get_master : ℕ
k_get_master = k_h_entries + 1

abbrev pub k_set_master : ℕ
k_set_master = k_get_master + 1

abbrev pub k_remove_node : ℕ
k_remove_node = k_set_master + 1

abbrev pub k_list_nodes : ℕ
k_list_nodes = k_remove_node + 1

abbrev pub k_get_status : ℕ
k_get_status = k_list_nodes + 1

-- the commands that read
unfoldable pub read_types : List ℕ
read_types =
    k_keys ∷ k_exists ∷ k_get ∷ k_s_members ∷ k_z_score ∷ k_z_rank ∷ k_z_card ∷ k_z_range_by_rank
    ∷ k_z_range_by_score ∷ k_l_range ∷ k_l_get ∷ k_l_size ∷ k_h_get ∷ k_h_keys ∷ k_h_values
    ∷ k_h_entries ∷ []

-- the commands that write
unfoldable pub write_types : List ℕ
write_types =
    k_remove ∷ k_range ∷ k_expire ∷ k_set ∷ k_s_add ∷ k_s_rem ∷ k_z_add ∷ k_z_rem ∷ k_z_incr_by
    ∷ k_z_rem_by_rank ∷ k_z_rem_by_score ∷ k_l_push ∷ k_l_pop ∷ k_r_push ∷ k_r_pop ∷ k_l_pop_n
    ∷ k_r_pop_n ∷ k_h_set ∷ k_h_del ∷ []

-- the commands of the cluster
unfoldable pub raft_types : List ℕ
raft_types = k_get_master ∷ k_set_master ∷ k_remove_node ∷ k_list_nodes ∷ k_get_status ∷ []

-- find of an unordered_set
unfoldable pub has_type : ℕ → List ℕ → Bool
has_type op_type [] = false
has_type op_type (t ∷ types) = if t == op_type then true else has_type op_type types

unfoldable pub is_read_operation : ℕ → Bool
unfolding has_type read_types
is_read_operation op_type = has_type op_type read_types

unfoldable pub is_write_operation : ℕ → Bool
unfolding has_type write_types
is_write_operation op_type = has_type op_type write_types

unfoldable pub is_raft_operation : ℕ → Bool
unfolding has_type raft_types
is_raft_operation op_type = has_type op_type raft_types
