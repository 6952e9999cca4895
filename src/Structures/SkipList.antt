-- ===== src/Structures/SkipList.antt =====
-- `SkipListNode` and `SkipList` of include/common/ds/skip_list.h, at the level of their pointers. A
-- pointer is an address of the heap, nullptr is none; `none` of an operation is the use of nullptr,
-- of freed memory or of a level that a node does not have. One thread runs at a time.
pub mod Items
pub mod Search
pub mod Lookup
pub mod Update
pub mod Link
pub mod Loops
pub mod Insert
pub mod Holds
pub mod Refinement
pub mod Reads
use Prim.Native.Nat.{Ordering}
use eya_kv.Prelude.{
  ℕ, zero, suc, ◌+◌, ◌-◌, ◌*◌, ◌%◌, ◌^◌, ◌==◌, ltb, if◌then◌else◌, Option, none, some, List, [],
  ◌∷◌, ◌++◌, length, get_elem?, set, take, replicate,
}
use eya_kv.Effects.{out_of_range, Result, returned, threw, M}

module _ (K V : Type 0) where
  pub record Node : Type 0 where
    pub key : K
    pub value : V
    pub seq : ℕ
    pub next : List (Option ℕ)

module _ (K V : Type 0) where
  -- The heap holds the nodes; `fresh` is the address of the next `new`, and that of head_ is 0.
  pub record SkipList : Type 0 where
    pub cells : ℕ → Option (Node K V)
    pub fresh : ℕ
    pub max_level : ℕ
    pub current_level : ℕ
    pub size : ℕ
    pub current_size : ℕ

  -- compare_func_, the two size functions, V(), and the sizes of a node and a pointer.
  pub record Functions : Type 0 where
    pub compare_func : K → K → Ordering
    pub key_size : K → ℕ
    pub value_size : V → ℕ
    pub no_key : K
    pub no_value : V
    pub sizeof_node : ℕ
    pub sizeof_pointer : ℕ

module _ {K V : Type 0} where
  unfoldable pub write_cell :
      ℕ → Option (Node K V) → (ℕ → Option (Node K V)) → ℕ → Option (Node K V)
  write_cell p n cells q = if q == p then n else cells q

  -- fetch_add of seq_
  unfoldable pub bump : Node K V → Node K V
  bump n = record n { seq = (n.seq + 1) % 2 ^ 32 }

  -- get_value: where seq_ is odd and stays so, `continue` ends the loop with a fresh V.
  unfoldable pub get_value : Functions K V → Node K V → V
  get_value f n = if n.seq % 2 == 1 then f.no_value else n.value

  -- set_value
  unfoldable pub set_value : V → Node K V → Node K V
  unfolding bump
  set_value v n = bump (record (bump n) { value = v })

  -- fetch_add(more - less) of current_size_
  unfoldable pub resize : ℕ → ℕ → SkipList K V → SkipList K V
  resize more less s = record s {
    current_size = (s.current_size + more + (2 ^ 64 - less % 2 ^ 64)) % 2 ^ 64;
  }

  unfoldable pub node_size : Functions K V → ℕ → ℕ
  node_size f level = f.sizeof_pointer * level + f.sizeof_node

  unfoldable pub new_skip_list : Functions K V → ℕ → SkipList K V
  unfolding write_cell
  new_skip_list f max_level = record {
    cells =
        write_cell 0
          (some (record {
            key = f.no_key;
            value = f.no_value;
            seq = 0;
            next = replicate max_level none;
          }))
          (λ p. none);
    fresh = 1;
    max_level = max_level;
    current_level = 1;
    size = 0;
    current_size = f.key_size f.no_key + f.value_size f.no_value + f.sizeof_pointer * max_level;
  }

  -- p->next[i].load()
  unfoldable pub load_next : (ℕ → Option (Node K V)) → ℕ → ℕ → Option (Option ℕ)
  load_next cells p i = elim (cells p) [ none ↦ none | some n ↦ get_elem? n.next i ]

  -- p->next[i].store(q)
  unfoldable pub store_next :
      ℕ → ℕ → Option ℕ → (ℕ → Option (Node K V)) → Option (ℕ → Option (Node K V))
  unfolding write_cell
  store_next p i q cells = elim (cells p) [
    | none ↦ none
    | some n ↦
        if ltb i (length n.next)
        then some (write_cell p (some (record n { next = set n.next i q })) cells)
        else none
  ]

  -- The while loop along one level: the last node with a smaller key.
  unfoldable pub advance : Functions K V → ℕ → ℕ → K → (ℕ → Option (Node K V)) → ℕ → Option ℕ
  unfolding load_next
  advance f zero i key cells p = none
  advance f (suc fuel) i key cells p = elim (load_next cells p i) [
    | none ↦ none
    | some none ↦ some p
    | some (some q) ↦ (elim (cells q) [
      | none ↦ none
      | some n ↦ (elim (f.compare_func n.key key) [
        | Ordering.lt ↦ advance f fuel i key cells q
        | _ ↦ some p
      ])
    ])
  ]

  -- The for loop down the levels below `i`: where it ends, and update[0] to update[i - 1].
  unfoldable pub descend :
      Functions K V → ℕ → ℕ → K → (ℕ → Option (Node K V)) → ℕ → Option (ℕ × List ℕ)
  unfolding advance
  descend f fuel zero key cells p = some (p, [])
  descend f fuel (suc i) key cells p = elim (advance f fuel i key cells p) [
    | none ↦ none
    | some q ↦ (elim (descend f fuel i key cells q) [
      | none ↦ none
      | some (r, update) ↦ some (r, update ++ q ∷ [])
    ])
  ]

  -- The search of insert, get and handle_value: current after it, and update. A node is passed at
  -- most once on each level, so that one turn more than there are nodes is enough.
  unfoldable pub search_key : Functions K V → K → SkipList K V → Option (Option ℕ × List ℕ)
  unfolding descend load_next
  search_key f key s = elim (descend f (s.size + 1) s.current_level key s.cells 0) [
    | none ↦ none
    | some (p, update) ↦ (elim (load_next s.cells p 0) [ none ↦ none | some c ↦ some (c, update) ])
  ]

  -- The node at `c` if its key is `key`.
  unfoldable pub match_key :
      Functions K V → K → Option ℕ → (ℕ → Option (Node K V)) → Option (Option (ℕ × Node K V))
  match_key f key none cells = some none
  match_key f key (some c) cells = elim (cells c) [
    | none ↦ none
    | some n ↦ some (elim (f.compare_func n.key key) [ Ordering.eq ↦ some (c, n) | _ ↦ none ])
  ]

  -- new_node->next[i] of the levels from `i` on
  unfoldable pub load_all : ℕ → List ℕ → (ℕ → Option (Node K V)) → Option (List (Option ℕ))
  unfolding load_next
  load_all i [] cells = some []
  load_all i (p ∷ update) cells = elim (load_next cells p i) [
    | none ↦ none
    | some q ↦ (elim (load_all (suc i) update cells) [ none ↦ none | some next ↦ some (q ∷ next) ])
  ]

  -- update[i]->next[i].store(new_node) for the levels from `i` on
  unfoldable pub store_all :
      ℕ → ℕ → List ℕ → (ℕ → Option (Node K V)) → Option (ℕ → Option (Node K V))
  unfolding store_next
  store_all q i [] cells = some cells
  store_all q i (p ∷ update) cells = elim (store_next p i (some q) cells) [
    | none ↦ none
    | some cells' ↦ store_all q (suc i) update cells'
  ]

  -- The node of a new key, behind the nodes of `update`.
  unfoldable pub link_node :
      Functions K V → ℕ → List ℕ → K → V → SkipList K V → Option (SkipList K V)
  unfolding load_all store_all write_cell resize node_size
  link_node f level update key value s = elim (load_all 0 update s.cells) [
    | none ↦ none
    | some next ↦
        (let node : Node K V = record { key = key; value = value; seq = 0; next = next } in
          elim (store_all s.fresh 0 update (write_cell s.fresh (some node) s.cells)) [
            | none ↦ none
            | some cells ↦ some (
                resize (f.key_size key + f.value_size value + node_size f level) 0
                  (record s { cells = cells; fresh = s.fresh + 1; size = s.size + 1 }))
          ])
  ]

  -- The new value of a node whose key is there.
  unfoldable pub assign_node : Functions K V → ℕ → Node K V → V → SkipList K V → SkipList K V
  unfolding write_cell set_value resize get_value
  assign_node f c n value s =
      resize (f.value_size value) (f.value_size (get_value f n))
        (record s { cells = write_cell c (some (set_value value n)) s.cells })

  -- update of a level above the current one is head_, and the current one grows.
  unfoldable pub raise_level : ℕ → List ℕ → SkipList K V → List ℕ × SkipList K V
  raise_level level update s =
      if ltb s.current_level level
      then (update ++ replicate (level - s.current_level) 0, record s { current_level = level })
      else (take level update, s)

  -- `level` is what random_level draws.
  unfoldable pub insert : Functions K V → ℕ → K → V → SkipList K V → Option (SkipList K V)
  unfolding search_key match_key link_node assign_node raise_level
  insert f level key value s = elim (search_key f key s) [
    | none ↦ none
    | some (current, update) ↦ (elim (match_key f key current s.cells) [
      | none ↦ none
      | some (some (c, n)) ↦ some (assign_node f c n value s)
      | some none ↦
          (let (update', s') = raise_level level update s in link_node f level update' key value s')
    ])
  ]

  unfoldable pub get : Functions K V → K → SkipList K V → Option (Result V)
  unfolding search_key match_key get_value
  get f key s = elim (search_key f key s) [
    | none ↦ none
    | some (current, update) ↦ (elim (match_key f key current s.cells) [
      | none ↦ none
      | some none ↦ some (threw out_of_range)
      | some (some (c, n)) ↦ some (returned (get_value f n))
    ])
  ]

  -- The callback on the value of a node: it returns a result and the new value, or throws with the
  -- value as it was. The old value is returned with the result.
  unfoldable pub apply_handler {ℓ} :
      {A : Type ℓ}
      → Functions K V
      → (V → Result (A × V))
      → ℕ
      → Node K V
      → SkipList K V
      → Result (A × V) × SkipList K V
  unfolding write_cell bump resize
  apply_handler f value_handle c n s = elim (value_handle n.value) [
    | threw e ↦ (threw e, record s { cells = write_cell c (some (bump n)) s.cells })
    | returned (a, v) ↦ (
      returned (a, n.value),
      resize (f.value_size v) (f.value_size n.value)
          (record s { cells = write_cell c (some (bump (record (bump n) { value = v }))) s.cells }),
    )
  ]

  unfoldable pub handle_value {ℓ} :
      {A : Type ℓ} → Functions K V → K → (V → Result (A × V)) → M (SkipList K V) (A × V)
  unfolding search_key match_key apply_handler
  handle_value f key value_handle s = elim (search_key f key s) [
    | none ↦ none
    | some (current, update) ↦ (elim (match_key f key current s.cells) [
      | none ↦ none
      | some none ↦ some (threw out_of_range, s)
      | some (some (c, n)) ↦ some (apply_handler f value_handle c n s)
    ])
  ]

  -- The loop along level 0 from `p`.
  unfoldable pub entries_from :
      Functions K V → ℕ → Option ℕ → (ℕ → Option (Node K V)) → Option (List (K × V))
  unfolding get_value
  entries_from f fuel none cells = some []
  entries_from f zero (some c) cells = none
  entries_from f (suc fuel) (some c) cells = elim (cells c) [
    | none ↦ none
    | some n ↦ (elim (get_elem? n.next 0) [
      | none ↦ none
      | some q ↦ (elim (entries_from f fuel q cells) [
        | none ↦ none
        | some rest ↦ some ((n.key, get_value f n) ∷ rest)
      ])
    ])
  ]

  unfoldable pub get_all_entries : Functions K V → SkipList K V → Option (List (K × V))
  unfolding entries_from load_next
  get_all_entries f s = elim (load_next s.cells 0 0) [
    | none ↦ none
    | some c ↦ entries_from f s.size c s.cells
  ]
