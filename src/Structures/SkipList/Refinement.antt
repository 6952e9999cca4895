-- ===== src/Structures/SkipList/Refinement.antt =====
-- include/common/ds/skip_list.h: a skip list is a list of keys and values in order.
use eya_kv.Prelude.{
  ℕ, ◌+◌, ◌%◌, ◌^◌, ◌<◌, ◌≤◌, ◌≡◌, sym, ap, subst, ◌∙◌, inl, inr, Option-cases, none, some, List,
  ◌++◌, arith,
}
use eya_kv.Structures.SkipList
use eya_kv.Structures.SkipList.{
  SkipList, Functions, write_cell, raise_level, link_node, resize, node_size, search_key,
  assign_node, set_value, bump, get_value,
}
use eya_kv.Structures.SkipList.Items.{Item, node_of}
use eya_kv.Structures.SkipList.Lookup.{
  IsOrder, IsSkipList, find, find-less, splits, search_key-splits, matches,
}
use eya_kv.Structures.SkipList.Update.{change, changed, change-found}
use eya_kv.Structures.SkipList.Insert.{raise_level-updates}
use eya_kv.Structures.SkipList.Holds.{All-prefix, new_item, place, place-between, linked, held}

module _ {K V : Type 0} (f : Functions K V) (order : IsOrder f.compare_func) (key : K) (value : V)
    (level : ℕ) (head : Item K V) (items : List (Item K V)) (s : SkipList K V)
    (valid : IsSkipList f head items s) where
  -- What insert makes of the nodes.
  unfoldable pub inserted : List (Item K V)
  unfolding place change
  inserted = elim (find f key items) [
    | none ↦ place f key (new_item s.fresh key value level) items
    | some x ↦ change f key value (((x.seq + 1) % 2 ^ 32 + 1) % 2 ^ 32) items
  ]

  insert-new :
      find f key items ≡ none
      → 0 < level
      → level ≤ s.max_level
      → (s' : SkipList K V) × (SkipList.insert f level key value s ≡ some s')
        × IsSkipList f head (place f key (new_item s.fresh key value level) items) s'
  unfolding SkipList.insert resize
  insert-new none_found pos_level fits = elim (matches f order key head items s valid) [
    | inr (x, l, w, k, m, e) ↦ cc (none_found, e)
    | inl (m, e) ↦
        (let p = splits f order key head items s valid in
          let whole = subst (λ l. IsSkipList f head l s) p.whole valid in
          let (current, raised, grows, reaches, which) =
            raise_level-updates level head p.before s valid.first
              (All-prefix _ p.before p.after whole.low) in
          let s1 = record s { current_level = current } in
          let (cells', done, st) =
            linked f head p.before p.after s1 key value level whole.stored whole.distinct
              whole.fresh (omega (arith, fits, valid.top)) in
          let s' =
            resize (f.key_size key + f.value_size value + node_size f level) 0
              (record s1 { cells = cells'; fresh = s.fresh + 1; size = s.size + 1 }) in
          let x = new_item s.fresh key value level in
          let nowhere : find f key p.after ≡ none =
            sym (ap (find f key) p.whole ∙ find-less f order key p.before p.after p.less)
            ∙ none_found in
          let tops : current ≤ s.max_level = elim which [
            | inl same ↦ omega (arith, same, fits)
            | inr same ↦ omega (arith, same, valid.level_fits)
          ] in
          (
            s',
            rw (SkipList.insert, search_key-splits f order key head items s valid, m, raised, done),
            subst (λ l. IsSkipList f head l s')
                (sym (
                  ap (place f key x) p.whole
                  ∙ place-between f key x p.before p.after p.less p.bound))
                (held f order head p.before p.after s key value level current s'.current_size cells'
                  whole p.less p.bound nowhere pos_level reaches grows tops st),
          ))
  ]

  insert-old :
      (x : Item K V)
      → find f key items ≡ some x
      → (s' : SkipList K V) × (SkipList.insert f level key value s ≡ some s')
        × IsSkipList f head (change f key value (((x.seq + 1) % 2 ^ 32 + 1) % 2 ^ 32) items) s'
  unfolding SkipList.insert assign_node set_value bump resize node_of
  insert-old x found = elim (matches f order key head items s valid) [
    | inl (m, e) ↦ cc (found, e)
    | inr (y, l, w, k, m, e) ↦
        (let p = splits f order key head items s valid in
          let same : y ≡ x = cc (found, e) in
          let whole = p.whole ∙ ap (p.before ++◌) w in
          let seq = ((y.seq + 1) % 2 ^ 32 + 1) % 2 ^ 32 in
          let s' = assign_node f y.address (node_of y l) value s in
          subst
            (λ (z : Item K V).
              (s' : SkipList K V) × (SkipList.insert f level key value s ≡ some s')
              × IsSkipList f head (change f key value (((z.seq + 1) % 2 ^ 32 + 1) % 2 ^ 32) items)
                  s')
            same
            (
              s',
              rw (SkipList.insert, search_key-splits f order key head items s valid, m),
              subst (λ l. IsSkipList f head l s')
                  (sym (
                    ap (change f key value seq) whole
                    ∙ change-found f key value seq p.before y l p.less
                        (ap (λ z. f.compare_func z key) k ∙ order.eq_refl key)))
                  (changed f head p.before y l s value seq s'.current_size
                    (subst (λ m. IsSkipList f head m s) whole valid)),
            ))
  ]

  -- insert, with a level from 1 to the highest, returns, and keeps a skip list in order and linked on all
  -- levels: the node with the key gets the new value, or where there is none a new node stands in front of
  -- the first greater key.
  pub insert-IsSkipList :
      0 < level
      → level ≤ s.max_level
      → (s' : SkipList K V) × (SkipList.insert f level key value s ≡ some s')
        × IsSkipList f head inserted s'
  unfolding inserted
  insert-IsSkipList pos_level fits = elim (Option-cases (find f key items)) [
    | inl none_found ↦ rw (inserted, none_found) (insert-new none_found pos_level fits)
    | inr (x, found) ↦ rw (inserted, found) (insert-old x found)
  ]
