-- ===== src/Structures/SkipList/Update.antt =====
-- include/common/ds/skip_list.h: handle_value changes the value of one node.
use Prim.Native.Nat.{Ordering}
use eya_kv.Prelude.{
  ℕ, zero, suc, ◌+◌, ◌%◌, ◌^◌, ◌≡◌, ◌≢◌, inl, inr, refl, sym, ap, subst, ◌∙◌, false, ◌==◌, ==-refl,
  Option, none, some, List, [], ◌∷◌, ◌++◌, length, arith,
}
use eya_kv.Effects.{Result, returned, threw, out_of_range}
use eya_kv.Codec.RoundTrip.{All}
use eya_kv.Structures.SkipList
use eya_kv.Structures.SkipList.{
  Node, SkipList, Functions, write_cell, apply_handler, bump, resize, search_key,
}
use eya_kv.Structures.SkipList.Items.{Item, first_at, links, node_of, Stored}
use eya_kv.Structures.SkipList.Search.{IsLess, Ordering-cases}
use eya_kv.Structures.SkipList.Lookup.{
  IsOrder, Distinct, IsSorted, IsSkipList, find, splits, search_key-splits, matches,
}

pub flip : (a b : ℕ) → (a == b) ≡ false → (b == a) ≡ false
flip a b h = ground (arith, h)

module _ {K V : Type 0} where
  abbrev pub with_value : V → ℕ → Item K V → Item K V
  with_value v seq x = record x { value = v; seq = seq }

  module _ (v : V) (seq : ℕ) where
    first_at-same :
        (i : ℕ) (l1 : List (Item K V)) (x : Item K V) (l : List (Item K V))
        → first_at i (l1 ++ x ∷ l) ≡ first_at i (l1 ++ with_value v seq x ∷ l)
    unfolding first_at
    first_at-same i [] x l = refl
    first_at-same i (y ∷ l1) x l = rw (first_at-same i l1 x l)

    links-same :
        (i height : ℕ) (l1 : List (Item K V)) (x : Item K V) (l : List (Item K V))
        → links i height (l1 ++ x ∷ l) ≡ links i height (l1 ++ with_value v seq x ∷ l)
    unfolding links
    links-same i zero l1 x l = refl
    links-same i (suc height) l1 x l = rw (first_at-same i l1 x l, links-same (suc i) height l1 x l)

    All-same :
        (P : Item K V → Type 0) (l1 : List (Item K V)) (x : Item K V) (l : List (Item K V))
        → (P x → P (with_value v seq x))
        → All P (l1 ++ x ∷ l)
        → All P (l1 ++ with_value v seq x ∷ l)
    All-same P [] x l t a = (t a.0, a.1)
    All-same P (y ∷ l1) x l t a = (a.0, All-same P l1 x l t a.1)

    Distinct-same :
        (l1 : List (Item K V)) (x : Item K V) (l : List (Item K V))
        → Distinct (l1 ++ x ∷ l)
        → Distinct (l1 ++ with_value v seq x ∷ l)
    Distinct-same [] x l d = d
    Distinct-same (y ∷ l1) x l d = (
      All-same (λ (z : Item K V). (z.address == y.address) ≡ false) l1 x l (λ h. h) d.0,
      Distinct-same l1 x l d.1,
    )

    IsSorted-same :
        (f : Functions K V) (l1 : List (Item K V)) (x : Item K V) (l : List (Item K V))
        → IsSorted f (l1 ++ x ∷ l)
        → IsSorted f (l1 ++ with_value v seq x ∷ l)
    IsSorted-same f [] x l d = d
    IsSorted-same f (y ∷ l1) x l d = (
      All-same (λ (z : Item K V). f.compare_func y.key z.key ≡ Ordering.lt) l1 x l (λ h. h) d.0,
      IsSorted-same f l1 x l d.1,
    )

  pub Stored-other :
      (cells : ℕ → Option (Node K V)) (p : ℕ) (o : Option (Node K V)) (l : List (Item K V))
      → All (λ (y : Item K V). (y.address == p) ≡ false) l
      → Stored cells l
      → Stored (write_cell p o cells) l
  unfolding Stored write_cell
  Stored-other cells p o [] a s = tt
  Stored-other cells p o (y ∷ l) a s = (rw (write_cell, a.0) s.0, Stored-other cells p o l a.1 s.1)

  pub at_all :
      (P : Item K V → Type 0) (l1 : List (Item K V)) (x : Item K V) (l : List (Item K V))
      → All P (l1 ++ x ∷ l)
      → P x
  at_all P [] x l a = a.0
  at_all P (y ∷ l1) x l a = at_all P l1 x l a.1

  pub Stored-write :
      (cells : ℕ → Option (Node K V)) (v : V) (seq : ℕ) (l1 : List (Item K V)) (x : Item K V)
      (l : List (Item K V))
      → Distinct (l1 ++ x ∷ l)
      → Stored cells (l1 ++ x ∷ l)
      → Stored
          (write_cell x.address (some (node_of (with_value v seq x) l)) cells)
          (l1 ++ with_value v seq x ∷ l)
  unfolding Stored write_cell node_of
  Stored-write cells v seq [] x l d s =
      (rw (write_cell, ==-refl x.address), Stored-other cells x.address _ l d.0 s.1)
  Stored-write cells v seq (y ∷ l1) x l d s = (
    rw (
      write_cell,
      flip x.address y.address (at_all _ l1 x l d.0),
      s.0,
      links-same v seq 0 y.height l1 x l,
    ),
    Stored-write cells v seq l1 x l d.1 s.1,
  )

  length-same :
      (v : V) (seq : ℕ) (l1 : List (Item K V)) (x : Item K V) (l : List (Item K V))
      → length (l1 ++ x ∷ l) ≡ length (l1 ++ with_value v seq x ∷ l)
  length-same v seq [] x l = refl
  length-same v seq (y ∷ l1) x l = ap suc (length-same v seq l1 x l)

module _ {K V : Type 0} (f : Functions K V) where
  -- The node with the key gets another value.
  unfoldable pub change : K → V → ℕ → List (Item K V) → List (Item K V)
  change key v seq [] = []
  change key v seq (x ∷ l) = elim (f.compare_func x.key key) [
    | Ordering.eq ↦ with_value v seq x ∷ l
    | _ ↦ x ∷ change key v seq l
  ]

  pub change-less :
      (key : K) (v : V) (seq : ℕ) (l1 l2 : List (Item K V))
      → All (IsLess f key) l1
      → change key v seq (l1 ++ l2) ≡ l1 ++ change key v seq l2
  unfolding change
  change-less key v seq [] l2 a = refl
  change-less key v seq (x ∷ l1) l2 a = rw (change, a.0, change-less key v seq l1 l2 a.1)

  pub change-found :
      (key : K) (v : V) (seq : ℕ) (l1 : List (Item K V)) (x : Item K V) (l : List (Item K V))
      → All (IsLess f key) l1
      → f.compare_func x.key key ≡ Ordering.eq
      → change key v seq (l1 ++ x ∷ l) ≡ l1 ++ with_value v seq x ∷ l
  unfolding change
  change-found key v seq l1 x l a e =
      change-less key v seq l1 (x ∷ l) a ∙ ap (l1 ++◌) (rw (change, e))

  pub changed :
      (head : Item K V) (l1 : List (Item K V)) (x : Item K V) (l : List (Item K V))
      (s : SkipList K V) (v : V) (seq bytes : ℕ)
      → IsSkipList f head (l1 ++ x ∷ l) s
      → IsSkipList f head (l1 ++ with_value v seq x ∷ l) (record s {
        cells = write_cell x.address (some (node_of (with_value v seq x) l)) s.cells;
        current_size = bytes;
      })
  changed head l1 x l s v seq bytes valid = record {
    stored = Stored-write s.cells v seq (head ∷ l1) x l valid.distinct valid.stored;
    first = valid.first;
    top = valid.top;
    some_level = valid.some_level;
    level_fits = valid.level_fits;
    count = valid.count ∙ length-same v seq l1 x l;
    sorted = IsSorted-same v seq f l1 x l valid.sorted;
    high = All-same v seq _ l1 x l (λ h. h) valid.high;
    low = All-same v seq _ l1 x l (λ h. h) valid.low;
    distinct = Distinct-same v seq (head ∷ l1) x l valid.distinct;
    fresh = All-same v seq _ (head ∷ l1) x l (λ h. h) valid.fresh;
  }

  -- What handle_value gives back, and what it leaves in the node.
  abbrev pub outcome : {A : Type 0} → Result (A × V) → V → Result (A × V)
  outcome (threw e) old = threw e
  outcome (returned (a, v)) old = returned (a, old)

  abbrev pub left_value : {A : Type 0} → Result (A × V) → V → V
  left_value (threw e) old = old
  left_value (returned (a, v)) old = v

  abbrev pub left_seq : {A : Type 0} → Result (A × V) → ℕ → ℕ
  left_seq (threw e) seq = (seq + 1) % 2 ^ 32
  left_seq (returned (a, v)) seq = ((seq + 1) % 2 ^ 32 + 1) % 2 ^ 32

  applied :
      {A : Type 0} (vh : V → Result (A × V)) (head : Item K V) (l1 : List (Item K V)) (x : Item K V)
      (l : List (Item K V)) (s : SkipList K V)
      → IsSkipList f head (l1 ++ x ∷ l) s
      → (s' : SkipList K V) × (apply_handler f vh x.address (node_of x l) s
          ≡ (outcome (vh x.value) x.value, s'))
        × IsSkipList f head
            (l1 ++ with_value (left_value (vh x.value) x.value) (left_seq (vh x.value) x.seq) x ∷ l)
            s'
  unfolding apply_handler bump resize node_of
  applied {A = A} vh head l1 x l s valid = go (vh x.value) refl
    where
      go :
          (r : Result (A × V))
          → vh x.value ≡ r
          → (s' : SkipList K V) × (apply_handler f vh x.address (node_of x l) s
              ≡ (outcome r x.value, s'))
            × IsSkipList f head
                (l1 ++ with_value (left_value r x.value) (left_seq r x.seq) x ∷ l)
                s'
      go (threw e) h = (
        _,
        rw (apply_handler, h),
        changed head l1 x l s x.value (left_seq {A = A} (threw e) x.seq) s.current_size valid,
      )
      go (returned (a, v)) h =
          let seq = left_seq {A = A} (returned (a, v)) x.seq in
          let cells = write_cell x.address (some (node_of (with_value v seq x) l)) s.cells in
          let s' = resize (f.value_size v) (f.value_size x.value) (record s { cells = cells }) in
          (s', rw (apply_handler, h), changed head l1 x l s v seq s'.current_size valid)

  -- A change of one key is seen at that key only.
  pub find-change_other :
      (order : IsOrder f.compare_func) (key k : K) (v : V) (seq : ℕ) (items : List (Item K V))
      → key ≢ k
      → find f k (change key v seq items) ≡ find f k items
  unfolding change
  find-change_other order key k v seq [] n = refl
  find-change_other order key k v seq (y ∷ l) n = elim (Ordering-cases (f.compare_func y.key key)) [
    | inl lt ↦
        rw (change, lt)
          (ap
            (λ (r : Option (Item K V)). elim (f.compare_func y.key k) [
              | Ordering.eq ↦ some y
              | _ ↦ r
            ])
            (find-change_other order key k v seq l n))
    | inr (inl eq) ↦
        rw (change, eq)
          (elim (Ordering-cases (f.compare_func y.key k)) [
            | inl lt ↦ rw (find, lt)
            | inr (inl same) ↦
                absurd (n (sym (order.eq_sound y.key key eq) ∙ order.eq_sound y.key k same))
            | inr (inr gt) ↦ rw (find, gt)
          ])
    | inr (inr gt) ↦
        rw (change, gt)
          (ap
            (λ (r : Option (Item K V)). elim (f.compare_func y.key k) [
              | Ordering.eq ↦ some y
              | _ ↦ r
            ])
            (find-change_other order key k v seq l n))
  ]

  module _ (order : IsOrder f.compare_func) (key : K) (head : Item K V) (items : List (Item K V))
      (s : SkipList K V) (valid : IsSkipList f head items s) where
    pub handle_value-none :
        {A : Type 0} (vh : V → Result (A × V))
        → find f key items ≡ none
        → SkipList.handle_value f key vh s ≡ some (threw out_of_range, s)
    unfolding SkipList.handle_value
    handle_value-none vh h = elim (matches f order key head items s valid) [
      | inl (m, e) ↦ rw (SkipList.handle_value, search_key-splits f order key head items s valid, m)
      | inr (x, l, w, k, m, e) ↦ cc (h, e)
    ]

    -- handle_value on a key that a node has gives what the callback gives, with the old value, or throws
    -- what it throws; the list stays in order and linked, and only that node changes: its value to the one
    -- of the callback, and its sequence number by two, or by one where the callback throws.
    pub handle_value-changes :
        {A : Type 0} (vh : V → Result (A × V)) (x : Item K V)
        → find f key items ≡ some x
        → (s' : SkipList K V) × (SkipList.handle_value f key vh s
            ≡ some (outcome (vh x.value) x.value, s'))
          × IsSkipList f head
              (change key (left_value (vh x.value) x.value) (left_seq (vh x.value) x.seq) items)
              s'
    unfolding SkipList.handle_value
    handle_value-changes {A = A} vh x h = elim (matches f order key head items s valid) [
      | inl (m, e) ↦ cc (h, e)
      | inr (y, l, w, k, m, e) ↦
          (let p = splits f order key head items s valid in
            let same : y ≡ x = cc (h, e) in
            let whole = p.whole ∙ ap (p.before ++◌) w in
            let (s', r, kept) =
              applied vh head p.before y l s (subst (λ m. IsSkipList f head m s) whole valid) in
            subst
              (λ (z : Item K V).
                (s' : SkipList K V) × (SkipList.handle_value f key vh s
                  ≡ some (outcome (vh z.value) z.value, s'))
                × IsSkipList f head
                    (change key (left_value (vh z.value) z.value) (left_seq (vh z.value) z.seq)
                      items)
                    s')
              same
              (
                s',
                rw (SkipList.handle_value, search_key-splits f order key head items s valid, m)
                    (ap some r),
                subst (λ m. IsSkipList f head m s')
                    (sym (
                      ap (change key _ _) whole
                      ∙ change-found key _ _ p.before y l p.less
                          (ap (λ z. f.compare_func z key) k ∙ order.eq_refl key)))
                    kept,
              ))
    ]
