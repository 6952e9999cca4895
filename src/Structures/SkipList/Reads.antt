-- ===== src/Structures/SkipList/Reads.antt =====
-- include/common/ds/skip_list.h: what is read after a write.
use Prim.Native.Nat.{Ordering}
use eya_kv.Prelude.{
  ℕ, zero, suc, ◌+◌, ◌%◌, ◌^◌, ◌<◌, ◌≤◌, ◌≡◌, ◌≢◌, ◌⊎◌, refl, sym, ap, ◌∙◌, ◌==◌, true, false,
  if◌then◌else◌, inl, inr, Option, Option-cases, none, some, List, [], ◌∷◌, map, replicate, length,
  arith,
}
use eya_kv.Effects.{Exception, Result, returned, threw}
use eya_kv.Codec.RoundTrip.{All}
use eya_kv.Structures.SkipList
use eya_kv.Structures.SkipList.{
  Node, SkipList, Functions, write_cell, new_skip_list, entries_from, load_next, get_value,
}
use eya_kv.Structures.SkipList.Items.{Item, first_at, links, node_of, Stored, get_elem-links}
use eya_kv.Structures.SkipList.Search.{Ordering-cases, load_next-Stored}
use eya_kv.Structures.SkipList.Lookup.{IsOrder, IsSkipList, find, answer, get-answer, first_at-high}
use eya_kv.Structures.SkipList.Update.{
  with_value, change, find-change_other, outcome, left_value, left_seq, handle_value-changes,
}
use eya_kv.Structures.SkipList.Holds.{new_item, place}
use eya_kv.Structures.SkipList.Refinement.{inserted, insert-IsSkipList}

module _ (K V : Type 0) where
  no_links : (i height : ℕ) → replicate height none ≡ links {K = K} {V = V} i height []
  unfolding links first_at
  no_links i zero = refl
  no_links i (suc height) = ap (◌∷◌ none) (no_links (suc i) height)

module _ {K V : Type 0} (f : Functions K V) where
  find-eq :
      (k : K) (x : Item K V) (l : List (Item K V))
      → f.compare_func x.key k ≡ Ordering.eq
      → find f k (x ∷ l) ≡ some x
  find-eq k x l e = ap (λ (o : Ordering). elim o [ Ordering.eq ↦ some x | _ ↦ find f k l ]) e

  find-skip :
      (order : IsOrder f.compare_func) (k : K) (x : Item K V) (l : List (Item K V))
      → x.key ≢ k
      → find f k (x ∷ l) ≡ find f k l
  find-skip order k x l n = elim (Ordering-cases (f.compare_func x.key k)) [
    | inl lt ↦ ap (λ (o : Ordering). elim o [ Ordering.eq ↦ some x | _ ↦ find f k l ]) lt
    | inr (inl eq) ↦ absurd (n (order.eq_sound x.key k eq))
    | inr (inr gt) ↦ ap (λ (o : Ordering). elim o [ Ordering.eq ↦ some x | _ ↦ find f k l ]) gt
  ]

  find-place :
      (order : IsOrder f.compare_func) (key : K) (x : Item K V) (items : List (Item K V))
      → x.key ≡ key
      → find f key items ≡ none
      → find f key (place f key x items) ≡ some x
  unfolding place
  find-place order key x [] k e =
      find-eq key x [] (ap (λ z. f.compare_func z key) k ∙ order.eq_refl key)
  find-place order key x (y ∷ l) k e = elim (Ordering-cases (f.compare_func y.key key)) [
    | inl lt ↦
        rw (place, lt)
          (ap (λ (o : Ordering). elim o [ Ordering.eq ↦ some y | _ ↦ find f key (place f key x l) ])
              lt
            ∙ find-place order key x l k (
                sym (ap (λ (o : Ordering). elim o [ Ordering.eq ↦ some y | _ ↦ find f key l ]) lt)
                ∙ e))
    | inr (inl eq) ↦ (let found : find f key (y ∷ l) ≡ some y = rw (find, eq) in cc (found, e))
    | inr (inr gt) ↦
        rw (place, gt)
          (find-eq key x (y ∷ l) (ap (λ z. f.compare_func z key) k ∙ order.eq_refl key))
  ]

  -- A key that is not equal is not found at the new node.
  find-place_other :
      (order : IsOrder f.compare_func) (key k : K) (x : Item K V) (items : List (Item K V))
      → x.key ≡ key
      → key ≢ k
      → find f k (place f key x items) ≡ find f k items
  unfolding place
  find-place_other order key k x [] e n = find-skip order k x [] (λ h. n (sym e ∙ h))
  find-place_other order key k x (y ∷ l) e n = elim (Ordering-cases (f.compare_func y.key key)) [
    | inl lt ↦
        rw (place, lt)
          (ap
            (λ (r : Option (Item K V)). elim (f.compare_func y.key k) [
              | Ordering.eq ↦ some y
              | _ ↦ r
            ])
            (find-place_other order key k x l e n))
    | inr (inl eq) ↦ rw (place, eq) (find-skip order k x (y ∷ l) (λ h. n (sym e ∙ h)))
    | inr (inr gt) ↦ rw (place, gt) (find-skip order k x (y ∷ l) (λ h. n (sym e ∙ h)))
  ]

  pub new_skip_list-IsSkipList :
      (max_level : ℕ)
      → 0 < max_level
      → IsSkipList f (new_item 0 f.no_key f.no_value max_level) [] (new_skip_list f max_level)
  unfolding new_skip_list Stored node_of
  new_skip_list-IsSkipList max_level h = record {
    stored = (rw (write_cell, no_links K V 0 max_level), tt);
    first = refl;
    top = refl;
    some_level = omega arith;
    level_fits = h;
    count = refl;
    sorted = tt;
    high = tt;
    low = tt;
    distinct = (tt, tt);
    fresh = (omega arith, tt);
  }

  -- what get_value reads
  abbrev pub read : Item K V → V
  read x = if x.seq % 2 == 1 then f.no_value else x.value

  entries-Stored :
      (cells : ℕ → Option (Node K V)) (l : List (Item K V)) (fuel : ℕ)
      → Stored cells l
      → All (λ (x : Item K V). 0 < x.height) l
      → length l ≤ fuel
      → entries_from f fuel (first_at 0 l) cells ≡ some (map (λ (x : Item K V). (x.key, read x)) l)
  unfolding Stored entries_from node_of get_value first_at
  entries-Stored cells [] fuel s h k = refl
  entries-Stored cells (x ∷ l) zero s h k = absurd (omega arith)
  entries-Stored cells (x ∷ l) (suc fuel) s h k =
      ap (λ (o : Option ℕ). entries_from f (suc fuel) o cells) (first_at-high x l h.0)
      ∙ rw (
        entries_from,
        s.0,
        get_elem-links 0 0 x.height l h.0,
        entries-Stored cells l fuel s.1 h.1 (omega arith),
      )

  pub get_all_entries-map :
      (head : Item K V) (items : List (Item K V)) (s : SkipList K V)
      → IsSkipList f head items s
      → SkipList.get_all_entries f s ≡ some (map (λ (x : Item K V). (x.key, read x)) items)
  unfolding SkipList.get_all_entries Stored
  get_all_entries-map head items s valid =
      rw
        (
          SkipList.get_all_entries,
          ap (λ (p : ℕ). load_next s.cells p 0) (sym valid.first)
              ∙ load_next-Stored s.cells 0 head items valid.stored
                  (omega (arith, valid.top, valid.level_fits, valid.some_level)),
        )
        (entries-Stored s.cells items s.size valid.stored.1 valid.high (omega (arith, valid.count)))

  find-change :
      (order : IsOrder f.compare_func) (key : K) (v : V) (seq : ℕ) (items : List (Item K V))
      (x : Item K V)
      → find f key items ≡ some x
      → find f key (change f key v seq items) ≡ some (with_value v seq x)
  unfolding change
  find-change order key v seq [] x h = cc h
  find-change order key v seq (y ∷ l) x h = elim (Ordering-cases (f.compare_func y.key key)) [
    | inl lt ↦
        rw (change, lt)
          (ap
              (λ (o : Ordering). elim o [
                | Ordering.eq ↦ some y
                | _ ↦ find f key (change f key v seq l)
              ])
              lt
            ∙ find-change order key v seq l x (
                sym (ap (λ (o : Ordering). elim o [ Ordering.eq ↦ some y | _ ↦ find f key l ]) lt)
                ∙ h))
    | inr (inl eq) ↦
        (let same : y ≡ x = (let found = find-eq key y l eq in cc (found, h)) in
          rw (change, eq)
            (find-eq key (with_value v seq y) l eq ∙ ap (λ z. some (with_value v seq z)) same))
    | inr (inr gt) ↦
        rw (change, gt)
          (ap
              (λ (o : Ordering). elim o [
                | Ordering.eq ↦ some y
                | _ ↦ find f key (change f key v seq l)
              ])
              gt
            ∙ find-change order key v seq l x (
                sym (ap (λ (o : Ordering). elim o [ Ordering.eq ↦ some y | _ ↦ find f key l ]) gt)
                ∙ h))
  ]

  odd_once : (n : ℕ) → n % 2 ≡ 0 → (((n + 1) % 2 ^ 32) % 2 == 1) ≡ true
  odd_once n h = ground arith

  even_twice : (n : ℕ) → n % 2 ≡ 0 → ((((n + 1) % 2 ^ 32 + 1) % 2 ^ 32) % 2 == 1) ≡ false
  even_twice n h = ground arith

  answer-inserted :
      (order : IsOrder f.compare_func) (key : K) (value : V) (level : ℕ) (head : Item K V)
      (items : List (Item K V)) (s : SkipList K V) (valid : IsSkipList f head items s)
      → ((x : Item K V) → find f key items ≡ some x → x.seq % 2 ≡ 0)
      → answer f (find f key (inserted f order key value level head items s valid)) ≡ returned value
  unfolding inserted
  answer-inserted order key value level head items s valid even =
      elim (Option-cases (find f key items)) [
        | inl e ↦ rw (inserted, e) (ap (answer f) (find-place order key _ items refl e))
        | inr (x, e) ↦
            rw (inserted, e)
              (ap (answer f) (find-change order key value _ items x e)
                ∙ rw (even_twice x.seq (even x e)))
      ]

  pub find-inserted :
      (order : IsOrder f.compare_func) (key : K) (value : V) (level : ℕ) (head : Item K V)
      (items : List (Item K V)) (s : SkipList K V) (valid : IsSkipList f head items s)
      → ((x : Item K V) → find f key items ≡ some x → x.seq % 2 ≡ 0)
      → (x : Item K V) × (find f key (inserted f order key value level head items s valid) ≡ some x)
        × (x.value ≡ value)
        × (x.seq % 2 ≡ 0)
  unfolding inserted
  find-inserted order key value level head items s valid even =
      elim (Option-cases (find f key items)) [
        | inl e ↦ (
          new_item s.fresh key value level,
          rw (inserted, e) (find-place order key (new_item s.fresh key value level) items refl e),
          refl,
          refl,
        )
        | inr (x, e) ↦
            (let seq = ((x.seq + 1) % 2 ^ 32 + 1) % 2 ^ 32 in
              (
                with_value value seq x,
                rw (inserted, e) (find-change order key value seq items x e),
                refl,
                omega (arith, even x e),
              ))
      ]

  length-place :
      (key : K) (x : Item K V) (items : List (Item K V))
      → length (place f key x items) ≡ suc (length items)
  unfolding place
  length-place key x [] = refl
  length-place key x (y ∷ l) = elim (Ordering-cases (f.compare_func y.key key)) [
    | inl e ↦ rw (place, e) (ap suc (length-place key x l))
    | inr (inl e) ↦ rw (place, e)
    | inr (inr e) ↦ rw (place, e)
  ]

  length-change :
      (key : K) (v : V) (seq : ℕ) (items : List (Item K V))
      → length (change f key v seq items) ≡ length items
  unfolding change
  length-change key v seq [] = refl
  length-change key v seq (y ∷ l) = elim (Ordering-cases (f.compare_func y.key key)) [
    | inl e ↦ rw (change, e) (ap suc (length-change key v seq l))
    | inr (inl e) ↦ rw (change, e)
    | inr (inr e) ↦ rw (change, e) (ap suc (length-change key v seq l))
  ]

  -- A new key is one node more, and another key is none.
  pub length-inserted :
      (order : IsOrder f.compare_func) (key : K) (value : V) (level : ℕ) (head : Item K V)
      (items : List (Item K V)) (s : SkipList K V) (valid : IsSkipList f head items s)
      → ((find f key items ≡ none)
          × (length (inserted f order key value level head items s valid) ≡ suc (length items)))
        ⊎ ((x : Item K V) × (find f key items ≡ some x)
            × (length (inserted f order key value level head items s valid) ≡ length items))
  unfolding inserted
  length-inserted order key value level head items s valid =
      elim (Option-cases (find f key items)) [
        | inl e ↦ inl (e, rw (inserted, e) (length-place key _ items))
        | inr (x, e) ↦ inr (x, e, rw (inserted, e) (length-change key value _ items))
      ]

  pub find-inserted_other :
      (order : IsOrder f.compare_func) (key k : K) (value : V) (level : ℕ) (head : Item K V)
      (items : List (Item K V)) (s : SkipList K V) (valid : IsSkipList f head items s)
      → key ≢ k
      → find f k (inserted f order key value level head items s valid) ≡ find f k items
  unfolding inserted
  find-inserted_other order key k value level head items s valid n =
      elim (Option-cases (find f key items)) [
        | inl e ↦ rw (inserted, e) (find-place_other order key k _ items refl n)
        | inr (x, e) ↦ rw (inserted, e) (find-change_other f order key k value _ items n)
      ]

  -- handle_value whose callback throws on the value of a key, with an even sequence number, throws the
  -- same, and from then on get gives a fresh V for that key.
  pub get-threw :
      {A : Type 0} (order : IsOrder f.compare_func) (key : K) (head : Item K V)
      (items : List (Item K V)) (s : SkipList K V) (vh : V → Result (A × V)) (x : Item K V)
      (e : Exception)
      → IsSkipList f head items s
      → find f key items ≡ some x
      → x.seq % 2 ≡ 0
      → vh x.value ≡ threw e
      → (s' : SkipList K V) × (SkipList.handle_value f key vh s ≡ some (threw e, s'))
        × (SkipList.get f key s' ≡ some (returned f.no_value))
  get-threw {A = A} order key head items s vh x e valid found even h =
      let (s', r, v') = handle_value-changes f order key head items s valid vh x found in
      (
        s',
        r ∙ ap (λ (o : Result (A × V)). some (outcome f o x.value, s')) h,
        get-answer f order key head _ s' v'
            ∙ ap (λ (o : Option (Item K V)). some (answer f o))
                (find-change order key _ _ items x found
                  ∙ ap
                      (λ (o : Result (A × V)).
                        some (with_value (left_value f o x.value) (left_seq f o x.seq) x))
                      h)
            ∙ rw (odd_once x.seq even),
      )

  -- A value that is inserted is read back, and the other keys are as before.
  pub get-insert :
      (order : IsOrder f.compare_func) (key : K) (value : V) (level : ℕ) (head : Item K V)
      (items : List (Item K V)) (s : SkipList K V)
      → IsSkipList f head items s
      → ((x : Item K V) → find f key items ≡ some x → x.seq % 2 ≡ 0)
      → 0 < level
      → level ≤ s.max_level
      → (s' : SkipList K V) × (SkipList.insert f level key value s ≡ some s')
        × (SkipList.get f key s' ≡ some (returned value))
        × ((k : K) → key ≢ k → SkipList.get f k s' ≡ SkipList.get f k s)
  unfolding inserted
  get-insert order key value level head items s valid even pos_level fits =
      let (s', r, v') =
        insert-IsSkipList f order key value level head items s valid pos_level fits in
      (
        s',
        r,
        get-answer f order key head _ s' v'
            ∙ ap some (answer-inserted order key value level head items s valid even),
        λ k n.
            get-answer f order k head _ s' v'
            ∙ ap (λ (o : Option (Item K V)). some (answer f o))
                (find-inserted_other order key k value level head items s valid n)
            ∙ sym (get-answer f order k head items s valid),
      )
