-- ===== src/Structures/SkipList/Holds.antt =====
-- include/common/ds/skip_list.h: insert puts a new key where it belongs.
use Prim.Native.Nat.{Ordering}
use eya_kv.Prelude.{
  ℕ, ◌+◌, ◌<◌, ◌≤◌, ◌≡◌, refl, sym, ap, subst, ◌∙◌, inl, inr, false, ◌==◌, ==-refl, Option, none,
  some, List, [], ◌∷◌, ◌++◌, length-append, arith,
}
use eya_kv.Codec.RoundTrip.{All}
use eya_kv.Structures.SkipList.{Node, SkipList, Functions, write_cell, link_node, resize, node_size}
use eya_kv.Structures.SkipList.Items.{Item, node_of, Stored, Stored-suffix}
use eya_kv.Structures.SkipList.Search.{Ordering-cases, IsLess, IsNotLess}
use eya_kv.Structures.SkipList.Lookup.{IsOrder, Distinct, IsSorted, IsSkipList, find}
use eya_kv.Structures.SkipList.Update.{Stored-other}
use eya_kv.Structures.SkipList.Link.{updates_from, up_to, StoredBefore}
use eya_kv.Structures.SkipList.Loops.{store_all-links}
use eya_kv.Structures.SkipList.Insert.{
  load_all-links, StoredBefore-unlinked, Stored-whole, All-weaken,
}

module _ {ℓ} {A : Type ℓ} (P : A → Type 0) where
  pub All-prefix : (l1 l2 : List A) → All P (l1 ++ l2) → All P l1
  All-prefix [] l2 a = tt
  All-prefix (x ∷ l1) l2 a = (a.0, All-prefix l1 l2 a.1)

  All-rest : (l1 l2 : List A) → All P (l1 ++ l2) → All P l2
  All-rest [] l2 a = a
  All-rest (x ∷ l1) l2 a = All-rest l1 l2 a.1

  All-between : (l1 : List A) (x : A) (l2 : List A) → P x → All P (l1 ++ l2) → All P (l1 ++ x ∷ l2)
  All-between [] x l2 p a = (p, a)
  All-between (y ∷ l1) x l2 p a = (a.0, All-between l1 x l2 p a.1)

module _ {K V : Type 0} where
  abbrev pub new_item : ℕ → K → V → ℕ → Item K V
  new_item address key value height = record {
    address = address;
    key = key;
    value = value;
    seq = 0;
    height = height;
  }

  Distinct-prefix : (l1 l2 : List (Item K V)) → Distinct (l1 ++ l2) → Distinct l1
  Distinct-prefix [] l2 d = tt
  Distinct-prefix (x ∷ l1) l2 d = (All-prefix _ l1 l2 d.0, Distinct-prefix l1 l2 d.1)

  -- An address that no node has yet.
  unused :
      (p : ℕ) (l : List (Item K V))
      → All (λ (y : Item K V). y.address < p) l
      → All (λ (y : Item K V). (y.address == p) ≡ false) l
  unused p [] a = tt
  unused p (y ∷ l) a = (ground (arith, a.0), unused p l a.1)

  older :
      (p : ℕ) (l : List (Item K V))
      → All (λ (y : Item K V). y.address < p) l
      → All (λ (y : Item K V). y.address < p + 1) l
  older p [] a = tt
  older p (y ∷ l) a = (omega (arith, a.0), older p l a.1)

  apart :
      (x : Item K V) (l after : List (Item K V))
      → Distinct (l ++ after)
      → All (λ (y : Item K V). y.address < x.address) l
      → All
          (λ (y : Item K V). All (λ (z : Item K V). (z.address == y.address) ≡ false) (x ∷ after))
          l
  apart x [] after d a = tt
  apart x (y ∷ l) after d a =
      ((ground (arith, a.0), All-rest _ l after d.0), apart x l after d.1 a.1)

  Distinct-between :
      (l1 : List (Item K V)) (x : Item K V) (l2 : List (Item K V))
      → Distinct (l1 ++ l2)
      → All (λ (y : Item K V). y.address < x.address) (l1 ++ l2)
      → Distinct (l1 ++ x ∷ l2)
  Distinct-between [] x l2 d a = (unused x.address l2 a, d)
  Distinct-between (y ∷ l1) x l2 d a =
      (All-between _ l1 x l2 (ground (arith, a.0)) d.0, Distinct-between l1 x l2 d.1 a.1)

module _ {K V : Type 0} (f : Functions K V) where
  IsSorted-between :
      (l1 : List (Item K V)) (x : Item K V) (l2 : List (Item K V))
      → IsSorted f (l1 ++ l2)
      → All (λ (y : Item K V). f.compare_func y.key x.key ≡ Ordering.lt) l1
      → All (λ (y : Item K V). f.compare_func x.key y.key ≡ Ordering.lt) l2
      → IsSorted f (l1 ++ x ∷ l2)
  IsSorted-between [] x l2 s a b = (b, s)
  IsSorted-between (y ∷ l1) x l2 s a b =
      (All-between _ l1 x l2 a.0 s.0, IsSorted-between l1 x l2 s.1 a.1 b)

  -- The keys that are neither smaller nor equal are greater.
  greater :
      (order : IsOrder f.compare_func) (key : K) (l : List (Item K V))
      → All (IsNotLess f key) l
      → find f key l ≡ none
      → All (λ (y : Item K V). f.compare_func key y.key ≡ Ordering.lt) l
  greater order key [] b e = tt
  greater order key (y ∷ l) b e = elim (Ordering-cases (f.compare_func y.key key)) [
    | inl lt ↦ absurd (b.0 lt)
    | inr (inl eq) ↦ (let found : find f key (y ∷ l) ≡ some y = rw (find, eq) in cc (found, e))
    | inr (inr gt) ↦ (
      order.gt_flip y.key key gt,
      greater order key l b.1
          (sym (ap (λ (o : Ordering). elim o [ Ordering.eq ↦ some y | _ ↦ find f key l ]) gt) ∙ e),
    )
  ]

  -- The node of a new key at its place.
  pub linked :
      (head : Item K V) (before after : List (Item K V)) (s : SkipList K V) (key : K) (value : V)
      (level : ℕ)
      → Stored s.cells (head ∷ before ++ after)
      → Distinct (head ∷ before ++ after)
      → All (λ (y : Item K V). y.address < s.fresh) (head ∷ before ++ after)
      → level ≤ head.height
      → (cells' : ℕ → Option (Node K V)) × (link_node f level
            (updates_from 0 level head before)
            key
            value
            s
          ≡ some (
              resize
                (f.key_size key + f.value_size value + node_size f level)
                0
                (record s { cells = cells'; fresh = s.fresh + 1; size = s.size + 1 })))
        × Stored cells' (head ∷ before ++ new_item s.fresh key value level ∷ after)
  unfolding link_node Stored node_of
  linked head before after s key value level st d a h =
      let x = new_item s.fresh key value level in
      let old = All-prefix (λ (y : Item K V). y.address < s.fresh) (head ∷ before) after a in
      let cells = write_cell s.fresh (some (node_of x after)) s.cells in
      let new : Stored cells (x ∷ after) = (
        rw (write_cell, ==-refl s.fresh),
        Stored-other s.cells s.fresh (some (node_of x after)) after
            (unused s.fresh after
              (All-rest (λ (y : Item K V). y.address < s.fresh) (head ∷ before) after a))
            (Stored-suffix s.cells (head ∷ before) after st),
      ) in
      let (cells', r, b, t) =
        store_all-links level 0 head before x after (x ∷ after) cells (omega (arith, h))
          (Distinct-prefix (head ∷ before) after d) (apart x (head ∷ before) after d old)
          (StoredBefore-unlinked s.cells (some (node_of x after)) (head ∷ before) x after
            (unused s.fresh (head ∷ before) old) st)
          new in
      (
        cells',
        rw (link_node, load_all-links level 0 head before after s.cells (omega (arith, h)) st, r),
        Stored-whole cells' (head ∷ before) (x ∷ after)
            (subst (λ (m : ℕ). StoredBefore cells' (head ∷ before) (up_to m x ∷ after))
              (omega arith) b)
            t,
      )

  -- The new node is put in front of the first one that is not smaller.
  unfoldable pub place : K → Item K V → List (Item K V) → List (Item K V)
  place key x [] = x ∷ []
  place key x (y ∷ l) =
      let rest = place key x l in
      elim (f.compare_func y.key key) [ Ordering.lt ↦ y ∷ rest | _ ↦ x ∷ y ∷ l ]

  pub place-between :
      (key : K) (x : Item K V) (before after : List (Item K V))
      → All (IsLess f key) before
      → All (IsNotLess f key) after
      → place key x (before ++ after) ≡ before ++ x ∷ after
  unfolding place
  place-between key x [] [] a b = refl
  place-between key x [] (y ∷ after) a b = elim (Ordering-cases (f.compare_func y.key key)) [
    | inl lt ↦ absurd (b.0 lt)
    | inr (inl eq) ↦ rw (place, eq)
    | inr (inr gt) ↦ rw (place, gt)
  ]
  place-between key x (y ∷ before) after a b =
      rw (place, a.0, place-between key x before after a.1 b)

  pub held :
      (order : IsOrder f.compare_func) (head : Item K V) (before after : List (Item K V))
      (s : SkipList K V) (key : K) (value : V) (level current bytes : ℕ)
      (cells' : ℕ → Option (Node K V))
      → IsSkipList f head (before ++ after) s
      → All (IsLess f key) before
      → All (IsNotLess f key) after
      → find f key after ≡ none
      → 0 < level
      → level ≤ current
      → s.current_level ≤ current
      → current ≤ s.max_level
      → Stored cells' (head ∷ before ++ new_item s.fresh key value level ∷ after)
      → IsSkipList f head (before ++ new_item s.fresh key value level ∷ after) (record s {
        cells = cells';
        fresh = s.fresh + 1;
        size = s.size + 1;
        current_level = current;
        current_size = bytes;
      })
  held order head before after s key value level current bytes cells' valid less bound none_found
        pos_level fits grows tops st =
      let x = new_item s.fresh key value level in
      record {
        stored = st;
        first = valid.first;
        top = valid.top;
        some_level = omega (arith, valid.some_level);
        level_fits = tops;
        count =
            omega
              (arith, valid.count, length-append before after, length-append before (x ∷ after));
        sorted =
            IsSorted-between before x after valid.sorted less
              (greater order key after bound none_found);
        high = All-between _ before x after pos_level valid.high;
        low =
            All-between _ before x after fits
              (All-weaken s.current_level current (before ++ after) grows valid.low);
        distinct = Distinct-between (head ∷ before) x after valid.distinct valid.fresh;
        fresh =
            All-between (λ (y : Item K V). y.address < s.fresh + 1) (head ∷ before) x after
              (omega arith) (older s.fresh (head ∷ before ++ after) valid.fresh);
      }
