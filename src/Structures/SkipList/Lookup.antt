-- ===== src/Structures/SkipList/Lookup.antt =====
-- include/common/ds/skip_list.h: get finds what the list holds.
use Prim.Native.Nat.{Ordering}
use eya_kv.Prelude.{
  ℕ, ◌+◌, ◌%◌, ◌<◌, ◌≤◌, ◌≡◌, ◌⊎◌, inl, inr, refl, sym, ap, subst, ◌∙◌, false, ◌==◌, if◌then◌else◌,
  Option, none, some, List, [], ◌∷◌, ◌++◌, length, length-append, arith,
}
use eya_kv.Effects.{Result, returned, threw, out_of_range}
use eya_kv.Codec.RoundTrip.{All}
use eya_kv.Structures.SkipList
use eya_kv.Structures.SkipList.{
  Node, SkipList, Functions, load_next, descend, search_key, match_key, get_value,
}
use eya_kv.Structures.SkipList.Items.{
  Item, first_at, node_of, Stored, Stored-suffix, first_at-short,
}
use eya_kv.Structures.SkipList.Search.{
  Ordering-cases, lt-cases, IsLess, IsNotLess, updates, descended, load_next-Stored,
}

-- What a comparison must be for a list to be sorted by it.
pub record IsOrder {K : Type 0} (compare_func : K → K → Ordering) : Type 0 where
  pub lt_trans :
      (a b c : K)
      → compare_func a b ≡ Ordering.lt
      → compare_func b c ≡ Ordering.lt
      → compare_func a c ≡ Ordering.lt
  pub eq_sound : (a b : K) → compare_func a b ≡ Ordering.eq → a ≡ b
  pub eq_refl : (a : K) → compare_func a a ≡ Ordering.eq
  pub gt_flip : (a b : K) → compare_func a b ≡ Ordering.gt → compare_func b a ≡ Ordering.lt

module _ {K V : Type 0} where
  abbrev pub Distinct : List (Item K V) → Type 0
  Distinct [] = Unit {0}
  Distinct (x ∷ l) = All (λ (y : Item K V). (y.address == x.address) ≡ false) l × Distinct l

  pub first_at-high :
      (x : Item K V) (l : List (Item K V)) → 0 < x.height → first_at 0 (x ∷ l) ≡ some x.address
  unfolding first_at
  first_at-high x l h = ground (arith, h)

module _ {K V : Type 0} (f : Functions K V) where
  abbrev pub IsSorted : List (Item K V) → Type 0
  IsSorted [] = Unit {0}
  IsSorted (x ∷ l) = All (λ (y : Item K V). f.compare_func x.key y.key ≡ Ordering.lt) l × IsSorted l

  -- The nodes behind head_ are `items`.
  pub record IsSkipList (head : Item K V) (items : List (Item K V)) (s : SkipList K V)
      : Type 0 where
    pub stored : Stored s.cells (head ∷ items)
    pub first : head.address ≡ 0
    pub top : head.height ≡ s.max_level
    pub some_level : 0 < s.current_level
    pub level_fits : s.current_level ≤ s.max_level
    pub count : s.size ≡ length items
    pub sorted : IsSorted items
    pub high : All (λ (x : Item K V). 0 < x.height) items
    pub low : All (λ (x : Item K V). x.height ≤ s.current_level) items
    pub distinct : Distinct (head ∷ items)
    pub fresh : All (λ (x : Item K V). x.address < s.fresh) (head ∷ items)

  -- the node with the key
  abbrev pub find : K → List (Item K V) → Option (Item K V)
  find key [] = none
  find key (x ∷ l) = elim (f.compare_func x.key key) [ Ordering.eq ↦ some x | _ ↦ find key l ]

  -- what get_value gives
  abbrev pub answer : Option (Item K V) → Result V
  answer none = threw out_of_range
  answer (some x) = returned (if x.seq % 2 == 1 then f.no_value else x.value)

  -- The list as the search for a key splits it.
  pub record Split (key : K) (items : List (Item K V)) : Type 0 where
    pub before : List (Item K V)
    pub after : List (Item K V)
    pub whole : items ≡ before ++ after
    pub less : All (IsLess f key) before
    pub bound : All (IsNotLess f key) after

  module _ (order : IsOrder f.compare_func) (key : K) where
    IsNotLess-after :
        (x : Item K V) (l : List (Item K V))
        → All (λ (y : Item K V). f.compare_func x.key y.key ≡ Ordering.lt) l
        → IsNotLess f key x
        → All (IsNotLess f key) l
    IsNotLess-after x [] a n = tt
    IsNotLess-after x (y ∷ l) a n =
        (λ h. n (order.lt_trans x.key y.key key a.0 h), IsNotLess-after x l a.1 n)

    pub split : (items : List (Item K V)) → IsSorted items → Split key items
    split [] s = record { before = []; after = []; whole = refl; less = tt; bound = tt }
    split (x ∷ l) s = elim (lt-cases (f.compare_func x.key key)) [
      | inl lt ↦
          (let p = split l s.1 in
            record {
              before = x ∷ p.before;
              after = p.after;
              whole = ap (◌∷◌ x) p.whole;
              less = (lt, p.less);
              bound = p.bound;
            })
      | inr n ↦ record {
        before = [];
        after = x ∷ l;
        whole = refl;
        less = tt;
        bound = (n, IsNotLess-after x l s.0 n);
      }
    ]

    pub find-less :
        (before after : List (Item K V))
        → All (IsLess f key) before
        → find key (before ++ after) ≡ find key after
    find-less [] after l = refl
    find-less (x ∷ before) after l = rw (l.0) (find-less before after l.1)

    -- A key that is not equal to the first one that is not smaller is nowhere.
    pub find-none :
        (x : Item K V) (l : List (Item K V))
        → All (λ (y : Item K V). f.compare_func x.key y.key ≡ Ordering.lt) l
        → IsNotLess f key x
        → find key l ≡ none
    find-none x [] a n = refl
    find-none x (y ∷ l) a n = elim (Ordering-cases (f.compare_func y.key key)) [
      | inl lt ↦ rw (find, lt) (find-none x l a.1 n)
      | inr (inl eq) ↦
          absurd (
            n (subst (λ k. f.compare_func x.key k ≡ Ordering.lt) (order.eq_sound y.key key eq) a.0))
      | inr (inr gt) ↦ rw (find, gt) (find-none x l a.1 n)
    ]

    -- What the search leaves: the node behind the smaller ones, if its key is the one looked for.
    matched :
        (cells : ℕ → Option (Node K V)) (after : List (Item K V))
        → Stored cells after
        → IsSorted after
        → All (IsNotLess f key) after
        → All (λ (x : Item K V). 0 < x.height) after
        → ((match_key f key (first_at 0 after) cells ≡ some none) × (find key after ≡ none))
          ⊎ ((x : Item K V) × (l : List (Item K V)) × (after ≡ x ∷ l)
              × (x.key ≡ key)
              × (match_key f key (first_at 0 after) cells ≡ some (some (x.address, node_of x l)))
              × (find key after ≡ some x))
    unfolding match_key first_at Stored node_of
    matched cells [] st so b h = inl (refl, refl)
    matched cells (x ∷ l) st so b h = elim (Ordering-cases (f.compare_func x.key key)) [
      | inl lt ↦ absurd (b.0 lt)
      | inr (inl eq) ↦ inr (
        x,
        l,
        refl,
        order.eq_sound x.key key eq,
        ap (λ (o : Option ℕ). match_key f key o cells) (first_at-high x l h.0)
            ∙ rw (match_key, st.0, eq),
        rw (find, eq),
      )
      | inr (inr gt) ↦ inl (
        ap (λ (o : Option ℕ). match_key f key o cells) (first_at-high x l h.0)
            ∙ rw (match_key, st.0, gt),
        rw (find, gt) (find-none x l so.0 b.0),
      )
    ]

  All-append : (P : Item K V → Type 0) (l1 l2 : List (Item K V)) → All P (l1 ++ l2) → All P l2
  All-append P [] l2 a = a
  All-append P (x ∷ l1) l2 a = All-append P l1 l2 a.1

  IsSorted-suffix : (l1 l2 : List (Item K V)) → IsSorted (l1 ++ l2) → IsSorted l2
  IsSorted-suffix [] l2 s = s
  IsSorted-suffix (x ∷ l1) l2 s = IsSorted-suffix l1 l2 s.1

  module _ (order : IsOrder f.compare_func) (key : K) (head : Item K V) (items : List (Item K V))
      (s : SkipList K V) (valid : IsSkipList head items s) where
    pub splits : Split key items
    splits = split order key items valid.sorted

    pub stored_splits : Stored s.cells (head ∷ splits.before ++ splits.after)
    stored_splits = subst (λ m. Stored s.cells (head ∷ m)) splits.whole valid.stored

    -- The loops of a search reach the node in front of the first that is not smaller.
    pub search_key-splits :
        search_key f key s
        ≡ some (first_at 0 splits.after, updates s.current_level head splits.before)
    unfolding search_key
    search_key-splits =
        let (p, found) =
          descended f key s.cells splits.after splits.bound (s.size + 1) s.current_level head
            splits.before stored_splits splits.less valid.some_level
            (omega (arith, valid.top, valid.level_fits))
            (omega (
              arith,
              valid.count,
              ap length splits.whole,
              length-append splits.before splits.after,
            )) in
        rw (
          search_key,
          ap (descend f (s.size + 1) s.current_level key s.cells) (sym valid.first) ∙ found,
          load_next-Stored s.cells 0 p.last (p.rest ++ splits.after) p.stored p.tall,
          first_at-short 0 p.rest splits.after p.short,
        )

    pub matches :
        ((match_key f key (first_at 0 splits.after) s.cells ≡ some none) × (find key items ≡ none))
        ⊎ ((x : Item K V) × (l : List (Item K V)) × (splits.after ≡ x ∷ l)
            × (x.key ≡ key)
            × (match_key f key (first_at 0 splits.after) s.cells
                ≡ some (some (x.address, node_of x l)))
            × (find key items ≡ some x))
    matches =
        let same =
          ap (find key) splits.whole ∙ find-less order key splits.before splits.after splits.less in
        elim (matched order key s.cells splits.after
          (Stored-suffix s.cells (head ∷ splits.before) splits.after stored_splits)
          (IsSorted-suffix splits.before splits.after (subst IsSorted splits.whole valid.sorted))
          splits.bound
          (All-append (λ (x : Item K V). 0 < x.height) splits.before splits.after
            (subst (All (λ (x : Item K V). 0 < x.height)) splits.whole valid.high))) [
              | inl (m, none_found) ↦ inl (m, same ∙ none_found)
              | inr (x, l, e, k, m, found) ↦ inr (x, l, e, k, m, same ∙ found)
            ]

    -- In a skip list whose nodes are in order and linked on all their levels, the search of get ends within
    -- its fuel, one turn more than there are nodes on each level: get gives the value of the node with the
    -- key, a fresh V where its sequence number is odd, and throws out_of_range where no node has the key.
    pub get-answer : SkipList.get f key s ≡ some (answer (find key items))
    unfolding SkipList.get get_value node_of
    get-answer = elim matches [
      | inl (m, e) ↦ rw (SkipList.get, search_key-splits, m, e)
      | inr (x, l, w, k, m, e) ↦ rw (SkipList.get, search_key-splits, m, e)
    ]
