-- ===== src/Structures/SkipList/Search.antt =====
-- include/common/ds/skip_list.h: the search ends behind the last node with a smaller key.
use Prim.Native.Nat.{Ordering}
use eya_kv.Prelude.{
  ℕ, zero, suc, ◌<◌, ◌≤◌, ◌≡◌, ◌≢◌, ◌⊎◌, inl, inr, refl, sym, ap, subst, ◌∙◌, Bool-cases, ltb,
  ltb→lt, Option, none, some, List, [], ◌∷◌, ◌++◌, append_assoc, length, length-append, arith,
}
use eya_kv.Codec.RoundTrip.{All}
use eya_kv.Structures.SkipList.{Node, Functions, load_next, advance, descend}
use eya_kv.Structures.SkipList.Items.{
  Item, first_at, node_of, Stored, last_at, IsTall, IsShort, get_elem-links, Stored-suffix,
  first_at-short, last_at-short,
}

pub Ordering-cases : (o : Ordering) → (o ≡ Ordering.lt) ⊎ ((o ≡ Ordering.eq) ⊎ (o ≡ Ordering.gt))
Ordering-cases Ordering.lt = inl refl
Ordering-cases Ordering.eq = inr (inl refl)
Ordering-cases Ordering.gt = inr (inr refl)

pub lt-cases : (o : Ordering) → (o ≡ Ordering.lt) ⊎ (o ≢ Ordering.lt)
lt-cases Ordering.lt = inl refl
lt-cases Ordering.eq = inr (λ h. cc h)
lt-cases Ordering.gt = inr (λ h. cc h)

module _ {K V : Type 0} where
  pub IsTall-cases :
      (i : ℕ) (l : List (Item K V))
      → All (IsShort i) l
        ⊎ ((l1 : List (Item K V)) × (y : Item K V) × (l2 : List (Item K V)) × (l ≡ l1 ++ y ∷ l2)
            × All (IsShort i) l1
            × IsTall i y)
  IsTall-cases i [] = inl tt
  IsTall-cases i (x ∷ l) = elim (Bool-cases (ltb i x.height)) [
    | inl tall ↦ inr ([], x, l, refl, tt, tall)
    | inr short ↦ (elim (IsTall-cases i l) [
      | inl all_short ↦ inl (short, all_short)
      | inr (l1, y, l2, e, s, t) ↦ inr (x ∷ l1, y, l2, ap (◌∷◌ x) e, (short, s), t)
    ])
  ]

  pub last_at-jump :
      (j : ℕ) (x : Item K V) (l1 : List (Item K V)) (y : Item K V) (l2 : List (Item K V))
      → IsTall j y
      → last_at j x (l1 ++ y ∷ l2) ≡ last_at j y l2
  unfolding last_at
  last_at-jump j x [] y l2 t = rw (t)
  last_at-jump j x (z ∷ l1) y l2 t = elim (Bool-cases (ltb j z.height)) [
    | inl e ↦ rw (e) (last_at-jump j z l1 y l2 t)
    | inr e ↦ rw (e) (last_at-jump j x l1 y l2 t)
  ]

  pub first_at-tall :
      (i : ℕ) (l1 : List (Item K V)) (y : Item K V) (l2 : List (Item K V))
      → All (IsShort i) l1
      → IsTall i y
      → first_at i (l1 ++ y ∷ l2) ≡ some y.address
  unfolding first_at
  first_at-tall i l1 y l2 s t = first_at-short i l1 (y ∷ l2) s ∙ rw (t)

  All-suffix : (P : Item K V → Type 0) (l1 l2 : List (Item K V)) → All P (l1 ++ l2) → All P l2
  All-suffix P [] l2 a = a
  All-suffix P (x ∷ l1) l2 a = All-suffix P l1 l2 a.1

  pub load_next-Stored :
      (cells : ℕ → Option (Node K V)) (i : ℕ) (x : Item K V) (l : List (Item K V))
      → Stored cells (x ∷ l)
      → i < x.height
      → load_next cells x.address i ≡ some (first_at i l)
  unfolding load_next Stored node_of
  load_next-Stored cells i x l s h =
      rw (load_next, s.0)
        (get_elem-links i 0 x.height l h ∙ ap (λ (k : ℕ). some (first_at k l)) (omega arith))

  -- The addresses of update[0] to update[i - 1].
  unfoldable pub updates : ℕ → Item K V → List (Item K V) → List ℕ
  updates zero x before = []
  updates (suc i) x before = updates i x before ++ (last_at i x before).address ∷ []

  updates-same :
      (n : ℕ) (x q : Item K V) (before rest : List (Item K V))
      → ((j : ℕ) → j < n → last_at j x before ≡ last_at j q rest)
      → updates n x before ≡ updates n q rest
  unfolding updates
  updates-same zero x q before rest e = refl
  updates-same (suc n) x q before rest e =
      ap (λ (l : List ℕ). l ++ (last_at n x before).address ∷ [])
        (updates-same n x q before rest (λ j k. e j (omega arith)))
      ∙ ap (λ (y : Item K V). updates n q rest ++ y.address ∷ []) (e n (omega arith))

module _ {K V : Type 0} (f : Functions K V) (key : K) where
  abbrev pub IsLess : Item K V → Type 0
  IsLess x = f.compare_func x.key key ≡ Ordering.lt

  abbrev pub IsNotLess : Item K V → Type 0
  IsNotLess x = f.compare_func x.key key ≢ Ordering.lt

module _ {K V : Type 0} (f : Functions K V) (key : K) (cells : ℕ → Option (Node K V))
    (after : List (Item K V)) (bound : All (IsNotLess f key) after) where
  -- Where the loop of level `i` stands that began at x.
  pub record Position (i : ℕ) (x : Item K V) (before : List (Item K V)) : Type 0 where
    pub last : Item K V
    pub rest : List (Item K V)
    pub stored : Stored cells (last ∷ rest ++ after)
    pub less : All (IsLess f key) rest
    pub short : All (IsShort i) rest
    pub tall : i < last.height
    pub lasts : (j : ℕ) → j ≤ i → last_at j x before ≡ last_at j last rest
    pub shorter : length rest ≤ length before

  -- The next node of a level behind the smaller ones is not smaller.
  blocked :
      (i : ℕ) (l : List (Item K V))
      → Stored cells l
      → All (IsNotLess f key) l
      → (first_at i l ≡ none)
        ⊎ ((q : ℕ) × (n : Node K V) × (first_at i l ≡ some q)
            × (cells q ≡ some n)
            × (f.compare_func n.key key ≢ Ordering.lt))
  unfolding first_at Stored node_of
  blocked i [] s b = inl refl
  blocked i (x ∷ l) s b = elim (Bool-cases (ltb i x.height)) [
    | inl tall ↦ inr (x.address, node_of x l, rw (tall), s.0, b.0)
    | inr short ↦ rw (short) (blocked i l s.1 b.1)
  ]

  blocked_behind :
      (i : ℕ) (before : List (Item K V))
      → All (IsShort i) before
      → Stored cells after
      → (first_at i (before ++ after) ≡ none)
        ⊎ ((q : ℕ) × (n : Node K V) × (first_at i (before ++ after) ≡ some q)
            × (cells q ≡ some n)
            × (f.compare_func n.key key ≢ Ordering.lt))
  blocked_behind i before short s =
      rw (first_at-short i before after short) (blocked i after s bound)

  -- One turn of the loop that ends it, and one that goes on.
  stops :
      (fuel i : ℕ) (x : Item K V) (l : List (Item K V))
      → Stored cells (x ∷ l)
      → i < x.height
      → (first_at i l ≡ none)
        ⊎ ((q : ℕ) × (n : Node K V) × (first_at i l ≡ some q)
            × (cells q ≡ some n)
            × (f.compare_func n.key key ≢ Ordering.lt))
      → advance f (suc fuel) i key cells x.address ≡ some x.address
  unfolding advance
  stops fuel i x l s h (inl e) = rw (advance, load_next-Stored cells i x l s h, e)
  stops fuel i x l s h (inr (q, n, e, c, b)) = elim (Ordering-cases (f.compare_func n.key key)) [
    | inl lt ↦ absurd (b lt)
    | inr (inl eq) ↦ rw (advance, load_next-Stored cells i x l s h, e, c, eq)
    | inr (inr gt) ↦ rw (advance, load_next-Stored cells i x l s h, e, c, gt)
  ]

  goes_on :
      (fuel i : ℕ) (x y : Item K V) (l l2 : List (Item K V))
      → Stored cells (x ∷ l)
      → i < x.height
      → first_at i l ≡ some y.address
      → Stored cells (y ∷ l2)
      → IsLess f key y
      → advance f (suc fuel) i key cells x.address ≡ advance f fuel i key cells y.address
  unfolding advance Stored node_of
  goes_on fuel i x y l l2 s h e c less =
      rw (advance, load_next-Stored cells i x l s h, e, c.0, less)

  here :
      (i : ℕ) (x : Item K V) (before : List (Item K V))
      → Stored cells (x ∷ before ++ after)
      → All (IsLess f key) before
      → All (IsShort i) before
      → i < x.height
      → Position i x before
  here i x before s l a h = record {
    last = x;
    rest = before;
    stored = s;
    less = l;
    short = a;
    tall = h;
    lasts = λ j k. refl;
    shorter = omega arith;
  }

  -- A position of a later node is one of an earlier node.
  further :
      (i : ℕ) (x : Item K V) (before l1 : List (Item K V)) (y : Item K V) (l2 : List (Item K V))
      → before ≡ l1 ++ y ∷ l2
      → IsTall i y
      → Position i y l2
      → Position i x before
  further i x before l1 y l2 e t p = record {
    last = p.last;
    rest = p.rest;
    stored = p.stored;
    less = p.less;
    short = p.short;
    tall = p.tall;
    lasts =
        λ j k. ap (last_at j x) e ∙ last_at-jump j x l1 y l2 (ground (arith, t, k)) ∙ p.lasts j k;
    shorter = omega (arith, p.shorter, length-append l1 (y ∷ l2), ap length e);
  }

  pub advance-Position :
      (fuel i : ℕ) (x : Item K V) (before : List (Item K V))
      → Stored cells (x ∷ before ++ after)
      → All (IsLess f key) before
      → i < x.height
      → length before < fuel
      → (p : Position i x before) × (advance f fuel i key cells x.address ≡ some p.last.address)
  unfolding Stored here further
  advance-Position zero i x before s l h k = absurd (omega arith)
  advance-Position (suc fuel) i x before s l h k = elim (IsTall-cases i before) [
    | inl short ↦ (
      here i x before s l short h,
      stops fuel i x (before ++ after) s h
          (blocked_behind i before short (Stored-suffix cells (x ∷ before) after s)),
    )
    | inr (l1, y, l2, e, short, t) ↦
        (let moved = ap (◌++ after) e ∙ append_assoc l1 (y ∷ l2) after in
          let stored =
            Stored-suffix cells (x ∷ l1) (y ∷ l2 ++ after)
              (subst (λ m. Stored cells (x ∷ m)) moved s) in
          let less = All-suffix (IsLess f key) l1 (y ∷ l2) (subst (All (IsLess f key)) e l) in
          let (p, found) =
            advance-Position fuel i y l2 stored less.1 (ltb→lt i y.height t)
              (omega (arith, k, length-append l1 (y ∷ l2), ap length e)) in
          (
            further i x before l1 y l2 e t p,
            goes_on fuel i x y (before ++ after) (l2 ++ after) s h
                  (ap (first_at i) moved ∙ first_at-tall i l1 y (l2 ++ after) short t) stored less.0
                ∙ found,
          ))
  ]

  last-Position :
      (i : ℕ) (x : Item K V) (before : List (Item K V)) (p : Position i x before)
      → last_at i x before ≡ p.last
  last-Position i x before p = p.lasts i (omega arith) ∙ last_at-short i p.last p.rest p.short

  -- A position that a lower level reaches from there.
  lower :
      (i : ℕ) (x : Item K V) (before : List (Item K V)) (p : Position i x before)
      → Position 0 p.last p.rest
      → Position 0 x before
  lower i x before p q = record {
    last = q.last;
    rest = q.rest;
    stored = q.stored;
    less = q.less;
    short = q.short;
    tall = q.tall;
    lasts = λ j k. p.lasts j (omega (arith, k)) ∙ q.lasts j k;
    shorter = omega (arith, p.shorter, q.shorter);
  }

  -- From a level on, the loops end on level 0 with the positions of all levels.
  pub descend-Position :
      (fuel i : ℕ) (x : Item K V) (before : List (Item K V))
      → Stored cells (x ∷ before ++ after)
      → All (IsLess f key) before
      → i < x.height
      → length before < fuel
      → (p : Position 0 x before) × (descend f fuel (suc i) key cells x.address
          ≡ some (p.last.address, updates (suc i) x before))
  unfolding descend updates lower
  descend-Position fuel zero x before s l h k =
      let (p, found) = advance-Position fuel 0 x before s l h k in
      (
        p,
        rw (descend, found)
            (ap (λ (y : Item K V). some (p.last.address, y.address ∷ []))
              (sym (last-Position 0 x before p))),
      )
  descend-Position fuel (suc i) x before s l h k =
      let (p, found) = advance-Position fuel (suc i) x before s l h k in
      let (q, ended) =
        descend-Position fuel i p.last p.rest p.stored p.less (omega (arith, p.tall))
          (omega (arith, p.shorter, k)) in
      let same =
        updates-same (suc i) x p.last before p.rest (λ j k. p.lasts j (omega (arith, k))) in
      (
        lower (suc i) x before p q,
        rw (descend, found, ended)
            (ap (λ (m : List ℕ). some (q.last.address, m ++ p.last.address ∷ [])) (sym same)
              ∙ ap
                  (λ (y : Item K V).
                    some (q.last.address, updates (suc i) x before ++ y.address ∷ []))
                  (sym (last-Position (suc i) x before p))),
      )

  pub descended :
      (fuel n : ℕ) (x : Item K V) (before : List (Item K V))
      → Stored cells (x ∷ before ++ after)
      → All (IsLess f key) before
      → 0 < n
      → n ≤ x.height
      → length before < fuel
      → (p : Position 0 x before) × (descend f fuel n key cells x.address
          ≡ some (p.last.address, updates n x before))
  descended fuel zero x before s l some_level fits k = absurd (omega arith)
  descended fuel (suc i) x before s l some_level fits k =
      descend-Position fuel i x before s l (omega (arith, fits)) k
