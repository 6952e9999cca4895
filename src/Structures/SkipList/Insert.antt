-- ===== src/Structures/SkipList/Insert.antt =====
-- include/common/ds/skip_list.h: insert.
use eya_kv.Prelude.{
  ℕ, zero, suc, ◌+◌, ◌-◌, ◌≤◌, ◌≡◌, ◌⊎◌, refl, sym, ap, ◌∙◌, Bool-cases, inl, inr, false, ltb,
  ltb→lt, ◌==◌, Option, some, List, [], ◌∷◌, ◌++◌, take, replicate, arith,
}
use eya_kv.Codec.RoundTrip.{All}
use eya_kv.Structures.SkipList.{Node, SkipList, write_cell, load_next, load_all, raise_level}
use eya_kv.Structures.SkipList.Items.{Item, first_at, links, node_of, Stored, last_at}
use eya_kv.Structures.SkipList.Search.{load_next-Stored, updates}
use eya_kv.Structures.SkipList.Link.{StoredBefore, updates_from, up_to, first_at-none, links-ext}

module _ {K V : Type 0} where
  load_next-last :
      (cells : ℕ → Option (Node K V)) (j : ℕ) (x : Item K V) (before after : List (Item K V))
      → load_next cells x.address j ≡ some (first_at j (before ++ after))
      → Stored cells (before ++ after)
      → load_next cells (last_at j x before).address j ≡ some (first_at j after)
  unfolding last_at Stored first_at
  load_next-last cells j x [] after e s = e
  load_next-last cells j x (y ∷ l) after e s = elim (Bool-cases (ltb j y.height)) [
    | inl tall ↦ rw (tall) (
        load_next-last cells j y l after
          (load_next-Stored cells j y (l ++ after) s (ltb→lt j y.height tall)) s.1)
    | inr short ↦ rw (short) (load_next-last cells j x l after (e ∙ rw (short)) s.1)
  ]

  -- The first loop of insert.
  pub load_all-links :
      (n i : ℕ) (head : Item K V) (before after : List (Item K V)) (cells : ℕ → Option (Node K V))
      → i + n ≤ head.height
      → Stored cells (head ∷ before ++ after)
      → load_all i (updates_from i n head before) cells ≡ some (links i n after)
  unfolding load_all updates_from links Stored
  load_all-links zero i head before after cells h s = refl
  load_all-links (suc n) i head before after cells h s = rw (
    load_all,
    load_next-last cells i head before after
        (load_next-Stored cells i head (before ++ after) s (omega (arith, h))) s.1,
    load_all-links n (suc i) head before after cells (omega (arith, h)) s,
  )

  updates_from-snoc :
      (n i : ℕ) (x : Item K V) (before : List (Item K V))
      → updates_from i (suc n) x before
        ≡ updates_from i n x before ++ (last_at (i + n) x before).address ∷ []
  unfolding updates_from
  updates_from-snoc zero i x before =
      ap (λ (j : ℕ). (last_at j x before).address ∷ []) (omega arith)
  updates_from-snoc (suc n) i x before = ap (◌∷◌ (last_at i x before).address) (
      updates_from-snoc n (suc i) x before
      ∙ ap (λ (j : ℕ). updates_from (suc i) n x before ++ (last_at j x before).address ∷ [])
          (omega arith))

  updates-updates_from :
      (n : ℕ) (x : Item K V) (before : List (Item K V))
      → updates n x before ≡ updates_from 0 n x before
  unfolding updates updates_from
  updates-updates_from zero x before = refl
  updates-updates_from (suc n) x before =
      ap (λ (l : List ℕ). l ++ (last_at n x before).address ∷ []) (updates-updates_from n x before)
      ∙ ap (λ (j : ℕ). updates_from 0 n x before ++ (last_at j x before).address ∷ []) (omega arith)
      ∙ sym (updates_from-snoc n 0 x before)

  updates_from-append :
      (m k i : ℕ) (x : Item K V) (before : List (Item K V))
      → updates_from i (m + k) x before
        ≡ updates_from i m x before ++ updates_from (i + m) k x before
  unfolding updates_from
  updates_from-append zero k i x before =
      ap (λ (j : ℕ). updates_from i j x before) (omega arith)
      ∙ ap (λ (j : ℕ). updates_from j k x before) (omega arith)
  updates_from-append (suc m) k i x before =
      let longer : suc m + k ≡ suc (m + k) = omega arith in
      let later : suc i + m ≡ i + suc m = omega arith in
      ap (λ (j : ℕ). updates_from i j x before) longer
      ∙ ap (◌∷◌ (last_at i x before).address) (
          updates_from-append m k (suc i) x before
          ∙ ap (λ (j : ℕ). updates_from (suc i) m x before ++ updates_from j k x before) later)

  last_at-high :
      (i : ℕ) (x : Item K V) (before : List (Item K V))
      → All (λ (y : Item K V). y.height ≤ i) before
      → last_at i x before ≡ x
  unfolding last_at
  last_at-high i x [] a = refl
  last_at-high i x (y ∷ l) a = ground (arith, a.0, last_at-high i x l a.1)

  pub All-weaken :
      (i j : ℕ) (l : List (Item K V))
      → i ≤ j
      → All (λ (y : Item K V). y.height ≤ i) l
      → All (λ (y : Item K V). y.height ≤ j) l
  All-weaken i j [] h a = tt
  All-weaken i j (y ∷ l) h a = (omega (arith, h, a.0), All-weaken i j l h a.1)

  updates_from-high :
      (k i : ℕ) (x : Item K V) (before : List (Item K V))
      → All (λ (y : Item K V). y.height ≤ i) before
      → updates_from i k x before ≡ replicate k x.address
  unfolding updates_from
  updates_from-high zero i x before a = refl
  updates_from-high (suc k) i x before a = rw (
    last_at-high i x before a,
    updates_from-high k (suc i) x before (All-weaken i (suc i) before (omega arith) a),
  )

  take-updates_from :
      (n m i : ℕ) (x : Item K V) (before : List (Item K V))
      → n ≤ m
      → take n (updates_from i m x before) ≡ updates_from i n x before
  unfolding updates_from
  take-updates_from zero m i x before h = refl
  take-updates_from (suc n) zero i x before h = absurd (omega arith)
  take-updates_from (suc n) (suc m) i x before h =
      ap (◌∷◌ (last_at i x before).address) (take-updates_from n m (suc i) x before (omega arith))

  -- The levels above the current one begin at head_.
  pub raise_level-updates :
      (level : ℕ) (head : Item K V) (before : List (Item K V)) (s : SkipList K V)
      → head.address ≡ 0
      → All (λ (y : Item K V). y.height ≤ s.current_level) before
      → (current : ℕ) × (raise_level level (updates s.current_level head before) s
          ≡ (updates_from 0 level head before, record s { current_level = current }))
        × (s.current_level ≤ current)
        × (level ≤ current)
        × ((current ≡ level) ⊎ (current ≡ s.current_level))
  unfolding raise_level
  raise_level-updates level head before s z low = elim (Bool-cases (ltb s.current_level level)) [
    | inl e ↦
        (let same : level ≡ s.current_level + (level - s.current_level) = ground (arith, e) in
          (
            level,
            rw (e, updates-updates_from s.current_level head before)
                (ap (λ (l : List ℕ). (l, record s { current_level = level }))
                  (sym (
                    ap (λ (j : ℕ). updates_from 0 j head before) same
                    ∙ updates_from-append s.current_level (level - s.current_level) 0 head before
                    ∙ ap (updates_from 0 s.current_level head before ++◌) (
                        updates_from-high (level - s.current_level) (0 + s.current_level) head
                          before
                          (All-weaken s.current_level (0 + s.current_level) before (omega arith)
                            low)
                        ∙ ap (replicate (level - s.current_level)) z)))),
            ground (arith, e),
            omega arith,
            inl refl,
          ))
    | inr e ↦ (
      s.current_level,
      rw (
        e,
        updates-updates_from s.current_level head before,
        take-updates_from level s.current_level 0 head before (ground (arith, e)),
      ),
      omega arith,
      ground (arith, e),
      inr refl,
    )
  ]

  node_of-unlinked :
      (z : Item K V) (l : List (Item K V)) (x : Item K V) (after : List (Item K V))
      → node_of z (l ++ after) ≡ node_of z (l ++ up_to 0 x ∷ after)
  unfolding node_of
  node_of-unlinked z l x after =
      ap
        (λ (next : List (Option ℕ)). record {
          key = z.key;
          value = z.value;
          seq = z.seq;
          next = next;
        })
        (links-ext 0 z.height _ _ (λ i _ _. sym (first_at-none i l x after)))

  -- The new node is in the heap, and no other points to it yet.
  pub StoredBefore-unlinked :
      (cells : ℕ → Option (Node K V)) (o : Option (Node K V)) (l : List (Item K V)) (x : Item K V)
      (after : List (Item K V))
      → All (λ (y : Item K V). (y.address == x.address) ≡ false) l
      → Stored cells (l ++ after)
      → StoredBefore (write_cell x.address o cells) l (up_to 0 x ∷ after)
  unfolding StoredBefore Stored write_cell
  StoredBefore-unlinked cells o [] x after a s = tt
  StoredBefore-unlinked cells o (z ∷ l) x after a s = (
    rw (write_cell, a.0) (s.0 ∙ ap some (node_of-unlinked z l x after)),
    StoredBefore-unlinked cells o l x after a.1 s.1,
  )

  pub Stored-whole :
      (cells : ℕ → Option (Node K V)) (l : List (Item K V)) (tail : List (Item K V))
      → StoredBefore cells l tail
      → Stored cells tail
      → Stored cells (l ++ tail)
  unfolding StoredBefore Stored
  Stored-whole cells [] tail b s = s
  Stored-whole cells (x ∷ l) tail b s = (b.0, Stored-whole cells l tail b.1 s)
