-- ===== src/Structures/SkipList/Loops.antt =====
-- include/common/ds/skip_list.h: what the two loops of insert leave in the heap.
use eya_kv.Prelude.{
  ℕ, zero, suc, ◌+◌, ◌≤◌, ◌≡◌, refl, sym, ap, subst, ◌∙◌, false, ◌==◌, ==-refl, Option, some, List,
  [], ◌∷◌, ◌++◌, length, arith,
}
use eya_kv.Codec.RoundTrip.{All}
use eya_kv.Structures.SkipList.{Node, write_cell, store_next, store_all}
use eya_kv.Structures.SkipList.Items.{Item, node_of, Stored, last_at, IsTall, IsShort}
use eya_kv.Structures.SkipList.Lookup.{Distinct}
use eya_kv.Structures.SkipList.Update.{Stored-other, at_all, flip}
use eya_kv.Structures.SkipList.Link.{
  StoredBefore, updates_from, up_to, last-split, node_of-through, node_of-short, node_of-last,
  length-links,
}

module _ {K V : Type 0} where
  StoredBefore-short :
      (cells : ℕ → Option (Node K V)) (p : ℕ) (o : Option (Node K V)) (k : ℕ) (l : List (Item K V))
      (x : Item K V) (after : List (Item K V))
      → All (IsShort k) l
      → All (λ (y : Item K V). (y.address == p) ≡ false) l
      → StoredBefore cells l (up_to k x ∷ after)
      → StoredBefore (write_cell p o cells) l (up_to (suc k) x ∷ after)
  unfolding StoredBefore write_cell
  StoredBefore-short cells p o k [] x after sh a s = tt
  StoredBefore-short cells p o k (z ∷ l) x after sh a s = (
    rw (write_cell, a.0) (s.0 ∙ ap some (node_of-short k z l x after sh.0)),
    StoredBefore-short cells p o k l x after sh.1 a.1 s.1,
  )

  StoredBefore-at :
      (cells : ℕ → Option (Node K V)) (pre : List (Item K V)) (y : Item K V)
      (post t : List (Item K V))
      → StoredBefore cells (pre ++ y ∷ post) t
      → cells y.address ≡ some (node_of y (post ++ t))
  unfolding StoredBefore
  StoredBefore-at cells [] y post t s = s.0
  StoredBefore-at cells (z ∷ pre) y post t s = StoredBefore-at cells pre y post t s.1

  StoredBefore-write :
      (cells : ℕ → Option (Node K V)) (k : ℕ) (pre : List (Item K V)) (y : Item K V)
      (post : List (Item K V)) (x : Item K V) (after : List (Item K V))
      → IsTall k y
      → All (IsShort k) post
      → Distinct (pre ++ y ∷ post)
      → StoredBefore cells (pre ++ y ∷ post) (up_to k x ∷ after)
      → StoredBefore
          (write_cell y.address (some (node_of y (post ++ up_to (suc k) x ∷ after))) cells)
          (pre ++ y ∷ post)
          (up_to (suc k) x ∷ after)
  unfolding StoredBefore write_cell
  StoredBefore-write cells k [] y post x after t sh d s = (
    rw (write_cell, ==-refl y.address),
    StoredBefore-short cells y.address _ k post x after sh d.0 s.1,
  )
  StoredBefore-write cells k (z ∷ pre) y post x after t sh d s = (
    rw (write_cell, flip y.address z.address (at_all _ pre y post d.0))
        (s.0 ∙ ap some (node_of-through k z pre y post x after t)),
    StoredBefore-write cells k pre y post x after t sh d.1 s.1,
  )

  -- update[k]->next[k].store(x)
  store_next-last :
      (cells : ℕ → Option (Node K V)) (k : ℕ) (y : Item K V) (post : List (Item K V)) (x : Item K V)
      (after : List (Item K V))
      → IsTall k y
      → All (IsShort k) post
      → cells y.address ≡ some (node_of y (post ++ up_to k x ∷ after))
      → store_next y.address k (some x.address) cells
        ≡ some (write_cell y.address (some (node_of y (post ++ up_to (suc k) x ∷ after))) cells)
  unfolding store_next node_of
  store_next-last cells k y post x after t sh c =
      rw (store_next, c, length-links 0 y.height (post ++ up_to k x ∷ after), t)
        (ap (λ (n : Node K V). some (write_cell y.address (some n) cells))
          (sym (node_of-last k y post x after t sh)))

  -- The second loop.
  pub store_all-links :
      (n i : ℕ) (head : Item K V) (before : List (Item K V)) (x : Item K V)
      (after tail : List (Item K V)) (cells : ℕ → Option (Node K V))
      → i + n ≤ head.height
      → Distinct (head ∷ before)
      → All
          (λ (y : Item K V). All (λ (z : Item K V). (z.address == y.address) ≡ false) tail)
          (head ∷ before)
      → StoredBefore cells (head ∷ before) (up_to i x ∷ after)
      → Stored cells tail
      → (cells' : ℕ → Option (Node K V)) × (store_all x.address i
            (updates_from i n head before)
            cells
          ≡ some cells')
        × StoredBefore cells' (head ∷ before) (up_to (i + n) x ∷ after)
        × Stored cells' tail
  unfolding store_all updates_from
  store_all-links zero i head before x after tail cells fits d apart s kept = (
    cells,
    refl,
    subst (λ (m : ℕ). StoredBefore cells (head ∷ before) (up_to m x ∷ after)) (omega arith) s,
    kept,
  )
  store_all-links (suc n) i head before x after tail cells fits d apart s kept =
      let (pre, post, e, t, sh) =
        last-split (suc (length before)) i head before (ground (arith, fits)) (omega arith) in
      let y = last_at i head before in
      let s1 = subst (λ l. StoredBefore cells l (up_to i x ∷ after)) e s in
      let written = some (node_of y (post ++ up_to (suc i) x ∷ after)) in
      let stored =
        subst (λ l. StoredBefore (write_cell y.address written cells) l (up_to (suc i) x ∷ after))
          (sym e) (StoredBefore-write cells i pre y post x after t sh (subst Distinct e d) s1) in
      let (cells', r, done, kept') =
        store_all-links n (suc i) head before x after tail (write_cell y.address written cells)
          (omega (arith, fits)) d apart stored
          (Stored-other cells y.address written tail
            (at_all
              (λ (y : Item K V). All (λ (z : Item K V). (z.address == y.address) ≡ false) tail) pre
              y post (subst (All _) e apart))
            kept) in
      (
        cells',
        rw
            (
              store_all,
              store_next-last cells i y post x after t sh (StoredBefore-at cells pre y post _ s1),
            )
            r,
        subst (λ (m : ℕ). StoredBefore cells' (head ∷ before) (up_to m x ∷ after)) (omega arith)
            done,
        kept',
      )
