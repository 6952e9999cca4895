-- ===== src/Structures/SkipList/Link.antt =====
-- include/common/ds/skip_list.h: the two loops of insert that link a new node, level by level.
use eya_kv.Prelude.{
  ℕ, zero, suc, ◌+◌, ◌<◌, ◌≤◌, ◌≡◌, ◌≢◌, inl, inr, refl, sym, ap, subst, ◌∙◌, Bool-cases, ltb→lt,
  ◌==◌, ==→≡, Option, some, List, [], ◌∷◌, ◌++◌, append_assoc, set, length, length-append, arith,
}
use eya_kv.Codec.RoundTrip.{All}
use eya_kv.Structures.SkipList.{Node}
use eya_kv.Structures.SkipList.Items.{
  Item, first_at, links, node_of, last_at, IsTall, IsShort, first_at-short, last_at-short,
}
use eya_kv.Structures.SkipList.Search.{IsTall-cases, last_at-jump}

module _ {K V : Type 0} where
  -- The nodes of a list, where `tail` is behind them.
  unfoldable pub StoredBefore : (ℕ → Option (Node K V)) → List (Item K V) → List (Item K V) → Type 0
  unfolding node_of
  StoredBefore cells [] tail = Unit {0}
  StoredBefore cells (x ∷ l) tail =
      (cells x.address ≡ some (node_of x (l ++ tail))) × StoredBefore cells l tail

  -- update[i] to update[i + n - 1]
  unfoldable pub updates_from : ℕ → ℕ → Item K V → List (Item K V) → List ℕ
  updates_from i zero x before = []
  updates_from i (suc n) x before = (last_at i x before).address ∷ updates_from (suc i) n x before

  -- the node as it is when it is linked on the levels below k
  abbrev pub up_to : ℕ → Item K V → Item K V
  up_to k x = record x { height = k }

  -- The last node of a level, in the list.
  pub last-split :
      (fuel k : ℕ) (x : Item K V) (l : List (Item K V))
      → IsTall k x
      → length l < fuel
      → (pre : List (Item K V)) × (post : List (Item K V)) × (x ∷ l ≡ pre ++ last_at k x l ∷ post)
        × IsTall k (last_at k x l)
        × All (IsShort k) post
  last-split zero k x l t h = absurd (omega arith)
  last-split (suc fuel) k x l t h = elim (IsTall-cases k l) [
    | inl short ↦ (
      [],
      l,
      ap (λ y. y ∷ l) (sym (last_at-short k x l short)),
      subst (IsTall k) (sym (last_at-short k x l short)) t,
      short,
    )
    | inr (l1, y, l2, e, short, tall) ↦
        (let jump = ap (last_at k x) e ∙ last_at-jump k x l1 y l2 tall in
          let (pre, post, e2, t2, s2) =
            last-split fuel k y l2 tall
              (omega (arith, h, length-append l1 (y ∷ l2), ap length e)) in
          subst
            (λ (z : Item K V).
              (pre : List (Item K V)) × (post : List (Item K V)) × (x ∷ l ≡ pre ++ z ∷ post)
              × IsTall k z
              × All (IsShort k) post)
            (sym jump)
            (
              x ∷ l1 ++ pre,
              post,
              ap (◌∷◌ x) (e ∙ ap (l1 ++◌) e2 ∙ sym (append_assoc l1 pre (last_at k y l2 ∷ post))),
              t2,
              s2,
            ))
  ]

  pub links-ext :
      (j h : ℕ) (a b : List (Item K V))
      → ((i : ℕ) → j ≤ i → i < j + h → first_at i a ≡ first_at i b)
      → links j h a ≡ links j h b
  unfolding links
  links-ext j zero a b e = refl
  links-ext j (suc h) a b e = rw (
    e j (omega arith) (omega arith),
    links-ext (suc j) h a b (λ i k m. e i (omega (arith, k)) (omega (arith, m))),
  )

  pub length-links : (j h : ℕ) (a : List (Item K V)) → length (links j h a) ≡ h
  unfolding links
  length-links j zero a = refl
  length-links j (suc h) a = ap suc (length-links (suc j) h a)

  links-set :
      (j h m : ℕ) (a b : List (Item K V)) (o : Option ℕ)
      → m < h
      → ((i : ℕ) → i ≢ j + m → first_at i a ≡ first_at i b)
      → first_at (j + m) b ≡ o
      → links j h b ≡ set (links j h a) m o
  unfolding links
  links-set j zero m a b o h e v = absurd (omega arith)
  links-set j (suc h) zero a b o k e v =
      rw (sym v, links-ext (suc j) h a b (λ i n u. e i (omega (arith, n))))
        (ap (λ (i : ℕ). first_at i b ∷ links (suc j) h b) (omega arith))
  links-set j (suc h) (suc m) a b o k e v = rw (
    e j (omega arith),
    links-set (suc j) h m a b o (omega (arith, k)) (λ i n. e i (omega (arith, n)))
        (ap (λ (i : ℕ). first_at i b) (omega arith) ∙ v),
  )

  first_at-grow :
      (i k : ℕ) (l : List (Item K V)) (x : Item K V) (after : List (Item K V))
      → i ≢ k
      → first_at i (l ++ up_to k x ∷ after) ≡ first_at i (l ++ up_to (suc k) x ∷ after)
  unfolding first_at
  first_at-grow i k [] x after n = ground (arith, n)
  first_at-grow i k (y ∷ l) x after n = rw (first_at-grow i k l x after n)

  first_at-through :
      (k : ℕ) (pre : List (Item K V)) (y : Item K V) (post a b : List (Item K V))
      → IsTall k y
      → first_at k ((pre ++ y ∷ post) ++ a) ≡ first_at k ((pre ++ y ∷ post) ++ b)
  unfolding first_at
  first_at-through k [] y post a b t = rw (t)
  first_at-through k (z ∷ pre) y post a b t = rw (first_at-through k pre y post a b t)

  pub first_at-none :
      (i : ℕ) (l : List (Item K V)) (x : Item K V) (after : List (Item K V))
      → first_at i (l ++ up_to 0 x ∷ after) ≡ first_at i (l ++ after)
  unfolding first_at
  first_at-none i [] x after = ground arith
  first_at-none i (y ∷ l) x after = rw (first_at-none i l x after)

  -- A node whose links of level k end later does not change when x is linked there.
  pub node_of-through :
      (k : ℕ) (z : Item K V) (pre : List (Item K V)) (y : Item K V) (post : List (Item K V))
      (x : Item K V) (after : List (Item K V))
      → IsTall k y
      → node_of z ((pre ++ y ∷ post) ++ up_to k x ∷ after)
        ≡ node_of z ((pre ++ y ∷ post) ++ up_to (suc k) x ∷ after)
  unfolding node_of
  node_of-through k z pre y post x after t =
      ap
        (λ (next : List (Option ℕ)). record {
          key = z.key;
          value = z.value;
          seq = z.seq;
          next = next;
        })
        (links-ext 0 z.height _ _ (λ i _ _. elim (Bool-cases (i == k)) [
          | inl same ↦
              subst
                (λ j.
                  first_at j ((pre ++ y ∷ post) ++ up_to k x ∷ after)
                  ≡ first_at j ((pre ++ y ∷ post) ++ up_to (suc k) x ∷ after))
                (sym (==→≡ i k same))
                (first_at-through k pre y post (up_to k x ∷ after) (up_to (suc k) x ∷ after) t)
          | inr other ↦ first_at-grow i k (pre ++ y ∷ post) x after (ground (arith, other))
        ]))

  pub node_of-short :
      (k : ℕ) (z : Item K V) (l : List (Item K V)) (x : Item K V) (after : List (Item K V))
      → IsShort k z
      → node_of z (l ++ up_to k x ∷ after) ≡ node_of z (l ++ up_to (suc k) x ∷ after)
  unfolding node_of
  node_of-short k z l x after t =
      ap
        (λ (next : List (Option ℕ)). record {
          key = z.key;
          value = z.value;
          seq = z.seq;
          next = next;
        })
        (links-ext 0 z.height _ _ (λ i _ m. first_at-grow i k l x after (ground (arith, m, t))))

  -- The last node of level k gets x as its next one there.
  pub node_of-last :
      (k : ℕ) (z : Item K V) (post : List (Item K V)) (x : Item K V) (after : List (Item K V))
      → IsTall k z
      → All (IsShort k) post
      → node_of z (post ++ up_to (suc k) x ∷ after)
        ≡ record (node_of z (post ++ up_to k x ∷ after)) {
          next = set (node_of z (post ++ up_to k x ∷ after)).next k (some x.address);
        }
  unfolding node_of first_at
  node_of-last k z post x after t short =
      ap
        (λ (next : List (Option ℕ)). record {
          key = z.key;
          value = z.value;
          seq = z.seq;
          next = next;
        })
        (links-set 0 z.height k _ _ (some x.address) (ltb→lt k z.height t)
          (λ i n. first_at-grow i k post x after (ground (arith, n)))
          (ap (λ (i : ℕ). first_at i (post ++ up_to (suc k) x ∷ after)) (omega arith)
            ∙ first_at-short k post (up_to (suc k) x ∷ after) short
            ∙ ground arith))
