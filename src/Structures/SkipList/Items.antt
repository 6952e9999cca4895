-- ===== src/Structures/SkipList/Items.antt =====
-- include/common/ds/skip_list.h: the nodes of a skip list as one list, in the order of level 0, from
-- which the pointers of all levels follow.
use eya_kv.Prelude.{
  ℕ, zero, suc, ◌+◌, ◌<◌, ◌≡◌, refl, ap, ◌∙◌, true, false, ltb, if◌then◌else◌, Option, none, some,
  List, [], ◌∷◌, ◌++◌, get_elem?, arith,
}
use eya_kv.Codec.RoundTrip.{All}
use eya_kv.Structures.SkipList.{Node}

module _ (K V : Type 0) where
  pub record Item : Type 0 where
    pub address : ℕ
    pub key : K
    pub value : V
    pub seq : ℕ
    pub height : ℕ

module _ {K V : Type 0} where
  -- the first node of a level
  unfoldable pub first_at : ℕ → List (Item K V) → Option ℕ
  first_at i [] = none
  first_at i (x ∷ l) = let rest = first_at i l in if ltb i x.height then some x.address else rest

  unfoldable pub links : ℕ → ℕ → List (Item K V) → List (Option ℕ)
  unfolding first_at
  links i zero l = []
  links i (suc height) l = first_at i l ∷ links (suc i) height l

  unfoldable pub node_of : Item K V → List (Item K V) → Node K V
  unfolding links
  node_of x l = record { key = x.key; value = x.value; seq = x.seq; next = links 0 x.height l }

  -- Each node is in the heap, and points on each of its levels to the next one there.
  unfoldable pub Stored : (ℕ → Option (Node K V)) → List (Item K V) → Type 0
  unfolding node_of
  Stored cells [] = Unit {0}
  Stored cells (x ∷ l) = (cells x.address ≡ some (node_of x l)) × Stored cells l

  -- the last node of a level, from x on
  unfoldable pub last_at : ℕ → Item K V → List (Item K V) → Item K V
  last_at i x [] = x
  last_at i x (y ∷ l) = if ltb i y.height then last_at i y l else last_at i x l

  abbrev pub IsTall : ℕ → Item K V → Type 0
  IsTall i x = ltb i x.height ≡ true

  abbrev pub IsShort : ℕ → Item K V → Type 0
  IsShort i x = ltb i x.height ≡ false

  pub get_elem-links :
      (i j height : ℕ) (l : List (Item K V))
      → i < height
      → get_elem? (links j height l) i ≡ some (first_at (i + j) l)
  unfolding links
  get_elem-links i j zero l h = absurd (omega arith)
  get_elem-links zero j (suc height) l h = ap (λ (k : ℕ). some (first_at k l)) (omega arith)
  get_elem-links (suc i) j (suc height) l h =
      get_elem-links i (suc j) height l (omega arith)
      ∙ ap (λ (k : ℕ). some (first_at k l)) (omega arith)

  pub Stored-suffix :
      (cells : ℕ → Option (Node K V)) (l1 l2 : List (Item K V))
      → Stored cells (l1 ++ l2)
      → Stored cells l2
  unfolding Stored
  Stored-suffix cells [] l2 s = s
  Stored-suffix cells (x ∷ l1) l2 s = Stored-suffix cells l1 l2 s.1

  pub first_at-short :
      (i : ℕ) (l1 l2 : List (Item K V)) → All (IsShort i) l1 → first_at i (l1 ++ l2) ≡ first_at i l2
  unfolding first_at
  first_at-short i [] l2 a = refl
  first_at-short i (x ∷ l1) l2 a = rw (a.0) (first_at-short i l1 l2 a.1)

  pub last_at-short :
      (i : ℕ) (x : Item K V) (l : List (Item K V)) → All (IsShort i) l → last_at i x l ≡ x
  unfolding last_at
  last_at-short i x [] a = refl
  last_at-short i x (y ∷ l) a = rw (a.0) (last_at-short i x l a.1)
