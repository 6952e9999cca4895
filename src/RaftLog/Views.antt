-- ===== src/RaftLog/Views.antt =====
-- The log as a partial map from logical indexes to entries: what `get` of
-- src/raft/raft_log_array.cpp reads, and what appends and truncations do to it.
use eya_kv.Prelude.{
  ℕ, zero, suc, ◌+◌, ◌-◌, ◌≤◌, ◌≡◌, refl, ap, ◌∙◌, false, ◌==◌, ltb, if◌then◌else◌, Option, none,
  some, List, [], ◌∷◌, ◌++◌, length, get_elem?, drop, arith,
}
use eya_kv.Protocol.Messages.{LogEntry}
use eya_kv.RaftLog.State.{RaftLogArray, done}
use eya_kv.RaftLog.Ops.{get, get_term}

-- The entry at a logical index.
abbrev pub view_of : ℕ → List LogEntry → ℕ → Option LogEntry
view_of base es j = if ltb j base then none else get_elem? es (j - base)

abbrev pub view : RaftLogArray → ℕ → Option LogEntry
view l = view_of l.base_index l.entries

get_elem?-past {ℓ} : {A : Type ℓ} (xs : List A) (i : ℕ) → length xs ≤ i → get_elem? xs i ≡ none
get_elem?-past [] i h = refl
get_elem?-past (x ∷ xs) zero h = absurd (omega arith)
get_elem?-past (x ∷ xs) (suc i) h = get_elem?-past xs i (omega arith)

get_elem?-push {ℓ} :
    {A : Type ℓ} (xs : List A) (e : A) (i : ℕ)
    → get_elem? (xs ++ e ∷ []) i ≡ (if i == length xs then some e else get_elem? xs i)
get_elem?-push [] e zero = refl
get_elem?-push [] e (suc i) = ground arith
get_elem?-push (x ∷ xs) e zero = ground arith
get_elem?-push (x ∷ xs) e (suc i) = ground (arith, get_elem?-push xs e i)

get_elem?-drop {ℓ} :
    {A : Type ℓ} (n : ℕ) (xs : List A) (i : ℕ) → get_elem? (drop n xs) i ≡ get_elem? xs (n + i)
get_elem?-drop zero xs i = ap (get_elem? xs) (omega arith)
get_elem?-drop (suc n) [] i = refl
get_elem?-drop (suc n) (x ∷ xs) i = get_elem?-drop n xs i ∙ ap (get_elem? (x ∷ xs)) (suc_add n i)
  where
    suc_add : (m k : ℕ) → suc (m + k) ≡ suc m + k
    suc_add m k = omega arith

-- `get` reads the entry at a logical index, on every index, and changes nothing.
pub get-eq-view : (l : RaftLogArray) (j : ℕ) → l.locked ≡ false → get j l ≡ done (view l j) l
unfolding get
get-eq-view l j free = ground (arith, get_elem?-past l.entries (j - l.base_index))

-- The term of the entry there, and 0 where there is none.
abbrev pub term_or_zero : Option LogEntry → ℕ
term_or_zero none = 0
term_or_zero (some e) = e.term

pub get_term-eq-view :
    (l : RaftLogArray) (j : ℕ) → l.locked ≡ false → get_term j l ≡ done (term_or_zero (view l j)) l
unfolding get_term
get_term-eq-view l j free = ground (arith, get_elem?-past l.entries (j - l.base_index))

pub view-push :
    (base : ℕ) (es : List LogEntry) (e : LogEntry) (j : ℕ)
    → view_of base (es ++ e ∷ []) j ≡ (if j == base + length es then some e else view_of base es j)
view-push base es e j = ground (arith, get_elem?-push es e (j - base))

pub view-drop :
    (base n : ℕ) (es : List LogEntry) (j : ℕ)
    → view_of (base + n) (drop n es) j ≡ (if ltb j (base + n) then none else view_of base es j)
view-drop base n es j = ground (arith, get_elem?-drop n es (j - (base + n)), shift)
  where
    shift : base + n ≤ j → n + (j - (base + n)) ≡ j - base
    shift h = omega arith
