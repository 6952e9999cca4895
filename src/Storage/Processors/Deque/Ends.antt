-- ===== src/Storage/Processors/Deque/Ends.antt =====
-- src/storage/processors.cpp: what is pushed at one end of a list is popped there in reverse.
use eya_kv.Prelude.{
  ℕ, suc, ◌+◌, ◌≡◌, refl, ap, sym, ◌∙◌, false, some, List, [], ◌∷◌, ◌++◌, reverse, append_assoc,
  append-nil, length, length-append, get_last?, arith,
}
use mathlib.Core.List.{reverse-append, reverse-reverse}
use eya_kv.Effects.{returned}
use eya_kv.Codec.Words.{Bytes}
use eya_kv.Structures.Lru.{pop_back}
use eya_kv.Storage.Value.{EValue, deque, is_dead, is_expired}
use eya_kv.Storage.Processors.{revive, unless_dead}
use eya_kv.Storage.Processors.Deque.{
  push_fronts, push_backs, pop_fronts, pop_backs, as_deque, push_handler, pop_n_handler,
}

pub push_backs-append : (values dq : List Bytes) → push_backs values dq ≡ dq ++ values
unfolding push_backs
push_backs-append [] dq = sym (append-nil dq)
push_backs-append (x ∷ values) dq =
    push_backs-append values (dq ++ x ∷ []) ∙ append_assoc dq (x ∷ []) values

pub push_fronts-append : (values dq : List Bytes) → push_fronts values dq ≡ reverse values ++ dq
unfolding push_fronts
push_fronts-append [] dq = refl
push_fronts-append (x ∷ values) dq =
    push_fronts-append values (x ∷ dq)
    ∙ sym (append_assoc (reverse values) (x ∷ []) dq)
    ∙ ap (◌++ dq) (sym (reverse-append (x ∷ []) values))

pop_fronts-append : (l dq : List Bytes) → pop_fronts (length l) (l ++ dq) ≡ (l, dq)
unfolding pop_fronts
pop_fronts-append [] dq = refl
pop_fronts-append (x ∷ l) dq = rw (pop_fronts-append l dq)

get_last-snoc : (l : List Bytes) (x : Bytes) → get_last? (l ++ x ∷ []) ≡ some x
get_last-snoc [] x = refl
get_last-snoc (y ∷ []) x = refl
get_last-snoc (y ∷ z ∷ l) x = get_last-snoc (z ∷ l) x

pop_back-snoc : (l : List Bytes) (x : Bytes) → pop_back (l ++ x ∷ []) ≡ l
unfolding pop_back
pop_back-snoc [] x = refl
pop_back-snoc (y ∷ []) x = refl
pop_back-snoc (y ∷ z ∷ l) x = ap (◌∷◌ y) (pop_back-snoc (z ∷ l) x)

pop_backs-append : (l dq : List Bytes) → pop_backs (length l) (dq ++ reverse l) ≡ (l, dq)
unfolding pop_backs
pop_backs-append [] dq = ap (λ (m : List Bytes). ([], m)) (append-nil dq)
pop_backs-append (x ∷ l) dq =
    let e : dq ++ reverse (x ∷ l) ≡ (dq ++ reverse l) ++ x ∷ [] =
      ap (dq ++◌) (reverse-append (x ∷ []) l) ∙ sym (append_assoc dq (reverse l) (x ∷ [])) in
    ap (pop_backs (suc (length l))) e
    ∙ rw (
      pop_backs,
      get_last-snoc (dq ++ reverse l) x,
      pop_back-snoc (dq ++ reverse l) x,
      pop_backs-append l dq,
    )

length-reverse : (l : List Bytes) → length (reverse l) ≡ length l
length-reverse [] = refl
length-reverse (x ∷ l) = omega (
  arith,
  length-reverse l,
  length-append (reverse l) (x ∷ []),
  ap length (reverse-append (x ∷ []) l),
)

swapped : (m n : ℕ) → m + n ≡ n + m
swapped m n = omega arith

pop_fronts-reverse : (l dq : List Bytes) → pop_fronts (length l) (reverse l ++ dq) ≡ (reverse l, dq)
pop_fronts-reverse l dq =
    ap (λ (n : ℕ). pop_fronts n (reverse l ++ dq)) (sym (length-reverse l))
    ∙ pop_fronts-append (reverse l) dq

pop_backs-reverse : (l dq : List Bytes) → pop_backs (length l) (dq ++ l) ≡ (reverse l, dq)
pop_backs-reverse l dq =
    ap (λ (n : ℕ). pop_backs n (dq ++ l)) (sym (length-reverse l))
    ∙ ap (λ (m : List Bytes). pop_backs (length (reverse l)) (dq ++ m)) (sym (reverse-reverse l))
    ∙ pop_backs-append (reverse l) dq

module _ {Z : Type 0} where
  -- A push at the left end of a list that is not deleted and not expired returns the new size, and a
  -- pop of as many values there returns them, the last one first, and leaves the list as it was; so do
  -- a push and a pop at the right end.
  pub pop_n-push :
      (now : ℕ) (values : List Bytes) (v : EValue Z) (dq : List Bytes)
      → v.value ≡ deque dq
      → is_dead now v ≡ false
      → ((v' : EValue Z) × (push_handler push_fronts now values v
            ≡ returned (length values + length dq, v'))
          × (pop_n_handler (pop_fronts (length values)) now v' ≡ returned (reverse values, v)))
        × ((v' : EValue Z) × (push_handler push_backs now values v
              ≡ returned (length values + length dq, v'))
            × (pop_n_handler (pop_backs (length values)) now v' ≡ returned (reverse values, v)))
  unfolding push_handler pop_n_handler as_deque revive unless_dead is_dead is_expired
  pop_n-push now values v dq e alive = (
    (
      record v { value = deque (reverse values ++ dq) },
      rw (
        e,
        alive,
        push_fronts-append values dq,
        length-append (reverse values) dq,
        length-reverse values,
      ),
      rw (alive, pop_fronts-reverse values dq, e),
    ),
    (
      record v { value = deque (dq ++ values) },
      rw (
        e,
        alive,
        push_backs-append values dq,
        length-append dq values,
        swapped (length dq) (length values),
      ),
      rw (alive, pop_backs-reverse values dq, e),
    ),
  )
