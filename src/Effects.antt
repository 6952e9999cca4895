-- ===== src/Effects.antt =====
-- What a C++ call leaves: a value or an exception, with the state after it; `none` is undefined
-- behaviour. It models the throw, try and catch of the sources.
use eya_kv.Prelude.{◌≡◌, ap, Option, none, some}

-- The texts that what() gives.
pub data What : Type 0 where
  key_not_found not_a_list not_a_set not_a_hash missing_key bad_pattern : What

-- std::exception itself is what `throw e;` leaves of any exception that is caught by reference to it.
pub data Exception : Type 0 where
  out_of_range overflow_error invalid_argument plain_exception : Exception
  runtime_error : What → Exception

pub data Result {ℓ} (A : Type ℓ) : Type ℓ where
  returned : A → Result A
  threw : Exception → Result A

abbrev pub bind_result {ℓ κ} : {A : Type ℓ} {B : Type κ} → Result A → (A → Result B) → Result B
bind_result (returned a) f = f a
bind_result (threw e) f = threw e

abbrev pub M {ℓ κ} : Type ℓ → Type κ → Type (ℓ ⊔ κ)
M S A = S → Option (Result A × S)

module _ {ℓ} {S : Type ℓ} where
  infixl 5 ◌>>=◌ ◌>>◌
  abbrev pub ◌>>=◌ {κ ι} : {A : Type κ} {B : Type ι} → M S A → (A → M S B) → M S B
  ◌>>=◌ m f s = elim (m s) [
    | none ↦ none
    | some (threw e, s') ↦ some (threw e, s')
    | some (returned a, s') ↦ f a s'
  ]

  abbrev pub ◌>>◌ {κ ι} : {A : Type κ} {B : Type ι} → M S A → M S B → M S B
  m >> n = m >>= λ _. n

  abbrev pub pure {κ} : {A : Type κ} → A → M S A
  pure a s = some (returned a, s)

  abbrev pub throw {κ} : {A : Type κ} → Exception → M S A
  throw e s = some (threw e, s)

  abbrev pub undefined {κ} : {A : Type κ} → M S A
  undefined s = none

  abbrev pub from_result {κ} : {A : Type κ} → Result A → M S A
  from_result r s = some (r, s)

  abbrev pub from_option {κ} : {A : Type κ} → Option A → M S A
  from_option none s = none
  from_option (some a) s = some (returned a, s)

  abbrev pub read_state : M S S
  read_state s = some (returned s, s)

  abbrev pub write_state : S → M S (Unit {0})
  write_state s' s = some (returned tt, s')

  abbrev pub try_catch {κ} : {A : Type κ} → M S A → (Exception → M S A) → M S A
  try_catch m handler s = elim (m s) [
    | none ↦ none
    | some (threw e, s') ↦ handler e s'
    | some (returned a, s') ↦ some (returned a, s')
  ]

pub bind_returned {ℓ κ ι} :
    {S : Type ℓ} {A : Type κ} {B : Type ι} (m : M S A) (f : A → M S B) {s s' : S} {a : A}
    → m s ≡ some (returned a, s')
    → (m >>= f) s ≡ f a s'
bind_returned {S} {A} {B} m f {s} e =
    ap (λ (o : Option (Result A × S)). ◌>>=◌ {S = S} {A = A} {B = B} (λ t. o) f s) e

pub catch_returned {ℓ κ} :
    {S : Type ℓ} {A : Type κ} (m : M S A) (handler : Exception → M S A) {s s' : S} {a : A}
    → m s ≡ some (returned a, s')
    → try_catch m handler s ≡ some (returned a, s')
catch_returned {S} {A} m handler {s} e =
    ap (λ (o : Option (Result A × S)). try_catch {S = S} {A = A} (λ t. o) handler s) e
