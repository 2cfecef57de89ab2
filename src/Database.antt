-- ===== src/Database.antt =====
-- src/database/database.service.ts: handlers against the database, and transactions. A handler
-- takes the state to a result or to the exception that it throws; what was written before an
-- exception outside a transaction stays written, so the state comes back beside both.
pub mod Frame
use kayan_place.Prelude.{ℕ, String, ◌≡◌, refl, Bool, true, false, ◌⊎◌, inl, inr, arith}

-- The text of an exception: a constant, or a template around one number.
pub data Message : Type 0 where
  fixed : String → Message
  about : String → ℕ → String → Message

-- The errors of PostgreSQL that reach the program, by their codes 23505, 23503, 23514, 22003, 42702.
pub data SqlState : Type 0 where
  unique_violation foreign_key_violation check_violation : SqlState
  numeric_out_of_range ambiguous_column : SqlState

pub data Error : Type 0 where
  bad_request not_found forbidden unauthorized conflict service_unavailable : Message → Error
  database : SqlState → Error
  -- a property of undefined is read
  type_error : Error
  -- Redis does not answer, and nothing catches it
  redis_error : Error

pub data Outcome {ℓ κ} (S : Type ℓ) (A : Type κ) : Type (ℓ ⊔ κ) where
  ok : A → S → Outcome S A
  err : Error → S → Outcome S A

abbrev pub Exec {ℓ κ} : Type ℓ → Type κ → Type (ℓ ⊔ κ)
Exec S A = S → Outcome S A

module _ {ℓ κ} {S : Type ℓ} {A : Type κ} where
  abbrev pub pure : A → Exec S A
  pure a s = ok a s

  abbrev pub raise : Error → Exec S A
  raise e s = err e s

  abbrev pub gets : (S → A) → Exec S A
  gets f s = ok (f s) s

  -- The state after a handler, and that it returned.
  abbrev pub state : Outcome S A → S
  state (ok a s) = s
  state (err e s) = s

module _ {ℓ} {S : Type ℓ} where
  abbrev pub modify : (S → S) → Exec S (Unit {0})
  modify f s = ok tt (f s)

  -- if (test) throw e
  abbrev pub raise_if : Bool → Error → Exec S (Unit {0})
  raise_if true e s = err e s
  raise_if false e s = ok tt s

module _ {ℓ κ μ} {S : Type ℓ} {A : Type κ} {B : Type μ} where
  abbrev pub and_then : Outcome S A → (A → Exec S B) → Outcome S B
  and_then (ok a s) f = f a s
  and_then (err e s) f = err e s

  infixl 5 ◌>>=◌
  abbrev pub ◌>>=◌ : Exec S A → (A → Exec S B) → Exec S B
  ◌>>=◌ m f s = and_then (m s) f

module _ {ℓ μ} {S : Type ℓ} {B : Type μ} where
  infixl 5 ◌>>◌
  abbrev pub ◌>>◌ : Exec S (Unit {0}) → Exec S B → Exec S B
  m >> k = m >>= λ _. k

-- `withTransaction`: COMMIT if the callback returns, ROLLBACK and the exception again if it throws.
-- `undo before after` is the state after a rollback.
abbrev pub end_transaction {ℓ κ} :
    {S : Type ℓ} {A : Type κ} → (S → S → S) → S → Outcome S A → Outcome S A
end_transaction undo before (ok a after) = ok a after
end_transaction undo before (err e after) = err e (undo before after)

abbrev pub with_transaction {ℓ κ} : {S : Type ℓ} {A : Type κ} → (S → S → S) → Exec S A → Exec S A
with_transaction undo callback s = end_transaction undo s (callback s)

module _ {ℓ κ} {S : Type ℓ} {A : Type κ} where
  pub Outcome-cases :
      (o : Outcome S A)
      → ((a : A) × (s : S) × (o ≡ ok a s)) ⊎ ((e : Error) × (s : S) × (o ≡ err e s))
  Outcome-cases (ok a s) = inl (a, s, refl)
  Outcome-cases (err e s) = inr (e, s, refl)

  -- A handler that writes nothing.
  pub Outcome-reads :
      (o : Outcome S A) (s : S)
      → state o ≡ s
      → ((a : A) × (o ≡ ok a s)) ⊎ ((e : Error) × (o ≡ err e s))
  Outcome-reads (ok a t) s h = inl (a, ground arith)
  Outcome-reads (err e t) s h = inr (e, ground arith)

  pub with_transaction-ok :
      (undo : S → S → S) (callback : Exec S A) (s : S) {a : A} {s' : S}
      → with_transaction undo callback s ≡ ok a s'
      → callback s ≡ ok a s'
  with_transaction-ok undo callback s h = ground arith

module _ {ℓ κ μ} {S : Type ℓ} {A : Type κ} {B : Type μ} where
  -- A sequence that returned is two steps that returned.
  pub >>=-eq-ok :
      (m : Exec S A) (f : A → Exec S B) (s : S) {b : B} {s'' : S}
      → (m >>= f) s ≡ ok b s''
      → (a : A) × (s' : S) × (m s ≡ ok a s') × (f a s' ≡ ok b s'')
  >>=-eq-ok m f s h = go (m s) refl h
    where
      go :
          (o : Outcome S A) {b : B} {s'' : S}
          → m s ≡ o
          → and_then o f ≡ ok b s''
          → (a : A) × (s' : S) × (m s ≡ ok a s') × (f a s' ≡ ok b s'')
      go (ok a s') e k = (a, s', e, k)
      go (err x s') e k = cc

-- `try { … } catch (error) { … }` on the error, with the state that the block left.
abbrev pub catch_error {ℓ κ} :
    {S : Type ℓ} {A : Type κ} → Outcome S A → (Error → Error) → Outcome S A
catch_error (ok a s) f = ok a s
catch_error (err e s) f = err (f e) s
