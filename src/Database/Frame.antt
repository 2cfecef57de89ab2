-- ===== src/Database/Frame.antt =====
-- What a handler leaves alone, whether it returns or throws: a relation between the states before
-- and after it, composed along a sequence.
use kayan_place.Prelude.{Bool, true, false}
use kayan_place.Database.{
  Exec, Error, Outcome, ok, err, state, and_then, ◌>>=◌, ◌>>◌, modify, raise_if,
}

abbrev pub Preserves {ℓ κ μ} :
    {S : Type ℓ} {A : Type κ} → (S → S → Type μ) → Exec S A → Type (ℓ ⊔ μ)
Preserves R m = (s : _) → R s (state (m s))

module _ {ℓ κ κ' μ} {S : Type ℓ} {A : Type κ} {B : Type κ'} {R : S → S → Type μ} where
  pub Preserves-bind :
      ((s t u : S) → R s t → R t u → R s u)
      → (m : Exec S A) (f : A → Exec S B) → Preserves R m
      → ((a : A) → Preserves R (f a))
      → Preserves R (m >>= f)
  Preserves-bind trans m f pm pf s = go (m s) (pm s)
    where
      go : (o : Outcome S A) → R s (state o) → R s (state (and_then o f))
      go (ok a t) first = trans s t (state (f a t)) first (pf a t)
      go (err x t) first = first

-- The steps of a sequence, for a relation that is reflexive and transitive.
module _ {ℓ μ} {S : Type ℓ} {R : S → S → Type μ} (same : (s : S) → R s s)
    (trans : (s t u : S) → R s t → R t u → R s u) where
  pub Preserves-if : (test : Bool) (e : Error) → Preserves R (raise_if test e)
  Preserves-if true e s = same s
  Preserves-if false e s = same s

  module _ {κ} {B : Type κ} where
    pub Preserves-check :
        (test : Bool) (e : Error) (rest : Exec S B)
        → Preserves R rest
        → Preserves R (raise_if test e >> rest)
    Preserves-check true e rest h s = same s
    Preserves-check false e rest h s = h s

    pub Preserves-modify :
        (f : S → S) (rest : Exec S B)
        → ((s : S) → R s (f s))
        → Preserves R rest
        → Preserves R (modify f >> rest)
    Preserves-modify f rest step h s = trans s (f s) _ (step s) (h (f s))

    pub Preserves-then :
        (m : Exec S (Unit {0})) (rest : Exec S B)
        → Preserves R m
        → Preserves R rest
        → Preserves R (m >> rest)
    Preserves-then m rest h k = Preserves-bind trans m (λ _. rest) h (λ _. k)
