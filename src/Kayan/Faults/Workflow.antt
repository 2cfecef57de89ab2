-- ===== src/Kayan/Faults/Workflow.antt =====
-- The workflow of a fault report: `assertValidFaultTransition` of src/kayan/kayan.service.ts.
use kayan_place.Prelude.{◌≡◌, refl, ◌↔◌, ◌⊎◌, inl, inr, true, subst}
use kayan_place.Kayan.Dto.{
  FaultStatus, received, assigned, on_the_way, in_progress, finished, cancelled,
}
use kayan_place.Kayan.Faults.{allows}

-- Work goes on by one stage.
pub data Advances : FaultStatus → FaultStatus → Type 0 where
  assign : Advances received assigned
  depart : Advances assigned on_the_way
  begin : Advances on_the_way in_progress
  finish : Advances in_progress finished

-- Nothing follows a status that is closed.
pub data IsClosed : FaultStatus → Type 0 where
  closed_finished : IsClosed finished
  closed_cancelled : IsClosed cancelled

-- One move: to the next stage, or out of an open status to cancelled.
infix 40 ◌⟶◌ ◌⟶*◌
pub data ◌⟶◌ : FaultStatus → FaultStatus → Type 0 where
  advance : {a b : FaultStatus} → Advances a b → a ⟶ b
  cancel : {a : FaultStatus} → ¬ (IsClosed a) → a ⟶ cancelled

pub data ◌⟶*◌ : FaultStatus → FaultStatus → Type 0 where
  stay : {a : FaultStatus} → a ⟶* a
  follow : {a b c : FaultStatus} → a ⟶ b → b ⟶* c → a ⟶* c

pub ⟶*-trans : {a b c : FaultStatus} → a ⟶* b → b ⟶* c → a ⟶* c
⟶*-trans stay q = q
⟶*-trans (follow s p) q = follow s (⟶*-trans p q)

pub allows_sound : (a b : FaultStatus) → allows a b ≡ true → (a ≡ b) ⊎ (a ⟶ b)
unfolding allows
allows_sound received received h = inl refl
allows_sound assigned assigned h = inl refl
allows_sound on_the_way on_the_way h = inl refl
allows_sound in_progress in_progress h = inl refl
allows_sound finished finished h = inl refl
allows_sound cancelled cancelled h = inl refl
allows_sound received assigned h = inr (advance assign)
allows_sound received cancelled h = inr (cancel (λ c. elim c [ ]))
allows_sound assigned on_the_way h = inr (advance depart)
allows_sound assigned cancelled h = inr (cancel (λ c. elim c [ ]))
allows_sound on_the_way in_progress h = inr (advance begin)
allows_sound on_the_way cancelled h = inr (cancel (λ c. elim c [ ]))
allows_sound in_progress finished h = inr (advance finish)
allows_sound in_progress cancelled h = inr (cancel (λ c. elim c [ ]))
allows_sound _ _ h = cc

allows-cancelled : (a : FaultStatus) → ¬ (IsClosed a) → allows a cancelled ≡ true
unfolding allows
allows-cancelled finished n = absurd (n closed_finished)
allows-cancelled cancelled n = refl
allows-cancelled _ n = refl

allows-same : (a : FaultStatus) → allows a a ≡ true
unfolding allows
allows-same received = refl
allows-same _ = refl

allows-Advances : {a b : FaultStatus} → Advances a b → allows a b ≡ true
unfolding allows
allows-Advances assign = refl
allows-Advances depart = refl
allows-Advances begin = refl
allows-Advances finish = refl

allows-⟶ : {a b : FaultStatus} → a ⟶ b → allows a b ≡ true
allows-⟶ (advance s) = allows-Advances s
allows-⟶ (cancel {a} n) = allows-cancelled a n

-- A change of status is accepted exactly when it is none, or one move: to the next stage, or from a
-- status that is neither finished nor cancelled to cancelled.
pub allows_iff : (a b : FaultStatus) → (allows a b ≡ true) ↔ ((a ≡ b) ⊎ (a ⟶ b))
allows_iff a b = (
  allows_sound a b,
  elim [ inl e ↦ subst (λ c. allows a c ≡ true) e (allows-same a) | inr m ↦ allows-⟶ m ],
)

Advances-open : {a b : FaultStatus} → Advances a b → ¬ (IsClosed a)
Advances-open assign c = elim c [ ]
Advances-open depart c = elim c [ ]
Advances-open begin c = elim c [ ]
Advances-open finish c = elim c [ ]

⟶-open : {a b : FaultStatus} → a ⟶ b → ¬ (IsClosed a)
⟶-open (advance s) = Advances-open s
⟶-open (cancel n) = n

-- A closed report stays as it is.
pub ⟶*-IsClosed : {a b : FaultStatus} → a ⟶* b → IsClosed a → a ≡ b
⟶*-IsClosed stay c = refl
⟶*-IsClosed (follow m p) c = absurd (⟶-open m c)
