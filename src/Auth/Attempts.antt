-- ===== src/Auth/Attempts.antt =====
-- One-time passwords under guesses: `checkVerification` of
-- src/auth/otp-sender/console-otp.sender.ts.
use kayan_place.Prelude.{
  ℕ, String, ◌≡◌, ◌≢◌, refl, Bool, true, false, inl, inr, List, [], ◌∷◌, Option, none, some, arith,
  sym, ◌∙◌, ltb, is_some, same_text, Bool-cases, subst,
}
use kayan_place.Database.{ok, state, Outcome-cases, >>=-eq-ok}
use kayan_place.Auth.Tables.{AuthDb, OtpPurpose, AuthOtp, Library, Settings}
use kayan_place.Auth.Store.{increment_otp_attempts, clear_otp_attempts, lock_at}
use kayan_place.Auth.Otp.{
  check_verification, check_row, compare_code, refuse_code, latest_otp, hash_otp,
}

-- A guess of a code.
pub record Guess : Type 0 where
  pub email : String
  pub purpose : OtpPurpose
  pub code : String

-- The passwords and the time are as they were.
record SameOtps (s t : AuthDb) : Type 0 where
  otps : t.otps ≡ s.otps
  clock : t.clock ≡ s.clock

module _ (library : Library) (settings : Settings) where
  pub guess_all : List Guess → AuthDb → AuthDb
  guess_all [] s = s
  guess_all (g ∷ gs) s =
      guess_all gs (state (check_verification library settings g.email g.purpose g.code s))

  clear-SameOtps :
      (email : String) (purpose : OtpPurpose) (s : AuthDb)
      → SameOtps s (state (clear_otp_attempts email purpose s))
  unfolding clear_otp_attempts
  clear-SameOtps email purpose s = record { otps = refl; clock = refl }

  lock-SameOtps :
      {s : AuthDb} (email : String) (purpose : OtpPurpose) (n : ℕ) (b : Bool) (t : AuthDb)
      → SameOtps s t
      → SameOtps s (state (lock_at email purpose n b t))
  unfolding clear_otp_attempts
  lock-SameOtps email purpose n true t h = record { otps = h.otps; clock = h.clock }
  lock-SameOtps email purpose n false t h = record { otps = h.otps; clock = h.clock }

  increment-SameOtps :
      (email : String) (purpose : OtpPurpose) (max ttl : ℕ) (s : AuthDb)
      → SameOtps s (state (increment_otp_attempts email purpose max ttl s))
  unfolding increment_otp_attempts
  increment-SameOtps email purpose max ttl s =
      lock-SameOtps email purpose _ _ _ (record { otps = refl; clock = refl })

  refuse-SameOtps :
      {s : AuthDb} (b : Bool) (t : AuthDb)
      → SameOtps s t
      → SameOtps s (state (refuse_code library settings b t))
  refuse-SameOtps true t h = h
  refuse-SameOtps false t h = h

  compare-SameOtps :
      (email : String) (purpose : OtpPurpose) (id : ℕ) (b : Bool) (s : AuthDb)
      → SameOtps s (state (compare_code library settings email purpose id b s))
  unfolding clear_otp_attempts
  compare-SameOtps email purpose id true s = record { otps = refl; clock = refl }
  compare-SameOtps email purpose id false s =
      elim (Outcome-cases (increment_otp_attempts email purpose 5 600 s)) [
        | inl (r, t, e) ↦ rw e (
            refuse-SameOtps r.locked t
              (subst (λ o. SameOtps s (state o)) e (increment-SameOtps email purpose 5 600 s)))
        | inr (x, t, e) ↦
            rw e (subst (λ o. SameOtps s (state o)) e (increment-SameOtps email purpose 5 600 s))
      ]

  check_row-SameOtps :
      (email : String) (purpose : OtpPurpose) (code : String) (found : Option AuthOtp) (s : AuthDb)
      → SameOtps s (state (check_row library settings email purpose code found s))
  check_row-SameOtps email purpose code none s = record { otps = refl; clock = refl }
  check_row-SameOtps email purpose code (some o) s = elim (Bool-cases (is_some o.used_at)) [
    | inl used ↦ rw used (record { otps = refl; clock = refl })
    | inr fresh ↦ rw fresh (elim (Bool-cases (ltb o.expires_at s.clock)) [
      | inl late ↦ rw late (record { otps = refl; clock = refl })
      | inr timely ↦ rw timely (
          compare-SameOtps email purpose o.id
            (same_text (hash_otp library settings code o.salt) o.code_hash) s)
    ])
  ]

  guess_all-SameOtps : (gs : List Guess) (s : AuthDb) → SameOtps s (guess_all gs s)
  unfolding guess_all check_verification
  guess_all-SameOtps [] s = record { otps = refl; clock = refl }
  guess_all-SameOtps (g ∷ gs) s =
      let t = state (check_verification library settings g.email g.purpose g.code s) in
      let first : SameOtps s t =
        check_row-SameOtps g.email g.purpose g.code
          (latest_otp library settings g.email g.purpose s) s in
      let rest = guess_all-SameOtps gs t in
      record { otps = rest.otps ∙ first.otps; clock = rest.clock ∙ first.clock }

  refuse-never :
      (b : Bool) (t : AuthDb) {id : ℕ} {s' : AuthDb} → refuse_code library settings b t ≢ ok id s'
  refuse-never true t h = cc
  refuse-never false t h = cc

  compare-again :
      (email : String) (purpose : OtpPurpose) (k : ℕ) (b : Bool) (s t : AuthDb) {id : ℕ}
      {s' : AuthDb}
      → compare_code library settings email purpose k b s ≡ ok id s'
      → (t' : AuthDb) × (compare_code library settings email purpose k b t ≡ ok id t')
  unfolding clear_otp_attempts
  compare-again email purpose k true s t {id} {s'} h =
      let same : k ≡ id = ground arith in
      (state (compare_code library settings email purpose k true t), rw same refl)
  compare-again email purpose k false s t {id} {s'} h =
      let (r, u, e, f) =
        >>=-eq-ok (increment_otp_attempts email purpose 5 600)
          (λ r. refuse_code library settings r.locked) s {b = id} {s'' = s'} h in
      absurd (refuse-never r.locked u {id = id} {s' = s'} f)

  check_row-again :
      (email : String) (purpose : OtpPurpose) (code : String) (found : Option AuthOtp)
      (s t : AuthDb) {id : ℕ} {s' : AuthDb}
      → check_row library settings email purpose code found s ≡ ok id s'
      → t.clock ≡ s.clock
      → (t' : AuthDb) × (check_row library settings email purpose code found t ≡ ok id t')
  check_row-again email purpose code none s t h c = absurd (cc)
  check_row-again email purpose code (some o) s t {id} {s'} h c =
      elim (Bool-cases (is_some o.used_at)) [
        | inl used ↦ absurd (ground arith)
        | inr fresh ↦ elim (Bool-cases (ltb o.expires_at s.clock)) [
          | inl late ↦ absurd (ground arith)
          | inr timely ↦
              let hit = same_text (hash_otp library settings code o.salt) o.code_hash in
              let run : compare_code library settings email purpose o.id hit s ≡ ok id s' =
                ground arith in
              let (t', e) = compare-again email purpose o.id hit s t {id = id} {s' = s'} run in
              let then_too : ltb o.expires_at t.clock ≡ false = rw c timely in
              (t', rw (fresh, then_too) e)
        ]
      ]

  -- A code that is accepted is accepted again, whatever was guessed meanwhile, with the time as it
  -- was: the guesses may accept it, refuse other codes or lock the address out.
  pub check_verification-again :
      (email : String) (purpose : OtpPurpose) (code : String) (gs : List Guess) (s : AuthDb)
      {id : ℕ} {s' : AuthDb}
      → check_verification library settings email purpose code s ≡ ok id s'
      → (t' : AuthDb) × (check_verification library settings email purpose code (guess_all gs s)
          ≡ ok id t')
  unfolding check_verification
  check_verification-again email purpose code gs s {id} {s'} h =
      let same = guess_all-SameOtps gs s in
      let t = guess_all gs s in
      let found = latest_otp library settings email purpose s in
      let seen : latest_otp library settings email purpose t ≡ found = rw same.otps refl in
      subst (λ f. (t' : AuthDb) × (check_row library settings email purpose code f t ≡ ok id t'))
        (sym seen) (check_row-again email purpose code found s t {s' = s'} h same.clock)
