-- ===== src/Auth/Sessions.antt =====
-- Sessions of src/auth/auth.service.ts: `refresh`, and `login` after `resetPassword`.
use kayan_place.Prelude.{
  ℕ, suc, ◌==◌, String, ◌≡◌, ◌≢◌, refl, true, false, not, ◌&&◌, ◌||◌, inl, inr, Option, none, some,
  arith, sym, ◌∙◌, ap, is_some, same_text, Bool-cases, Option-cases, ==_refl,
}
use kayan_place.Prelude.Rows.{find_row, update_rows, find_row-update_rows}
use kayan_place.Database.{ok, err, state, >>=-eq-ok, with_transaction-ok, with_transaction}
use kayan_place.Auth.Tables.{
  AuthDb, Account, Payload, Library, Settings, is_active, rollback, password_reset,
}
use kayan_place.Auth.Store.{save_refresh_token_jti, consume_refresh_token_jti, is_live, user_of}
use kayan_place.Auth.Otp.{check_verification}
use kayan_place.Auth.Service.{
  Tokens, ResetPasswordDto, generate_tokens, consume_jti, renew, refresh, login, reset_password,
  reset_callback, set_password, is_member, is_owner, invalid_refresh_token,
}
use kayan_place.Auth.Tokens.{Spent, delete-spent, save-keeps, consume-Spent}

module _ (library : Library) (settings : Settings) where
  -- New tokens: one more random value, and the refresh token saved.
  pub generated : Account → AuthDb → AuthDb
  generated a s = state (
      save_refresh_token_jti (library.random_hex s.draws) a.id settings.jwt_refresh_ttl
        (record s { draws = suc s.draws }))

  pub generate-ok :
      (a : Account) (s : AuthDb)
      → (r : Tokens) × (generate_tokens library settings a s ≡ ok r (generated a s))
  unfolding generate_tokens generated save_refresh_token_jti
  generate-ok a s = (_, refl)

  renew-ok :
      (p : Payload) (found : Option Account) (s : AuthDb) {r : Tokens} {s' : AuthDb}
      → renew library settings p found s ≡ ok r s'
      → (a : Account) × (s' ≡ generated a s)
  renew-ok p none s h = absurd (cc)
  renew-ok p (some a) s {r} {s'} h =
      elim (Bool-cases (not (is_active a.status) || not (a.token_version == p.token_version))) [
        | inl bad ↦ absurd (ground arith)
        | inr good ↦ (a, ground (arith, (generate-ok a s).1))
      ]

  -- What a successful refresh did with the token that it was given.
  record Refreshed (token : String) (s s' : AuthDb) : Type 0 where
    payload : Payload
    jti : String
    verified : library.verify settings.jwt_refresh_secret s.clock token ≡ some payload
    has_jti : payload.jti ≡ some jti
    nonempty : same_text jti "" ≡ false
    account : Account
    final : s' ≡ generated account (state (consume_refresh_token_jti jti s))

  consume_jti-ok :
      (p : Payload) (j : String) (s : AuthDb) {r : Tokens} {s' : AuthDb}
      → consume_jti library settings p (some j) s ≡ ok r s'
      → (same_text j "" ≡ false)
        × (a : Account) × (s' ≡ generated a (state (consume_refresh_token_jti j s)))
  unfolding consume_refresh_token_jti
  consume_jti-ok p j s {r} {s'} h = elim (Bool-cases (same_text j "")) [
    | inl e ↦ absurd (ground arith)
    | inr full ↦
        let found = find_row (is_live s.clock j) s.refresh_tokens in
        let s₁ = state (consume_refresh_token_jti j s) in
        let stored = user_of found in
        elim (Bool-cases (is_owner library settings p.sub stored)) [
          | inl mine ↦
              let account =
                find_row (λ a. a.id == p.sub && not (is_some a.deleted_at)) s₁.accounts in
              let renewed : renew library settings p account s₁ ≡ ok r s' = ground arith in
              let (a, final) = renew-ok p account s₁ {r = r} {s' = s'} renewed in (full, a, final)
          | inr other ↦ absurd (ground arith)
        ]
  ]

  refresh-Refreshed :
      (token : String) (s : AuthDb) {r : Tokens} {s' : AuthDb}
      → refresh library settings token s ≡ ok r s'
      → Refreshed token s s'
  unfolding refresh
  refresh-Refreshed token s {r} {s'} h =
      elim (Option-cases (library.verify settings.jwt_refresh_secret s.clock token)) [
        | inl e ↦ absurd (ground arith)
        | inr (p, e) ↦ elim (Option-cases p.jti) [
          | inl n ↦ absurd (ground arith)
          | inr (j, q) ↦
              let run : consume_jti library settings p (some j) s ≡ ok r s' = ground arith in
              let (full, a, f) = consume_jti-ok p j s {r = r} {s' = s'} run in
              record {
                payload = p;
                jti = j;
                verified = e;
                has_jti = q;
                nonempty = full;
                account = a;
                final = f;
              }
        ]
      ]

  refresh-refused :
      (token : String) (t : AuthDb) (p : Payload) (j : String)
      → library.verify settings.jwt_refresh_secret t.clock token ≡ some p
      → p.jti ≡ some j
      → same_text j "" ≡ false
      → Spent j t
      → (s'' : AuthDb) × (refresh library settings token t ≡ err invalid_refresh_token s'')
  unfolding refresh
  refresh-refused token t p j e q full spent =
      let (u, c) = consume-Spent j t spent in (u, ground (arith, c))

  generated-Spent :
      (a : Account) (j : String) (s : AuthDb)
      → library.random_hex s.draws ≢ j
      → Spent j s
      → Spent j (generated a s)
  unfolding generated
  generated-Spent a j s ne h =
      save-keeps (record s { draws = suc s.draws }) j (library.random_hex s.draws) a.id
        settings.jwt_refresh_ttl ne h

  generated-clock : (a : Account) (s : AuthDb) → (generated a s).clock ≡ s.clock
  unfolding generated save_refresh_token_jti
  generated-clock a s = refl

  -- A refresh token is good for one refresh: after one that succeeded, the same token is refused at
  -- the same time, if the random jti of the new token is not that of the old.
  pub refresh-once :
      (token : String) (s : AuthDb) {r : Tokens} {s' : AuthDb}
      → refresh library settings token s ≡ ok r s'
      → ((p : Payload)
          → library.verify settings.jwt_refresh_secret s.clock token ≡ some p
          → p.jti ≢ some (library.random_hex s.draws))
      → (s'' : AuthDb) × (refresh library settings token s' ≡ err invalid_refresh_token s'')
  unfolding consume_refresh_token_jti
  refresh-once token s {r} {s'} h ne =
      let f = refresh-Refreshed token s {r = r} {s' = s'} h in
      let s₁ = state (consume_refresh_token_jti f.jti s) in
      let other : library.random_hex s.draws ≢ f.jti =
        λ e. ne f.payload f.verified (f.has_jti ∙ ap some (sym e)) in
      let spent : Spent f.jti (generated f.account s₁) =
        generated-Spent f.account f.jti s₁ other (delete-spent s.clock f.jti s.refresh_tokens) in
      let same_time : (generated f.account s₁).clock ≡ s.clock = generated-clock f.account s₁ in
      rw f.final (
        refresh-refused token (generated f.account s₁) f.payload f.jti (rw same_time f.verified)
          f.has_jti f.nonempty spent)

  abbrev with_password : AuthDb → String → Account → Account
  with_password s password b = record b {
    password_hash = library.hash s.draws password;
    updated_at = s.clock;
  }

  abbrev changed : AuthDb → String → Account → AuthDb
  changed s password a = record s {
    draws = suc s.draws;
    accounts = update_rows (λ b. b.id == a.id) (with_password s password) s.accounts;
  }

  set_password-ok :
      (password : String) (a : Account) (s : AuthDb) {r : Tokens} {s' : AuthDb}
      → set_password library settings password (some a) s ≡ ok r s'
      → (is_active a.status ≡ true) × (s' ≡ generated a (changed s password a))
  set_password-ok password a s {r} {s'} h = elim (Bool-cases (is_active a.status)) [
    | inl e ↦ (e, ground (arith, (generate-ok a (changed s password a)).1))
    | inr e ↦ absurd (ground arith)
  ]

  generated-accounts : (a : Account) (s : AuthDb) → (generated a s).accounts ≡ s.accounts
  unfolding generated save_refresh_token_jti
  generated-accounts a s = refl

  login-changed :
      (email password : String) (a : Account) (s : AuthDb)
      → ((draw : ℕ) (p : String) → library.compare p (library.hash draw p) ≡ true)
      → find_row (is_member library settings email) s.accounts ≡ some a
      → is_active a.status ≡ true
      → (b : Account) × (t : Tokens) × (s'' : AuthDb) × (login library settings email password
            (generated a (changed s password a))
          ≡ ok (b, t) s'')
  unfolding login
  login-changed email password a s bcrypt e active =
      let u = generated a (changed s password a) in
      let b = with_password s password a in
      let hit : find_row (is_member library settings email) u.accounts ≡ some b =
        rw (generated-accounts a (changed s password a)) (
          find_row-update_rows (is_member library settings email) (λ c. c.id == a.id)
            (with_password s password) (λ c. refl) s.accounts e
          ∙ rw (==_refl a.id) refl) in
      let (t, g) = generate-ok b u in
      (b, t, generated b u, ground (arith, hit, active, bcrypt s.draws password, g))

  -- After a password was reset, the new password logs its user in, given that bcrypt accepts a
  -- password against its own hash.
  pub reset_password-login :
      (dto : ResetPasswordDto) (s : AuthDb) {r : Tokens} {s' : AuthDb}
      → ((draw : ℕ) (password : String)
          → library.compare password (library.hash draw password) ≡ true)
      → reset_password library settings dto s ≡ ok r s'
      → (a : Account) × (t : Tokens) × (s'' : AuthDb) × (login library settings dto.email
            dto.new_password s'
          ≡ ok (a, t) s'')
  unfolding reset_password login
  reset_password-login dto s {r} {s'} bcrypt h =
      elim (Bool-cases (same_text dto.new_password dto.confirm_password)) [
        | inr e ↦ absurd (ground arith)
        | inl e ↦
            let (id, s₁, checked, rest) =
              >>=-eq-ok (check_verification library settings dto.email password_reset dto.otp)
                (λ _. with_transaction rollback (reset_callback library settings dto)) s {b = r}
                {s'' = s'} (ground arith) in
            let body =
              with_transaction-ok rollback (reset_callback library settings dto) s₁ {a = r}
                {s' = s'} rest in
            elim (Option-cases (find_row (is_member library settings dto.email) s₁.accounts)) [
              | inl none_found ↦ absurd (ground arith)
              | inr (a, found) ↦
                  let (active, final) =
                    set_password-ok dto.new_password a s₁ {r = r} {s' = s'} (ground arith) in
                  rw final (login-changed dto.email dto.new_password a s₁ bcrypt found active)
            ]
      ]
