-- ===== src/Market/Revocation.antt =====
-- Tokens after a change of rights or a deletion: the calls of src/admin/admin.service.ts,
-- src/users/users.service.ts and src/auth/auth.service.ts, and `JwtStrategy.validate`.
use kayan_place.Prelude.{
  ℕ, suc, ◌≤◌, ◌<◌, ◌≡◌, ◌≢◌, refl, String, true, List, Option, none, some, arith, same_text, subst,
  sym, Bool-cases, Option-cases, inl, inr,
}
use kayan_place.Prelude.Rows.{find_row, update_rows, All-find_row}
use kayan_place.Database.{Exec, Outcome, ok, err, state, pure, >>=-eq-ok}
use kayan_place.Auth.Tables.{AuthDb, Account, Library, Settings, Payload}
use kayan_place.Auth.Store.{consume_refresh_token_jti, is_live, user_of}
use kayan_place.Auth.Service.{refresh, is_owner, consume_jti, renew, invalid_refresh_token}
use kayan_place.Market.Tables.{MarketDb, is_user}
use kayan_place.Market.Access.{JwtPayload, validate, stale_token}
use kayan_place.Market.Admin.{promote_admin, demote_admin, delete_user}
use kayan_place.Market.Effects.{promote-ok, demote-ok, delete_user-accounts}
use kayan_place.Market.Versions.{Grows, Bound, Follow-Bound, Bound-raise, validate-stale}
use kayan_place.Market.Calls.Rows.{perform-Grows, perform_all-Grows, delete_me-accounts}
use kayan_place.Market.Calls.{
  AccountCall, promotes, demotes, deletes_user, sets_status, warns, updates_me, changes_password,
  deletes_avatar, deletes_me, logs_in, refreshes, logs_out, requests_registration,
  resends_registration, requests_reset, verifies_registration, resets_password, waits, discard,
  perform, perform_all,
}

-- The user whose rights a call changes.
abbrev pub revokes : AccountCall → Option ℕ
revokes (promotes admin k) = some k
revokes (demotes admin k) = some k
revokes (deletes_user admin k) = some k
revokes (deletes_me user) = some user.sub
revokes _ = none

module _ (status_key : ℕ → String) (to_json : String → String) (url : String → String → String)
    (library : Library) (settings : Settings) where
  discard-ok :
      {A : Type 0} (m : Exec MarketDb A) (s : MarketDb) {s' : MarketDb}
      → discard m s ≡ ok tt s'
      → (a : A) × (m s ≡ ok a s')
  discard-ok m s {s'} h =
      let (a, t, e, f) = >>=-eq-ok m (λ _. pure tt) s {b = tt} {s'' = s'} h in (a, ground arith)

  raise-rows :
      (k j version : ℕ) (f : Account → Account) (s s' : MarketDb)
      → some k ≡ some j
      → s'.accounts ≡ update_rows (is_user k) f s.accounts
      → ((a : Account) → (f a).token_version ≡ suc a.token_version)
      → Bound version j s.accounts
      → Bound (suc version) j s'.accounts
  raise-rows k j version f s s' e h raises bound =
      let same : k ≡ j = ground arith in
      rw h (
        subst (λ i. Bound (suc version) j (update_rows (is_user i) f s.accounts)) (sym same)
          (Bound-raise version j f s.accounts raises bound))

  abbrev deleted_row : MarketDb → Account → Account
  deleted_row s a = record a {
    deleted_at = some s.clock;
    token_version = suc a.token_version;
    updated_at = s.clock;
  }

  -- The rows of the user after a call that revoked them.
  revoked-Bound :
      (call : AccountCall) (k version : ℕ) (s : MarketDb) {s' : MarketDb}
      → revokes call ≡ some k
      → perform status_key to_json url library settings call s ≡ ok tt s'
      → Bound version k s.accounts
      → Bound (suc version) k s'.accounts
  unfolding perform
  revoked-Bound (promotes admin k) j version s {s'} e h bound =
      let (r, run) = discard-ok (promote_admin admin k) s {s' = s'} h in
      raise-rows k j version _ s s' e (promote-ok admin k s {r = r} {s' = s'} run) (λ a. refl) bound
  revoked-Bound (demotes admin k) j version s {s'} e h bound =
      let (r, run) = discard-ok (demote_admin admin k) s {s' = s'} h in
      raise-rows k j version _ s s' e (demote-ok admin k s {r = r} {s' = s'} run) (λ a. refl) bound
  revoked-Bound (deletes_user admin k) j version s {s'} e h bound =
      let (r, run) = discard-ok (delete_user status_key admin k) s {s' = s'} h in
      let gone = delete_user-accounts status_key admin k s in
      raise-rows k j version (deleted_row s) s s' e (ground arith) (λ a. refl) bound
  revoked-Bound (deletes_me user) j version s {s'} e h bound =
      let gone = delete_me-accounts status_key to_json url library settings user s in
      raise-rows user.sub j version (deleted_row s) s s' e (ground arith) (λ a. refl) bound
  revoked-Bound (sets_status admin k status) j version s e h bound = absurd (cc)
  revoked-Bound (warns admin dto) j version s e h bound = absurd (cc)
  revoked-Bound (updates_me user dto) j version s e h bound = absurd (cc)
  revoked-Bound (changes_password user dto) j version s e h bound = absurd (cc)
  revoked-Bound (deletes_avatar user) j version s e h bound = absurd (cc)
  revoked-Bound (logs_in email password) j version s e h bound = absurd (cc)
  revoked-Bound (refreshes token) j version s e h bound = absurd (cc)
  revoked-Bound (logs_out token) j version s e h bound = absurd (cc)
  revoked-Bound (requests_registration dto) j version s e h bound = absurd (cc)
  revoked-Bound (resends_registration email) j version s e h bound = absurd (cc)
  revoked-Bound (requests_reset email) j version s e h bound = absurd (cc)
  revoked-Bound (verifies_registration email otp) j version s e h bound = absurd (cc)
  revoked-Bound (resets_password dto) j version s e h bound = absurd (cc)
  revoked-Bound (waits seconds) j version s e h bound = absurd (cc)

  renew-stale :
      (p : Payload) (version : ℕ) (s : AuthDb)
      → p.token_version ≡ version
      → Bound (suc version) p.sub s.accounts
      → renew library settings p (find_row (is_user p.sub) s.accounts) s
        ≡ err invalid_refresh_token s
  renew-stale p version s v bound = elim (Option-cases (find_row (is_user p.sub) s.accounts)) [
    | inl e ↦ ground arith
    | inr (a, e) ↦
        let (newer, hit) =
          All-find_row (λ b. is_user p.sub b ≡ true → suc version ≤ b.token_version) (is_user p.sub)
            s.accounts bound e in
        ground (arith, newer hit)
  ]

  consume-stale :
      (p : Payload) (j : String) (version : ℕ) (s : AuthDb)
      → p.token_version ≡ version
      → Bound (suc version) p.sub s.accounts
      → (t : AuthDb) × (consume_jti library settings p (some j) s ≡ err invalid_refresh_token t)
  unfolding consume_refresh_token_jti
  consume-stale p j version s v bound = elim (Bool-cases (same_text j "")) [
    | inl e ↦ (s, ground arith)
    | inr full ↦
        let t = state (consume_refresh_token_jti j s) in
        let stored = user_of (find_row (is_live s.clock j) s.refresh_tokens) in
        elim (Bool-cases (is_owner library settings p.sub stored)) [
          | inl mine ↦ (t, ground (arith, renew-stale p version t v bound))
          | inr other ↦ (t, ground arith)
        ]
  ]

  -- A refresh token whose payload has an older version is refused.
  refresh-stale :
      (token : String) (p : Payload) (version : ℕ) (s : AuthDb)
      → library.verify settings.jwt_refresh_secret s.clock token ≡ some p
      → p.token_version ≡ version
      → Bound (suc version) p.sub s.accounts
      → (t : AuthDb) × (refresh library settings token s ≡ err invalid_refresh_token t)
  unfolding refresh
  refresh-stale token p version s e v bound = elim (Option-cases p.jti) [
    | inl n ↦ (s, ground arith)
    | inr (j, q) ↦ let (t, refused) = consume-stale p j version s v bound in (t, ground arith)
  ]

  -- What a call that revoked leaves is left by any calls after it.
  later-Bound :
      (call : AccountCall) (calls : List AccountCall) (k version : ℕ) (s : MarketDb) {s' : MarketDb}
      → revokes call ≡ some k
      → k < s.auth.next_account
      → Bound version k s.accounts
      → perform status_key to_json url library settings call s ≡ ok tt s'
      → Bound
          (suc version)
          k
          (perform_all status_key to_json url library settings calls s').accounts
  later-Bound call calls k version s {s'} e known bound h =
      let t = perform_all status_key to_json url library settings calls s' in
      let (drawn, rows) : Grows s.auth s'.auth =
        subst (λ (o : Outcome MarketDb (Unit {0})). Grows s.auth (state o).auth) h
          (perform-Grows status_key to_json url library settings call s) in
      let (later, follow) = perform_all-Grows status_key to_json url library settings calls s' in
      Follow-Bound s'.auth.next_account (suc version) k s'.accounts t.accounts (omega arith) follow
        (revoked-Bound call k version s {s' = s'} e h bound)

  -- A user whose administrator rights were given or taken, or who was deleted, by a call that
  -- succeeded: whatever calls follow of administration, of the users themselves and of
  -- authentication, an access token with a version that the user had no later than before the call
  -- is refused as stale. The id of the user is below the next one to be given.
  pub perform-stale :
      (call : AccountCall) (calls : List AccountCall) (p : JwtPayload) (version : ℕ) (s : MarketDb)
      {s' : MarketDb}
      → revokes call ≡ some p.sub
      → p.sub ≢ 0
      → p.sub < s.auth.next_account
      → p.token_version ≡ some version
      → Bound version p.sub s.accounts
      → perform status_key to_json url library settings call s ≡ ok tt s'
      → validate p (perform_all status_key to_json url library settings calls s')
        ≡ err stale_token (perform_all status_key to_json url library settings calls s')
  perform-stale call calls p version s {s'} e nonzero known has bound h =
      validate-stale p version (perform_all status_key to_json url library settings calls s')
        nonzero has (later-Bound call calls p.sub version s {s' = s'} e known bound h)

  -- After such a call a refresh token with such a version is refused too, whatever such calls
  -- follow.
  pub perform-refresh_stale :
      (call : AccountCall) (calls : List AccountCall) (token : String) (p : Payload) (version : ℕ)
      (s : MarketDb) {s' : MarketDb}
      → revokes call ≡ some p.sub
      → p.sub < s.auth.next_account
      → p.token_version ≡ version
      → Bound version p.sub s.accounts
      → perform status_key to_json url library settings call s ≡ ok tt s'
      → library.verify settings.jwt_refresh_secret
          (perform_all status_key to_json url library settings calls s').clock
          token
        ≡ some p
      → (t : AuthDb) × (refresh library settings token
            (perform_all status_key to_json url library settings calls s').auth
          ≡ err invalid_refresh_token t)
  perform-refresh_stale call calls token p version s {s'} e known v bound h verified =
      refresh-stale token p version
        (perform_all status_key to_json url library settings calls s').auth verified v
        (later-Bound call calls p.sub version s {s' = s'} e known bound h)
