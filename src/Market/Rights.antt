-- ===== src/Market/Rights.antt =====
-- What changes of status, rights and passwords mean for the requests after them:
-- src/admin/admin.service.ts, src/users/users.service.ts, src/auth/jwt.strategy.ts,
-- src/common/guards/admin.guard.ts and `login` of src/auth/auth.service.ts.
use kayan_place.Prelude.{
  ℕ, suc, ◌≡◌, refl, String, true, false, some, ◌==◌, arith, Option-cases, inl, inr,
}
use kayan_place.Prelude.Rows.{find_row, find_row-update_rows, find_row-true}
use kayan_place.Database.{ok, state}
use kayan_place.Auth.Tables.{Account, UserStatus, Library, Settings, is_active}
use kayan_place.Auth.Service.{login, is_member, Tokens}
use kayan_place.Auth.Sessions.{generated, generate-ok}
use kayan_place.Kayan.Dto.{AuthUser}
use kayan_place.Market.Tables.{MarketDb, is_user, on_auth}
use kayan_place.Market.Access.{JwtPayload, AccessUser, validate, can_activate}
use kayan_place.Market.Admin.{AdminUser, update_user_status, demote_admin, set_status}
use kayan_place.Market.Users.{change_password, ChangePasswordDto, set_hash}
use kayan_place.Market.Effects.{status-accounts, demote-ok}

validate-status :
    (s t : MarketDb) (k : ℕ) (status : UserStatus) (p : JwtPayload) (r : AccessUser)
    → t.accounts ≡ (set_status s k status).accounts
    → validate p s ≡ ok r s
    → validate p t ≡ ok r t
unfolding validate
validate-status s t k status p r e h = elim (Option-cases (find_row (is_user p.sub) s.accounts)) [
  | inl n ↦ absurd (ground arith)
  | inr (a, f) ↦
      let kept =
        find_row-update_rows (is_user p.sub) (is_user k)
          (λ b. record b { status = status; updated_at = s.clock }) (λ b. refl) s.accounts f in
      ground (arith, kept)
]

-- `JwtStrategy.validate` does not look at the status: an access token that was accepted before the
-- status of any user was set, to paused or banned too, is accepted after, with the same result.
pub update_user_status-validate :
    (status_key : ℕ → String) (admin : AuthUser) (k : ℕ) (status : UserStatus) (p : JwtPayload)
    (r : AccessUser) (s : MarketDb)
    → validate p s ≡ ok r s
    → let t = state (update_user_status status_key admin k status s) in validate p t ≡ ok r t
update_user_status-validate status_key admin k status p r s h =
    validate-status s _ k status p r (status-accounts status_key admin k status s) h

not_self :
    (admin : AuthUser) (k : ℕ) (s : MarketDb) {r : AdminUser × ℕ} {s' : MarketDb}
    → demote_admin admin k s ≡ ok r s'
    → (admin.sub == k) ≡ false
unfolding demote_admin
not_self admin k s {r} {s'} h = ground arith

-- The administrator who takes the rights of another keeps them: `AdminGuard` lets the actor pass
-- after the call as it did before.
pub demote_admin-can_activate :
    (admin : AuthUser) (user : AccessUser) (k : ℕ) (s : MarketDb) {r : AdminUser × ℕ}
    {s' : MarketDb}
    → user.sub ≡ admin.sub
    → can_activate user s ≡ ok (record user { is_admin = true }) s
    → demote_admin admin k s ≡ ok r s'
    → can_activate user s' ≡ ok (record user { is_admin = true }) s'
unfolding can_activate
demote_admin-can_activate admin user k s {r} {s'} same before h =
    let refused : (admin.sub == k) ≡ false = not_self admin k s {r = r} {s' = s'} h in
    elim (Option-cases (find_row (λ a. a.id == user.sub) s.accounts)) [
      | inl n ↦ absurd (ground arith)
      | inr (a, f) ↦
          let g = λ (b : Account). record b {
            is_admin = false;
            token_version = suc b.token_version;
            updated_at = s.clock;
          } in
          let kept =
            find_row-update_rows (λ b. b.id == user.sub) (is_user k) g (λ b. refl) s.accounts f in
          let is_it = find_row-true (λ b. b.id == user.sub) s.accounts f in
          let other : is_user k a ≡ false = ground arith in
          ground (arith, kept, other, demote-ok admin k s {r = r} {s' = s'} h)
    ]

-- After a change of the password that succeeded, the new password logs its user in, if the user is
-- active and the one that the address finds, and bcrypt accepts a password against its own hash.
pub change_password-login :
    (library : Library) (settings : Settings) (user : AuthUser) (dto : ChangePasswordDto)
    (a : Account) (s : MarketDb) {s' : MarketDb}
    → ((draw : ℕ) (password : String)
        → library.compare password (library.hash draw password) ≡ true)
    → find_row (is_user user.sub) s.accounts ≡ some a
    → find_row (is_member library settings a.email) s.accounts ≡ some a
    → is_active a.status ≡ true
    → change_password library user dto s ≡ ok tt s'
    → (b : Account) × (tokens : Tokens) × (t : MarketDb) × (on_auth
          (login library settings a.email dto.new_password)
          s'
        ≡ ok (b, tokens) t)
unfolding change_password login
change_password-login library settings user dto a s {s'} bcrypt found member active h =
    let u = set_hash user.sub (library.hash s.draws dto.new_password) s in
    let f = λ (b : Account). record b {
      password_hash = library.hash s.draws dto.new_password;
      updated_at = s.clock;
    } in
    let final : s' ≡ u = ground arith in
    let hit =
      find_row-update_rows (is_member library settings a.email) (is_user user.sub) f (λ b. refl)
        s.accounts member in
    let mine = find_row-true (is_user user.sub) s.accounts found in
    let (tokens, g) = generate-ok library settings (f a) u.auth in
    (
      f a,
      tokens,
      record u { auth = generated library settings (f a) u.auth },
      rw final (ground (arith, hit, mine, active, bcrypt s.draws dto.new_password, g)),
    )
