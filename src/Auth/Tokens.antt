-- ===== src/Auth/Tokens.antt =====
-- Refresh tokens in src/auth/auth-state.store.ts: what is spent stays spent.
use kayan_place.Prelude.{
  ℕ, ◌+◌, ◌≡◌, ◌≢◌, refl, String, Bool, false, inl, inr, List, [], ◌∷◌, ◌++◌, none, some, arith,
  same_text, same_text_iff, same_text-false, sym, ◌∙◌, Bool-cases,
}
use kayan_place.Prelude.Rows.{find_row, any_row, update_rows, delete_rows, any_row-find_row}
use kayan_place.Database.{ok, state}
use kayan_place.Auth.Tables.{AuthDb, RefreshToken}
use kayan_place.Auth.Store.{
  is_live, save_refresh_token_jti, consume_refresh_token_jti, revoke_refresh_token_jti,
}

-- What happens to the tokens: the store's operations, and time that passes.
pub data TokenCall : Type 0 where
  saves : String → (user_id ttl : ℕ) → TokenCall
  consumes : String → TokenCall
  revokes : String → TokenCall
  waits : ℕ → TokenCall

pub run : TokenCall → AuthDb → AuthDb
run (saves jti user_id ttl) s = state (save_refresh_token_jti jti user_id ttl s)
run (consumes jti) s = state (consume_refresh_token_jti jti s)
run (revokes jti) s = state (revoke_refresh_token_jti jti s)
run (waits n) s = record s { clock = s.clock + n }

pub run_all : List TokenCall → AuthDb → AuthDb
run_all [] s = s
run_all (c ∷ cs) s = run_all cs (run c s)

-- No call saves this jti.
abbrev pub SavesOther : String → TokenCall → Type 0
SavesOther jti (saves j user_id ttl) = j ≢ jti
SavesOther jti _ = Unit

abbrev pub NeverSaves : String → List TokenCall → Type 0
NeverSaves jti [] = Unit
NeverSaves jti (c ∷ cs) = SavesOther jti c × NeverSaves jti cs

abbrev pub Spent : String → AuthDb → Type 0
Spent jti s = any_row (is_live s.clock jti) s.refresh_tokens ≡ false

pub delete-spent :
    (now : ℕ) (j : String) (ts : List RefreshToken)
    → any_row (is_live now j) (delete_rows (is_live now j) ts) ≡ false
delete-spent now j [] = refl
delete-spent now j (t ∷ ts) = ground (arith, delete-spent now j ts)

delete-keeps :
    (now : ℕ) (j : String) (q : RefreshToken → Bool) (ts : List RefreshToken)
    → any_row (is_live now j) ts ≡ false
    → any_row (is_live now j) (delete_rows q ts) ≡ false
delete-keeps now j q [] h = refl
delete-keeps now j q (t ∷ ts) h = ground (arith, delete-keeps now j q ts)

revoke-spent :
    (now at : ℕ) (j : String) (ts : List RefreshToken)
    → any_row
        (is_live now j)
        (update_rows (λ t. same_text t.jti j) (λ t. record t { revoked_at = some at }) ts)
      ≡ false
revoke-spent now at j [] = refl
revoke-spent now at j (t ∷ ts) = ground (arith, revoke-spent now at j ts)

revoke-keeps :
    (now at : ℕ) (j k : String) (ts : List RefreshToken)
    → any_row (is_live now j) ts ≡ false
    → any_row
        (is_live now j)
        (update_rows (λ t. same_text t.jti k) (λ t. record t { revoked_at = some at }) ts)
      ≡ false
revoke-keeps now at j k [] h = refl
revoke-keeps now at j k (t ∷ ts) h = ground (arith, revoke-keeps now at j k ts)

wait-keeps :
    (now n : ℕ) (j : String) (ts : List RefreshToken)
    → any_row (is_live now j) ts ≡ false
    → any_row (is_live (now + n) j) ts ≡ false
wait-keeps now n j [] h = refl
wait-keeps now n j (t ∷ ts) h = ground (arith, wait-keeps now n j ts)

put-keeps :
    (now later user_id : ℕ) (jti j : String) (ts : List RefreshToken)
    → j ≢ jti
    → any_row (is_live now jti) ts ≡ false
    → any_row (is_live now jti) (
        update_rows
          (λ t. same_text t.jti j)
          (λ t. record t { user_id = user_id; expires_at = later; revoked_at = none })
          ts)
      ≡ false
put-keeps now later user_id jti j [] ne h = refl
put-keeps now later user_id jti j (t ∷ ts) ne h = elim (Bool-cases (same_text t.jti j)) [
  | inl e ↦
      let same : t.jti ≡ j = (same_text_iff t.jti j).0 e in
      let other : same_text t.jti jti ≡ false =
        same_text-false t.jti jti (λ q. ne (sym same ∙ q)) in
      ground (arith, put-keeps now later user_id jti j ts ne, other, e, h)
  | inr e ↦ ground (arith, put-keeps now later user_id jti j ts ne, e, h)
]

insert-keeps :
    (now : ℕ) (jti : String) (new : RefreshToken) (ts : List RefreshToken)
    → is_live now jti new ≡ false
    → any_row (is_live now jti) ts ≡ false
    → any_row (is_live now jti) (ts ++ new ∷ []) ≡ false
insert-keeps now jti new [] e h = rw e refl
insert-keeps now jti new (t ∷ ts) e h = ground (arith, insert-keeps now jti new ts e, h)

pub save-keeps :
    (s : AuthDb) (jti j : String) (user_id ttl : ℕ)
    → j ≢ jti
    → Spent jti s
    → Spent jti (state (save_refresh_token_jti j user_id ttl s))
unfolding save_refresh_token_jti
save-keeps s jti j user_id ttl ne h =
    let now = s.clock in
    let ts = s.refresh_tokens in
    let new : RefreshToken = record {
      jti = j;
      user_id = user_id;
      expires_at = s.clock + ttl;
      revoked_at = none;
    } in
    elim (Bool-cases (any_row (λ t. same_text t.jti j) ts)) [
      | inl known ↦ rw known (put-keeps now (now + ttl) user_id jti j ts ne h)
      | inr fresh ↦ rw fresh (insert-keeps now jti new ts (rw (same_text-false j jti ne) refl) h)
    ]

run-Spent :
    (c : TokenCall) (jti : String) (s : AuthDb)
    → SavesOther jti c
    → Spent jti s
    → Spent jti (run c s)
unfolding run consume_refresh_token_jti revoke_refresh_token_jti
run-Spent (saves j user_id ttl) jti s ne h = save-keeps s jti j user_id ttl ne h
run-Spent (consumes j) jti s ne h = delete-keeps s.clock jti (is_live s.clock j) s.refresh_tokens h
run-Spent (revokes j) jti s ne h = revoke-keeps s.clock s.clock jti j s.refresh_tokens h
run-Spent (waits n) jti s ne h = wait-keeps s.clock n jti s.refresh_tokens h

run_all-Spent :
    (cs : List TokenCall) (jti : String) (s : AuthDb)
    → NeverSaves jti cs
    → Spent jti s
    → Spent jti (run_all cs s)
unfolding run_all
run_all-Spent [] jti s ne h = h
run_all-Spent (c ∷ cs) jti s (ne, more) h =
    run_all-Spent cs jti (run c s) more (run-Spent c jti s ne h)

pub consume-Spent :
    (jti : String) (s : AuthDb)
    → Spent jti s
    → (s' : AuthDb) × (consume_refresh_token_jti jti s ≡ ok none s')
unfolding consume_refresh_token_jti
consume-Spent jti s h =
    let missing : find_row (is_live s.clock jti) s.refresh_tokens ≡ none =
      ground (arith, any_row-find_row (is_live s.clock jti) s.refresh_tokens, h) in
    (state (consume_refresh_token_jti jti s), rw missing refl)

-- A refresh token that was consumed or revoked is refused ever after: over any saves of other
-- tokens, consumptions, revocations and any time, consuming its jti answers none.
pub consume_refresh_token_jti-spent :
    (jti : String) (cs : List TokenCall) (s : AuthDb)
    → NeverSaves jti cs
    → ((s' : AuthDb) × (consume_refresh_token_jti jti (run_all cs (run (consumes jti) s))
          ≡ ok none s'))
      × ((s' : AuthDb) × (consume_refresh_token_jti jti (run_all cs (run (revokes jti) s))
            ≡ ok none s'))
unfolding run consume_refresh_token_jti revoke_refresh_token_jti
consume_refresh_token_jti-spent jti cs s ne = (
  consume-Spent jti (run_all cs (run (consumes jti) s))
      (run_all-Spent cs jti (run (consumes jti) s) ne (delete-spent s.clock jti s.refresh_tokens)),
  consume-Spent jti (run_all cs (run (revokes jti) s)) (
      run_all-Spent cs jti (run (revokes jti) s) ne
        (revoke-spent s.clock s.clock jti s.refresh_tokens)),
)
