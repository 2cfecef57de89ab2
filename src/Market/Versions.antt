-- ===== src/Market/Versions.antt =====
-- The token versions of users over the calls of src/admin/admin.service.ts and
-- src/users/users.service.ts, and the tokens that `JwtStrategy.validate` refuses.
use kayan_place.Prelude.{
  ℕ, suc, ◌≤◌, ◌<◌, ◌++◌, ◌≡◌, ◌≢◌, refl, Bool, true, List, [], ◌∷◌, some, is_some, arith, All,
  Bool-cases, Option-cases, inl, inr,
}
use kayan_place.Prelude.Rows.{find_row, update_rows, All-find_row, All-update_rows}
use kayan_place.Database.{err}
use kayan_place.Auth.Tables.{Account, AuthDb}
use kayan_place.Market.Tables.{MarketDb, is_user}
use kayan_place.Market.Access.{JwtPayload, validate, stale_token}

-- A row and what a call made of it: the id stays, a deleted user stays deleted, and the version
-- does not fall.
abbrev pub Next : Account → Account → Type 0
Next a b =
    (b.id ≡ a.id)
    × (is_some a.deleted_at ≡ true → is_some b.deleted_at ≡ true)
    × (a.token_version ≤ b.token_version)

-- The rows of users and what calls made of them: new rows stand behind, with ids from `n` on.
abbrev pub Follow : (n : ℕ) → (xs ys : List Account) → Type 0
Follow n [] ys = All (λ b. n ≤ b.id) ys
Follow n (a ∷ xs) [] = ⊥
Follow n (a ∷ xs) (b ∷ ys) = Next a b × Follow n xs ys

pub Follow-refl : (n : ℕ) (xs : List Account) → Follow n xs xs
Follow-refl n [] = tt
Follow-refl n (a ∷ xs) = ((refl, λ h. h, omega arith), Follow-refl n xs)

pub Follow-add : (n : ℕ) (xs : List Account) (a : Account) → n ≤ a.id → Follow n xs (xs ++ a ∷ [])
Follow-add n [] a h = (h, tt)
Follow-add n (b ∷ xs) a h = ((refl, λ h. h, omega arith), Follow-add n xs a h)

Next-trans : (a b c : Account) → Next a b → Next b c → Next a c
Next-trans a b c (p, q, r) (p', q', r') = (ground arith, λ h. q' (q h), omega arith)

Follow-later :
    (n m : ℕ) (ys zs : List Account)
    → n ≤ m
    → All (λ b. n ≤ b.id) ys
    → Follow m ys zs
    → All (λ c. n ≤ c.id) zs
Follow-later n m [] [] le h k = tt
Follow-later n m [] (c ∷ zs) le h (p, k) = ((omega arith), Follow-later n m [] zs le h k)
Follow-later n m (b ∷ ys) [] le h k = absurd k
Follow-later n m (b ∷ ys) (c ∷ zs) le (p, h) ((same, gone, up), k) =
    (ground arith, Follow-later n m ys zs le h k)

Follow-trans :
    (n m : ℕ) (xs ys zs : List Account) → n ≤ m → Follow n xs ys → Follow m ys zs → Follow n xs zs
Follow-trans n m [] ys zs le h k = Follow-later n m ys zs le h k
Follow-trans n m (a ∷ xs) [] zs le h k = absurd h
Follow-trans n m (a ∷ xs) (b ∷ ys) [] le h k = absurd k
Follow-trans n m (a ∷ xs) (b ∷ ys) (c ∷ zs) le (p, h) (q, k) =
    (Next-trans a b c p q, Follow-trans n m xs ys zs le h k)

pub Follow-update :
    (n : ℕ) (p : Account → Bool) (f : Account → Account) (xs : List Account)
    → ((a : Account) → Next a (f a))
    → Follow n xs (update_rows p f xs)
Follow-update n p f [] step = tt
Follow-update n p f (a ∷ xs) step = elim (Bool-cases (p a)) [
  | inl e ↦ rw e (step a, Follow-update n p f xs step)
  | inr e ↦ rw e ((refl, λ h. h, omega arith), Follow-update n p f xs step)
]

-- The users of two states, the later one with no lower identity to come.
abbrev pub Grows : AuthDb → AuthDb → Type 0
Grows s t = (s.next_account ≤ t.next_account) × Follow s.next_account s.accounts t.accounts

pub Grows-refl : (s : AuthDb) → Grows s s
Grows-refl s = (omega arith, Follow-refl s.next_account s.accounts)

pub Grows-trans : (s t u : AuthDb) → Grows s t → Grows t u → Grows s u
Grows-trans s t u (p, h) (q, k) =
    (omega arith, Follow-trans s.next_account t.next_account s.accounts t.accounts u.accounts p h k)

-- All rows that `id = k AND deleted_at IS NULL` selects have at least this version.
abbrev pub Bound : (version k : ℕ) → List Account → Type 0
Bound version k rows = All (λ a. is_user k a ≡ true → version ≤ a.token_version) rows

Next-Bound :
    (version k : ℕ) (a b : Account)
    → Next a b
    → (is_user k a ≡ true → version ≤ a.token_version)
    → is_user k b ≡ true
    → version ≤ b.token_version
Next-Bound version k a b (same, gone, le) h e = elim (Bool-cases (is_some a.deleted_at)) [
  | inl d ↦ absurd (ground (arith, gone d))
  | inr d ↦ let was : is_user k a ≡ true = ground arith in omega (arith, h was)
]

New-Bound :
    (n version k : ℕ) (ys : List Account) → k < n → All (λ b. n ≤ b.id) ys → Bound version k ys
New-Bound n version k [] lt h = tt
New-Bound n version k (b ∷ ys) lt (p, h) =
    ((λ e. absurd (ground arith)), New-Bound n version k ys lt h)

pub Follow-Bound :
    (n version k : ℕ) (xs ys : List Account)
    → k < n
    → Follow n xs ys
    → Bound version k xs
    → Bound version k ys
Follow-Bound n version k [] ys lt f h = New-Bound n version k ys lt f
Follow-Bound n version k (a ∷ xs) [] lt f h = absurd f
Follow-Bound n version k (a ∷ xs) (b ∷ ys) lt (m, f) (p, h) =
    (Next-Bound version k a b m p, Follow-Bound n version k xs ys lt f h)

-- A write that raises the version of the rows of one user.
pub Bound-raise :
    (version k : ℕ) (f : Account → Account) (xs : List Account)
    → ((a : Account) → (f a).token_version ≡ suc a.token_version)
    → Bound version k xs
    → Bound (suc version) k (update_rows (is_user k) f xs)
Bound-raise version k f xs raises h =
    All-update_rows (λ a. is_user k a ≡ true → version ≤ a.token_version)
      (λ a. is_user k a ≡ true → suc version ≤ a.token_version) (is_user k) f
      (λ a old hit _. omega (arith, old hit, raises a)) (λ a old miss hit. absurd (ground arith)) xs
      h

-- A payload of an older version is refused.
pub validate-stale :
    (p : JwtPayload) (version : ℕ) (s : MarketDb)
    → p.sub ≢ 0
    → p.token_version ≡ some version
    → Bound (suc version) p.sub s.accounts
    → validate p s ≡ err stale_token s
unfolding validate
validate-stale p version s nonzero has bound =
    elim (Option-cases (find_row (is_user p.sub) s.accounts)) [
      | inl e ↦ ground arith
      | inr (a, e) ↦
          let (newer, hit) =
            All-find_row (λ b. is_user p.sub b ≡ true → suc version ≤ b.token_version)
              (is_user p.sub) s.accounts bound e in
          ground (arith, newer hit)
    ]
