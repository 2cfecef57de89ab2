-- ===== src/Kayan/History.antt =====
-- The status histories that src/kayan/kayan.service.ts appends to, for orders, faults and services.
use mathlib.Core.List.{map-append}
use kayan_place.Prelude.{
  ℕ, suc, ◌<◌, ◌≤◌, ◌≡◌, ◌≢◌, refl, Bool, List, [], ◌∷◌, ◌++◌, map, Option, none, some, arith, ◌==◌,
  if◌then◌else◌, All, All-append, Bool-cases, inl, inr,
}
use kayan_place.Prelude.Rows.{find_row, update_rows, All-update_rows, All-map}
use kayan_place.Kayan.Tables.{HistoryEntry}

module _ {S : Type 0} where
  -- A later status, if there is one, before an earlier one.
  abbrev or_earlier : Option S → Option S → Option S
  or_earlier none earlier = earlier
  or_earlier (some status) earlier = some status

  -- The status of the last entry of an item.
  abbrev pub last_status : ℕ → List (HistoryEntry S) → Option S
  last_status k [] = none
  last_status k (h ∷ hs) =
      or_earlier (last_status k hs) (if h.item_id == k then some h.status else none)

  pub last_status-append :
      (k : ℕ) (hs : List (HistoryEntry S)) (h : HistoryEntry S)
      → last_status k (hs ++ h ∷ []) ≡ (if h.item_id == k then some h.status else last_status k hs)
  last_status-append k [] h = ground arith
  last_status-append k (g ∷ gs) h = ground (arith, last_status-append k gs h)

abbrev pub Distinct : List ℕ → Type 0
Distinct [] = Unit
Distinct (k ∷ ks) = All (λ j. j ≢ k) ks × Distinct ks

pub Distinct-append :
    (n : ℕ) (ks : List ℕ) → All (λ j. j < n) ks → Distinct ks → Distinct (ks ++ n ∷ [])
Distinct-append n [] h d = (tt, tt)
Distinct-append n (k ∷ ks) (p, h) (q, d) =
    (All-append (λ j. j ≢ k) ks (n ∷ []) q (omega arith, tt), Distinct-append n ks h d)

-- A table of rows that have a status, beside the history of the statuses: the ids are distinct and
-- below the next one, and each row has the status that its history ends in.
module _ {R S : Type 0} (id : R → ℕ) (status : R → S) where
  pub record IsLogged (next : ℕ) (rows : List R) (history : List (HistoryEntry S)) : Type 0 where
    pub fresh : All (λ k. k < next) (map id rows)
    pub distinct : Distinct (map id rows)
    pub logged : All (λ r. last_status (id r) history ≡ some (status r)) rows

  last_status_of_new :
      (next : ℕ) (rows : List R) (history : List (HistoryEntry S)) (h : HistoryEntry S)
      → h.item_id ≡ next
      → All (λ k. k < next) (map id rows)
      → All (λ r. last_status (id r) history ≡ some (status r)) rows
      → All (λ r. last_status (id r) (history ++ h ∷ []) ≡ some (status r)) rows
  last_status_of_new next [] history h e f l = tt
  last_status_of_new next (r ∷ rs) history h e (p, f) (q, l) = (
    ground (arith, last_status-append (id r) history h),
    last_status_of_new next rs history h e f l,
  )

  pub IsLogged-insert :
      (next : ℕ) (rows : List R) (history : List (HistoryEntry S)) (r : R) (h : HistoryEntry S)
      → id r ≡ next
      → h.item_id ≡ next
      → h.status ≡ status r
      → IsLogged next rows history
      → IsLogged (suc next) (rows ++ r ∷ []) (history ++ h ∷ [])
  IsLogged-insert next rows history r h a b c v = record {
    fresh = rw map-append (
        All-append (λ k. k < suc next) (map id rows) (id r ∷ [])
          (All-map (λ k (p : k < next). omega arith) (map id rows) v.fresh) (omega arith, tt));
    distinct = rw (map-append, a) (Distinct-append next (map id rows) v.fresh v.distinct);
    logged =
        All-append _ rows (r ∷ []) (last_status_of_new next rows history h b v.fresh v.logged)
          (ground (arith, last_status-append (id r) history h), tt);
  }

  pub map-update_rows :
      (p : R → Bool) (f : R → R) (rows : List R)
      → ((r : R) → id (f r) ≡ id r)
      → map id (update_rows p f rows) ≡ map id rows
  map-update_rows p f [] same = refl
  map-update_rows p f (r ∷ rs) same = ground (arith, same r, map-update_rows p f rs same)

  -- A status is set and logged.
  pub IsLogged-update :
      (next k : ℕ) (rows : List R) (history : List (HistoryEntry S)) (f : R → R)
      (h : HistoryEntry S)
      → h.item_id ≡ k
      → ((r : R) → id (f r) ≡ id r)
      → ((r : R) → status (f r) ≡ h.status)
      → IsLogged next rows history
      → IsLogged next (update_rows (λ r. id r == k) f rows) (history ++ h ∷ [])
  IsLogged-update next k rows history f h e same set v = record {
    fresh = rw (map-update_rows (λ r. id r == k) f rows same) v.fresh;
    distinct = rw (map-update_rows (λ r. id r == k) f rows same) v.distinct;
    logged =
        All-update_rows (λ r. last_status (id r) history ≡ some (status r))
          (λ r. last_status (id r) (history ++ h ∷ []) ≡ some (status r)) (λ r. id r == k) f
          (λ r l t. ground (arith, last_status-append (id (f r)) history h, same r, set r))
          (λ r l t. ground (arith, last_status-append (id r) history h)) rows v.logged;
  }

  -- Other columns are set.
  pub IsLogged-touch :
      (next : ℕ) (rows : List R) (history : List (HistoryEntry S)) (p : R → Bool) (f : R → R)
      → ((r : R) → id (f r) ≡ id r)
      → ((r : R) → status (f r) ≡ status r)
      → IsLogged next rows history
      → IsLogged next (update_rows p f rows) history
  IsLogged-touch next rows history p f same keep v = record {
    fresh = rw (map-update_rows p f rows same) v.fresh;
    distinct = rw (map-update_rows p f rows same) v.distinct;
    logged =
        All-update_rows (λ r. last_status (id r) history ≡ some (status r))
          (λ r. last_status (id r) history ≡ some (status r)) p f (λ r l t. rw (same r, keep r) l)
          (λ r l t. l) rows v.logged;
  }

  pub IsLogged-later :
      (next next' : ℕ) (rows : List R) (history : List (HistoryEntry S))
      → next ≤ next'
      → IsLogged next rows history
      → IsLogged next' rows history
  IsLogged-later next next' rows history le v = record {
    fresh = All-map (λ k (p : k < next). omega arith) (map id rows) v.fresh;
    distinct = v.distinct;
    logged = v.logged;
  }

-- Where the ids are distinct, a row found by more than its id is the row of that id.
module _ {R : Type 0} (id : R → ℕ) (k : ℕ) where
  ids-find_row :
      (p : R → Bool) (j : ℕ) (rows : List R) {r : R}
      → All (λ i. i ≢ j) (map id rows)
      → find_row p rows ≡ some r
      → id r ≢ j
  ids-find_row p j [] h e = absurd (cc)
  ids-find_row p j (x ∷ xs) {r} (q, h) e = elim (Bool-cases (p x)) [
    | inl t ↦ ground arith
    | inr t ↦ ids-find_row p j xs h (ground arith)
  ]

  pub find_row-id :
      (p : R → Bool) (rows : List R) {r : R}
      → Distinct (map id rows)
      → find_row p rows ≡ some r
      → id r ≡ k
      → find_row (λ x. id x == k) rows ≡ some r
  find_row-id p [] d e h = absurd (cc)
  find_row-id p (x ∷ xs) {r} (q, d) e h = elim (Bool-cases (p x)) [
    | inl t ↦ ground arith
    | inr t ↦
        let later : find_row p xs ≡ some r = ground arith in
        ground (arith, ids-find_row p (id x) xs q later, find_row-id p xs d later h)
  ]
