-- ===== src/OrderApi/Pages.antt =====
-- The pages of `findAll` (apps/order-api/src/orders/orders.service.ts) against the whole list.
use mathlib.Core.List.{map-append, Perm}
use mathlib.Core.List.Perm
use logistics_order_fulfillm.Prelude.Everywhere.{All-imp}
use native.Mathlib.Nat.{native_laws}
use logistics_order_fulfillm.Prelude.{
  ℕ, zero, suc, ◌+◌, ◌-◌, ◌*◌, ◌/◌, ◌≤◌, ◌<◌, ◌≡◌, refl, sym, ◌∙◌, ap, subst, ◌≢◌, List, [], ◌∷◌,
  ◌++◌, map, length, take, drop, leb, ltb, arith, All, Bool-cases, inl, inr, ◌⊎◌,
}
use logistics_order_fulfillm.OrderApi.Entities.{OrderRow, Order}
use logistics_order_fulfillm.OrderApi.Store.{Db, items_of}
use logistics_order_fulfillm.OrderApi.Listing.{
  Ties, insert_desc, newest_first, total_pages, find_all,
}

module _ {A : Type 0} where
  take_nil : (n : ℕ) → take {A = A} n [] ≡ []
  take_nil zero = refl
  take_nil (suc n) = refl

  take-drop : (m n : ℕ) (xs : List A) → take m xs ++ take n (drop m xs) ≡ take (m + n) xs
  take-drop zero n xs = let same : n ≡ zero + n = omega arith in ap (λ k. take k xs) same
  take-drop (suc m) n [] =
      let same : suc (m + n) ≡ suc m + n = omega arith in take_nil n ∙ ap (λ k. take k []) same
  take-drop (suc m) n (x ∷ xs) =
      let shifted : suc (m + n) ≡ suc m + n = omega arith in
      subst (λ k. x ∷ (take m xs ++ take n (drop m xs)) ≡ take k (x ∷ xs)) shifted
        (ap (λ ys. x ∷ ys) (take-drop m n xs))

  take_all : (n : ℕ) (xs : List A) → length xs ≤ n → take n xs ≡ xs
  take_all zero [] h = refl
  take_all zero (x ∷ xs) h = absurd (omega arith)
  take_all (suc n) [] h = refl
  take_all (suc n) (x ∷ xs) h = ap (λ ys. x ∷ ys) (take_all n xs (omega arith))

-- The pages have room for every order that there is.
total-total_pages : (total limit : ℕ) → 1 ≤ limit → total ≤ total_pages total limit * limit
unfolding total_pages
total-total_pages total limit positive =
    let room : total + limit - 1 < (total + limit - 1) / limit * limit + limit =
      native_laws.lt-div-mul-add positive in
    elim (Bool-cases (leb 1 ((total + limit - 1) / limit))) [
      | inl some_page ↦ rw some_page (omega arith)
      | inr no_page ↦ rw no_page (
          let none_full : (total + limit - 1) / limit ≡ 0 = ground arith in
          omega (arith, rw none_full at room))
    ]

-- The two places that an insertion may take.
insert_desc-cases :
    (ties : Ties) (r q : OrderRow) (rows : List OrderRow)
    → ((r.created_at ≤ q.created_at)
        × (insert_desc ties r (q ∷ rows) ≡ q ∷ insert_desc ties r rows))
      ⊎ ((q.created_at ≤ r.created_at) × (insert_desc ties r (q ∷ rows) ≡ r ∷ q ∷ rows))
unfolding insert_desc
insert_desc-cases ties r q rows = elim (Bool-cases (ltb r.created_at q.created_at)) [
  | inl older ↦ inl (ground arith, rw older refl)
  | inr recent ↦ elim (Bool-cases (ltb q.created_at r.created_at)) [
    | inl newer ↦ inr (ground arith, rw (recent, newer) refl)
    | inr tied ↦ elim (Bool-cases (ties r q)) [
      | inl before ↦ inr (ground arith, rw (recent, tied, before) refl)
      | inr after ↦ inl (ground arith, rw (recent, tied, after) refl)
    ]
  ]
]

insert_desc-Perm :
    (ties : Ties) (r : OrderRow) (rows : List OrderRow) → Perm (insert_desc ties r rows) (r ∷ rows)
unfolding insert_desc
insert_desc-Perm ties r [] = Perm.refl (r ∷ [])
insert_desc-Perm ties r (q ∷ rows) = elim (insert_desc-cases ties r q rows) [
  | inl (older, e) ↦
      rw e (Perm.trans (Perm.cons q (insert_desc-Perm ties r rows)) (Perm.swap r q rows))
  | inr (newer, e) ↦ rw e (Perm.refl (r ∷ q ∷ rows))
]

newest_first-Perm : (ties : Ties) (rows : List OrderRow) → Perm (newest_first ties rows) rows
unfolding newest_first
newest_first-Perm ties [] = Perm.nil
newest_first-Perm ties (r ∷ rows) =
    Perm.trans (insert_desc-Perm ties r (newest_first ties rows))
      (Perm.cons r (newest_first-Perm ties rows))

length-insert_desc :
    (ties : Ties) (r : OrderRow) (rows : List OrderRow)
    → length (insert_desc ties r rows) ≡ suc (length rows)
unfolding insert_desc
length-insert_desc ties r [] = refl
length-insert_desc ties r (q ∷ rows) = elim (insert_desc-cases ties r q rows) [
  | inl (older, e) ↦ rw e (ap suc (length-insert_desc ties r rows))
  | inr (newer, e) ↦ rw e refl
]

pub length-newest_first :
    (ties : Ties) (rows : List OrderRow) → length (newest_first ties rows) ≡ length rows
unfolding newest_first
length-newest_first ties [] = refl
length-newest_first ties (r ∷ rows) =
    omega (arith, length-insert_desc ties r (newest_first ties rows), length-newest_first ties rows)

-- No row comes before one that is newer.
unfoldable pub IsNewestFirst : List OrderRow → Type 0
IsNewestFirst [] = Unit
IsNewestFirst (r ∷ rows) = All (λ q. q.created_at ≤ r.created_at) rows × IsNewestFirst rows

All-insert_desc :
    (P : OrderRow → Type 0) (ties : Ties) (r : OrderRow) (rows : List OrderRow)
    → P r
    → All P rows
    → All P (insert_desc ties r rows)
unfolding insert_desc
All-insert_desc P ties r [] p h = (p, tt)
All-insert_desc P ties r (q ∷ rows) p h = elim (insert_desc-cases ties r q rows) [
  | inl (older, e) ↦ rw e (h.0, All-insert_desc P ties r rows p h.1)
  | inr (newer, e) ↦ rw e (p, h)
]

All-newest_first :
    (P : OrderRow → Type 0) (ties : Ties) (rows : List OrderRow)
    → All P rows
    → All P (newest_first ties rows)
unfolding newest_first
All-newest_first P ties [] h = tt
All-newest_first P ties (r ∷ rows) h =
    All-insert_desc P ties r (newest_first ties rows) h.0 (All-newest_first P ties rows h.1)

insert_desc-IsNewestFirst :
    (ties : Ties) (r : OrderRow) (rows : List OrderRow)
    → IsNewestFirst rows
    → IsNewestFirst (insert_desc ties r rows)
unfolding insert_desc IsNewestFirst
insert_desc-IsNewestFirst ties r [] h = (tt, tt)
insert_desc-IsNewestFirst ties r (q ∷ rows) h = elim (insert_desc-cases ties r q rows) [
  | inl (older, e) ↦ rw e (
    All-insert_desc (λ p. p.created_at ≤ q.created_at) ties r rows older h.0,
    insert_desc-IsNewestFirst ties r rows h.1,
  )
  | inr (newer, e) ↦ rw e (
    (
      newer,
      All-imp (λ p. p.created_at ≤ q.created_at) (λ p. p.created_at ≤ r.created_at) rows
          (λ p below. omega arith) h.0,
    ),
    h,
  )
]

newest_first-IsNewestFirst :
    (ties : Ties) (rows : List OrderRow) → IsNewestFirst (newest_first ties rows)
unfolding newest_first IsNewestFirst
newest_first-IsNewestFirst ties [] = tt
newest_first-IsNewestFirst ties (r ∷ rows) =
    insert_desc-IsNewestFirst ties r (newest_first ties rows) (newest_first-IsNewestFirst ties rows)

-- No two orders were created at one time.
abbrev pub HasTimes : List OrderRow → Type 0
HasTimes [] = Unit
HasTimes (r ∷ rows) = All (λ q. r.created_at ≢ q.created_at) rows × HasTimes rows

insert_desc-untied :
    (ties other : Ties) (r : OrderRow) (rows : List OrderRow)
    → All (λ q. r.created_at ≢ q.created_at) rows
    → insert_desc ties r rows ≡ insert_desc other r rows
unfolding insert_desc
insert_desc-untied ties other r [] h = refl
insert_desc-untied ties other r (q ∷ rows) h = elim (Bool-cases (ltb r.created_at q.created_at)) [
  | inl older ↦ rw older (ap (λ rest. q ∷ rest) (insert_desc-untied ties other r rows h.1))
  | inr recent ↦ elim (Bool-cases (ltb q.created_at r.created_at)) [
    | inl newer ↦ rw (recent, newer) refl
    | inr tied ↦
        let same_time : r.created_at ≡ q.created_at = ground arith in absurd (h.0 same_time)
  ]
]

-- Then there is nothing for a query to choose.
newest_first-untied :
    (ties other : Ties) (rows : List OrderRow)
    → HasTimes rows
    → newest_first ties rows ≡ newest_first other rows
unfolding newest_first
newest_first-untied ties other [] h = refl
newest_first-untied ties other (r ∷ rows) h =
    ap (insert_desc ties r) (newest_first-untied ties other rows h.1)
    ∙ insert_desc-untied ties other r (newest_first other rows)
        (All-newest_first (λ q. r.created_at ≢ q.created_at) other rows h.0)

module _ {N : Type 0} (ties : ℕ → Ties) (limit : ℕ) (db : Db N) where
  -- The orders of the first pages, one page after the other; each page is a query of its own.
  unfoldable pub pages : ℕ → List Order
  pages zero = []
  pages (suc k) = pages k ++ (find_all (ties (suc k)) (suc k) limit db).page_data

  unfoldable pub with_items : OrderRow → Order
  with_items row = record { row = row; items = items_of row.id db.order_items }

  module _ (untied : HasTimes db.orders) where
    pages-take :
        (k : ℕ) → pages k ≡ map with_items (take (k * limit) (newest_first (ties 1) db.orders))
    unfolding pages with_items find_all
    pages-take zero =
        let none : 0 * limit ≡ 0 = omega arith in
        ap (λ n. map with_items (take n (newest_first (ties 1) db.orders))) (sym none)
    pages-take (suc k) =
        let rows = newest_first (ties 1) db.orders in
        let back : suc k - 1 ≡ k = omega arith in
        let grown : k * limit + limit ≡ suc k * limit = omega arith in
        rw (pages-take k, back, newest_first-untied (ties (suc k)) (ties 1) db.orders untied)
          (sym (map-append with_items (take (k * limit) rows) (take limit (drop (k * limit) rows)))
            ∙ ap (map with_items) (take-drop (k * limit) limit rows ∙ ap (λ n. take n rows) grown))

    all_shown :
        1 ≤ limit
        → pages (find_all (ties 1) 1 limit db).total_pages
          ≡ map with_items (newest_first (ties 1) db.orders)
    unfolding find_all
    all_shown positive =
        let rows = newest_first (ties 1) db.orders in
        let k = total_pages (length db.orders) limit in
        let room : length rows ≤ k * limit = omega (
          arith,
          length-newest_first (ties 1) db.orders,
          total-total_pages (length db.orders) limit positive,
        ) in
        pages-take k ∙ ap (map with_items) (take_all (k * limit) rows room)

    -- If no two orders were created at one time and the limit is at least one, the data of the
    -- pages from the first to the last that `totalPages` counts, one after the other, each from a
    -- query of its own, are the rows of the orders, each once and with its items, and no row comes
    -- before one that was created later.
    pub pages-Perm :
        1 ≤ limit
        → (rows : List OrderRow) × (pages (find_all (ties 1) 1 limit db).total_pages
            ≡ map with_items rows)
          × Perm rows db.orders
          × IsNewestFirst rows
    pages-Perm positive = (
      newest_first (ties 1) db.orders,
      all_shown positive,
      newest_first-Perm (ties 1) db.orders,
      newest_first-IsNewestFirst (ties 1) db.orders,
    )
