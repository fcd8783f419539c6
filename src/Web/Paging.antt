-- ===== src/Web/Paging.antt =====
-- The links of apps/web/components/Pagination.tsx against the pages that `findAll` of
-- apps/order-api/src/orders/orders.service.ts has.
use native.Mathlib.Nat.{native_laws}
use Prim.Native.Nat.{min, max}
use logistics_order_fulfillm.Prelude.{
  ℕ, zero, suc, ◌+◌, ◌-◌, ◌*◌, ◌/◌, ◌≤◌, ◌<◌, ◌≡◌, refl, ◌∙◌, ap, String, List, [], ◌∷◌, map,
  length, length-take, take, drop, leb, ltb, arith, All, Bool-cases, inl, inr,
}
use logistics_order_fulfillm.OrderApi.Store.{Db}
use logistics_order_fulfillm.OrderApi.Listing.{Ties, newest_first, total_pages, find_all}
use logistics_order_fulfillm.OrderApi.Pages.{length-newest_first}
use logistics_order_fulfillm.Web.Pagination.{Href, pagination, links}

length-map : {A B : Type 0} (f : A → B) (xs : List A) → length (map f xs) ≡ length xs
length-map f [] = refl
length-map f (x ∷ xs) = ap suc (length-map f xs)

length-drop : {A : Type 0} (n : ℕ) (xs : List A) → length (drop n xs) ≡ length xs - n
length-drop zero xs = omega arith
length-drop (suc n) [] = omega arith
length-drop (suc n) (x ∷ xs) = omega (arith, length-drop n xs)

module _ {N : Type 0} (ties : Ties) (db : Db N) where
  length-find_all :
      (page limit : ℕ)
      → length (find_all ties page limit db).page_data
        ≡ min limit (length db.orders - (page - 1) * limit)
  unfolding find_all
  length-find_all page limit =
      let rows = newest_first ties db.orders in
      length-map _ (take limit (drop ((page - 1) * limit) rows))
      ∙ length-take limit (drop ((page - 1) * limit) rows)
      ∙ ap (min limit) (
          length-drop ((page - 1) * limit) rows
          ∙ ap (λ n. n - (page - 1) * limit) (length-newest_first ties db.orders))

  IsShown : ℕ → ℕ → Type 0
  IsShown page limit = 1 ≤ length (find_all ties page limit db).page_data

  shown : (page limit : ℕ) → 1 ≤ limit → (page - 1) * limit < length db.orders → IsShown page limit
  unfolding IsShown
  shown page limit positive below = rw (length-find_all page limit) (omega arith)

  -- A page that shows an order, and one that comes before its end.
  shown_start : (page limit : ℕ) → IsShown page limit → (page - 1) * limit < length db.orders
  unfolding IsShown
  shown_start page limit h = omega (arith, rw (length-find_all page limit) at h)

before_end :
    (total limit page : ℕ)
    → 1 ≤ limit
    → 1 ≤ page
    → page < total_pages total limit
    → page * limit < total
unfolding total_pages
before_end total limit page positive first below =
    let q = (total + limit - 1) / limit in
    let room : q * limit ≤ total + limit - 1 =
      native_laws.div-mul-le_self (total + limit - 1) limit in
    let reached : suc page ≤ q = ground arith in
    let scaled : suc page * limit ≤ q * limit = native_laws.mul-le-mul reached (omega arith) in
    omega arith

-- A predicate of the links, by the two that there may be.
All-links :
    (P : Href → Type 0) (page total limit : ℕ) (base_path : String)
    → (1 < page → P (record { base_path = base_path; page = max 1 (page - 1); limit = limit }))
    → (page < total
        → P (record { base_path = base_path; page = min total (page + 1); limit = limit }))
    → All P (links (pagination page total limit base_path))
unfolding pagination
All-links P page total limit base_path previous next = elim (Bool-cases (leb total 1)) [
  | inl single ↦ rw single tt
  | inr several ↦ elim (Bool-cases (ltb 1 page)) [
    | inl back ↦ elim (Bool-cases (ltb page total)) [
      | inl on ↦ rw (several, back, on) (previous (ground arith), (next (ground arith), tt))
      | inr end ↦ rw (several, back, end) (previous (ground arith), tt)
    ]
    | inr start ↦ elim (Bool-cases (ltb page total)) [
      | inl on ↦ rw (several, start, on) (next (ground arith), tt)
      | inr end ↦ rw (several, start, end) tt
    ]
  ]
]

-- Below a page of `findAll` that shows an order, with a page and a limit of at least one, each
-- link of the pagination leads to a page of the same limit that shows an order too, whatever each
-- query does with orders of one time.
pub pagination-find_all :
    {N : Type 0} (ties : Ties) (next : Href → Ties) (db : Db N) (page limit : ℕ)
    (base_path : String)
    → 1 ≤ page
    → 1 ≤ limit
    → 1 ≤ length (find_all ties page limit db).page_data
    → let r = find_all ties page limit db in
      All
        (λ h.
          (1 ≤ h.page)
          × (h.limit ≡ limit)
          × (1 ≤ length (find_all (next h) h.page h.limit db).page_data))
        (links (pagination r.page r.total_pages r.limit base_path))
unfolding find_all IsShown
pagination-find_all {N} ties next db page limit base_path first positive some_order =
    let start = shown_start ties db page limit some_order in
    let total = length db.orders in
    All-links
      (λ h.
        (1 ≤ h.page)
        × (h.limit ≡ limit)
        × (1 ≤ length (find_all {N = N} (next h) h.page h.limit db).page_data))
      page (total_pages total limit) limit base_path
      (λ later.
        let back : (max 1 (page - 1) - 1) * limit ≤ (page - 1) * limit =
          native_laws.mul-le-mul (omega arith) (omega arith) in
        (omega arith, refl, shown (next _) db (max 1 (page - 1)) limit positive (omega arith)))
      (λ more.
        let below = before_end total limit page positive first more in
        let same : min (total_pages total limit) (page + 1) - 1 ≡ page = omega arith in
        (
          omega arith,
          refl,
          shown (next _) db (min (total_pages total limit) (page + 1)) limit positive
              (rw same below),
        ))
