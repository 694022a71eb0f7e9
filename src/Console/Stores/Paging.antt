-- ===== src/Console/Stores/Paging.antt =====
-- apps/ghalla-ops/src/lib/queries/stores.ts: the pages of `paginate`, one after the other.
use ghalla.Base.{
  false, Option, ℕ, zero, suc, ◌+◌, ◌≤◌, ◌<◌, ◌≡◌, refl, sym, ap, ◌∙◌, List, [], ◌∷◌, ◌++◌, none,
  some, take, length, ltb, is_empty, All, Bool-cases, inl, inr, arith,
}
use ghalla.Console.Stores.{PlatformStore, after, paginate}

abbrev before_rest :
    List PlatformStore → Option (List (List PlatformStore)) → Option (List (List PlatformStore))
before_rest page none = none
before_rest page (some pages) = some (page ∷ pages)

-- The pages that a reader sees who asks for the page at a cursor and then follows `nextCursor`, where
-- the cursors end within the fuel
unfoldable pub follow : (fuel : ℕ) → List PlatformStore → ℕ → ℕ → Option (List (List PlatformStore))
follow zero list cursor limit = none
follow (suc fuel) list cursor limit =
    let rest = follow fuel list in
    let page = paginate list cursor limit in
    before_rest page.stores (elim page.next_cursor [ none ↦ some [] | some next ↦ rest next limit ])

take-after {ℓ} : {A : Type ℓ} (n : ℕ) (xs : List A) → take n xs ++ after n xs ≡ xs
unfolding after
take-after zero xs = refl
take-after (suc n) [] = refl
take-after {A = A} (suc n) (x ∷ xs) = ap (λ (t : List A). x ∷ t) (take-after n xs)

after_nil {ℓ} : {A : Type ℓ} (n : ℕ) → after {A = A} n [] ≡ []
unfolding after
after_nil zero = refl
after_nil (suc n) = refl

after-after {ℓ} : {A : Type ℓ} (c n : ℕ) (xs : List A) → after n (after c xs) ≡ after (c + n) xs
unfolding after
after-after zero n xs = ap (λ k. after k xs) (omega arith)
after-after (suc c) n [] = after_nil n ∙ sym (after_nil (suc c + n))
after-after (suc c) n (x ∷ xs) =
    let next : suc (c + n) ≡ suc c + n = omega arith in
    after-after c n xs ∙ ap (λ k. after k (x ∷ xs)) next

after_end {ℓ} : {A : Type ℓ} (n : ℕ) (xs : List A) → length xs ≤ n → after n xs ≡ []
unfolding after
after_end zero [] h = refl
after_end zero (x ∷ xs) h = absurd (omega arith)
after_end (suc n) [] h = refl
after_end (suc n) (x ∷ xs) h = after_end n xs (omega (arith, h))

abbrev Pages : Type 0
Pages = List (List PlatformStore)

abbrev pub stores_of : Pages → List PlatformStore
stores_of [] = []
stores_of (page ∷ pages) = page ++ stores_of pages

-- A page has a store, and no more than the limit.
abbrev pub IsPage : ℕ → List PlatformStore → Type 0
IsPage limit page = (is_empty page ≡ false) × (length page ≤ limit)

length-take {ℓ} : {A : Type ℓ} (n : ℕ) (xs : List A) → length (take n xs) ≤ n
length-take zero xs = omega arith
length-take (suc n) [] = omega arith
length-take (suc n) (x ∷ xs) = omega (arith, length-take n xs)

after_some {ℓ} : {A : Type ℓ} (n : ℕ) (xs : List A) → n < length xs → 0 < length (after n xs)
unfolding after
after_some zero xs h = h
after_some (suc n) [] h = absurd (omega (arith, h))
after_some (suc n) (x ∷ xs) h = after_some n xs (omega (arith, h))

some_taken {ℓ} :
    {A : Type ℓ} (n : ℕ) (xs : List A) → 0 < n → 0 < length xs → is_empty (take n xs) ≡ false
some_taken zero xs h k = absurd (omega arith)
some_taken (suc n) [] h k = absurd (omega arith)
some_taken (suc n) (x ∷ xs) h k = refl

take-IsPage :
    (list : List PlatformStore) (cursor limit : ℕ)
    → 0 < limit
    → cursor < length list
    → IsPage limit (take limit (after cursor list))
take-IsPage list cursor limit some_limit more = (
  some_taken limit (after cursor list) some_limit (after_some cursor list more),
  length-take limit (after cursor list),
)

follow_from :
    (fuel : ℕ) (list : List PlatformStore) (cursor limit : ℕ)
    → 0 < limit
    → cursor < length list
    → length list ≤ cursor + fuel
    → (pages : Pages) × ((follow fuel list cursor limit ≡ some pages)
        × ((stores_of pages ≡ after cursor list) × All (IsPage limit) pages))
unfolding follow paginate
follow_from zero list cursor limit some_limit more enough = absurd (omega (arith, more, enough))
follow_from (suc fuel) list cursor limit some_limit more enough =
    let page = take-IsPage list cursor limit some_limit more in
    elim (Bool-cases (ltb (cursor + limit) (length list))) [
      | inl next ↦
          let (pages, (found, (all, each))) =
            follow_from fuel list (cursor + limit) limit some_limit (ground (arith, next))
              (omega (arith, enough, some_limit)) in
          (
            take limit (after cursor list) ∷ pages,
            (
              rw (next, found) refl,
              (
                ap (λ (t : List PlatformStore). take limit (after cursor list) ++ t)
                      (all ∙ sym (after-after cursor limit list))
                    ∙ take-after limit (after cursor list),
                (page, each),
              ),
            ),
          )
      | inr done ↦
          let last : after limit (after cursor list) ≡ [] =
            after-after cursor limit list
            ∙ after_end (cursor + limit) list (ground (arith, done)) in
          (
            take limit (after cursor list) ∷ [],
            (
              rw done refl,
              (
                ap (λ (t : List PlatformStore). take limit (after cursor list) ++ t) (sym last)
                    ∙ take-after limit (after cursor list),
                (page, tt),
              ),
            ),
          )
    ]

-- The cursors of a list that has stores end, for every limit above zero: a reader who follows them from
-- the first page is done after at most as many pages as there are stores, each page has a store and no
-- more stores than the limit, and the pages put together are the list.
pub follow-paginate :
    (list : List PlatformStore) (limit : ℕ)
    → 0 < limit
    → is_empty list ≡ false
    → (pages : List (List PlatformStore)) × ((follow (length list) list 0 limit ≡ some pages)
        × ((stores_of pages ≡ list) × All (IsPage limit) pages))
unfolding after
follow-paginate [] limit some_limit some_stores = cc
follow-paginate (store ∷ list) limit some_limit some_stores =
    follow_from (length (store ∷ list)) (store ∷ list) 0 limit some_limit (omega arith)
      (omega arith)
