-- ===== src/Core/Search/Pages.antt =====
-- crates/executor-core/src/search.rs: a client that follows the pages reads every item once.
use zoen_gateway.Prelude.{
  ℕ, zero, suc, ◌+◌, ◌-◌, ◌≤◌, ◌<◌, ◌≡◌, refl, sym, ap, ◌∙◌, inl, inr, Option, none, some, List, [],
  ◌∷◌, ◌++◌, arith, ltb, if◌then◌else◌, Bool-cases, length, take, drop,
}
use zoen_gateway.Core.Search.{when, saturate_u32, paginate, at_least_one, u32_max}

-- What a client has read, and the offset that it would ask for next; `none` when the last page that
-- it read named no next one.
abbrev pub Reading : Type 0 → Type 0
Reading T = List T × Option ℕ

-- What the client does with `next_offset`.
abbrev pub next_pages : {T : Type 0} → (ℕ → Reading T) → Option ℕ → Reading T
next_pages more none = ([], none)
next_pages more (some offset) = more offset

abbrev pub read_page : {T : Type 0} → List T → Reading T → Reading T
read_page items (rest, next) = (items ++ rest, next)

-- The pages from an offset on, each asked for at the offset that the last one names, for so many
-- pages at most.
unfoldable pub all_pages : {T : Type 0} → ℕ → List T → ℕ → ℕ → Reading T
all_pages zero items limit offset = ([], some offset)
all_pages (suc fuel) items limit offset =
    let page = paginate items offset limit in
    read_page page.items (next_pages (all_pages fuel items limit) page.next_offset)

limit_pos : (limit : ℕ) → 0 < at_least_one limit
limit_pos limit = ground arith

module _ {T : Type 0} where
  take-drop : (n : ℕ) (xs : List T) → take n xs ++ drop n xs ≡ xs
  take-drop zero xs = refl
  take-drop (suc n) [] = refl
  take-drop (suc n) (x ∷ xs) = cc (take-drop n xs)

  drop-nil : (n : ℕ) → drop {A = T} n [] ≡ []
  drop-nil zero = refl
  drop-nil (suc n) = refl

  drop-drop : (n m : ℕ) (xs : List T) → drop n (drop m xs) ≡ drop (m + n) xs
  drop-drop n zero xs = let e : 0 + n ≡ n = omega arith in rw e refl
  drop-drop n (suc m) [] = let e : suc m + n ≡ suc (m + n) = omega arith in rw e (drop-nil n)
  drop-drop n (suc m) (x ∷ xs) =
      let e : suc m + n ≡ suc (m + n) = omega arith in rw e (drop-drop n m xs)

  length-drop : (n : ℕ) (xs : List T) → length (drop n xs) ≡ length xs - n
  length-drop zero xs = omega arith
  length-drop (suc n) [] = omega arith
  length-drop (suc n) (x ∷ xs) = omega (arith, length-drop n xs)

  drop-all : (n : ℕ) (xs : List T) → length xs ≤ n → drop n xs ≡ []
  drop-all zero [] h = refl
  drop-all zero (x ∷ xs) h = absurd (omega arith)
  drop-all (suc n) [] h = refl
  drop-all (suc n) (x ∷ xs) h = drop-all n xs (omega arith)

  length-take : (n : ℕ) (xs : List T) → length (take n xs) + length (drop n xs) ≡ length xs
  length-take zero xs = omega arith
  length-take (suc n) [] = omega arith
  length-take (suc n) (x ∷ xs) = omega (arith, length-take n xs)

  -- What is left behind a page shows that the page is full.
  length-take_full : (n : ℕ) (xs : List T) → 0 < length (drop n xs) → length (take n xs) ≡ n
  length-take_full zero xs h = omega arith
  length-take_full (suc n) [] h = absurd (omega arith)
  length-take_full (suc n) (x ∷ xs) h = omega (arith, length-take_full n xs)

  nil_of_length : (xs : List T) → length xs ≡ 0 → xs ≡ []
  nil_of_length [] h = refl
  nil_of_length (x ∷ xs) h = absurd (omega arith)

  -- Within the numbers of 32 bits nothing is cut off.
  paginate_lem :
      (items : List T) (offset limit : ℕ)
      → offset ≤ length items
      → length items ≤ u32_max
      → let page = take (at_least_one limit) (drop offset items) in
        ((paginate items offset limit).items ≡ page)
        × ((paginate items offset limit).next_offset
            ≡ when (ltb (offset + length page) (length items)) (offset + length page))
  unfolding paginate
  paginate_lem items offset limit h k =
      let n = length (take (at_least_one limit) (drop offset items)) in
      let fits : offset + n ≤ length items =
        omega
          (arith, length-take (at_least_one limit) (drop offset items), length-drop offset items) in
      let start : (if ltb offset (length items) then offset else length items) ≡ offset =
        ground arith in
      let taken : (if ltb u32_max n then 0 else n) ≡ n = ground arith in
      let next : saturate_u32 (offset + n) ≡ offset + n = ground arith in
      let total : saturate_u32 (length items) ≡ length items = ground arith in
      rw (start, taken, next, total) (refl, refl)

  all_pages-drop :
      (fuel : ℕ) (items : List T) (limit offset : ℕ)
      → offset ≤ length items
      → length items ≤ u32_max
      → length items - offset < fuel
      → all_pages fuel items limit offset ≡ (drop offset items, none)
  unfolding all_pages
  all_pages-drop zero items limit offset h k f = absurd (omega arith)
  all_pages-drop (suc fuel) items limit offset h k f =
      let l = at_least_one limit in
      let rest = drop offset items in
      let (e, n) = paginate_lem items offset limit h k in
      rw (e, n)
        (elim (Bool-cases (ltb (offset + length (take l rest)) (length items))) [
          | inl more ↦
              let full : length (take l rest) ≡ l =
                length-take_full l rest
                  (ground (arith, length-take l rest, length-drop offset items)) in
              let within : offset + l ≤ length items = ground (arith, full) in
              let less : length items - (offset + l) < fuel =
                ground (arith, full, limit_pos limit) in
              rw (more, full)
                (ap (read_page (take l rest)) (
                    all_pages-drop fuel items limit (offset + l) within k less
                    ∙ ap (λ t. (t, none)) (sym (drop-drop l offset items)))
                  ∙ ap (λ t. (t, none)) (take-drop l rest))
          | inr last ↦
              let none_left : drop l rest ≡ [] =
                nil_of_length (drop l rest)
                  (ground (arith, length-take l rest, length-drop offset items)) in
              rw last (
                ap (λ t. (t, none)) (ap (λ t. take l rest ++ t) (sym none_left) ∙ take-drop l rest))
        ])

  -- Following the pages reads everything once, in order, and then ends: a client that starts at the
  -- first page and asks for the offset that each page names, with any limit, for more pages than there
  -- are items, has received exactly the items, and the last page that it read names no next one. The
  -- number of the items fits in 32 bits.
  pub all_pages-all :
      (fuel : ℕ) (items : List T) (limit : ℕ)
      → length items ≤ u32_max
      → length items < fuel
      → all_pages fuel items limit 0 ≡ (items, none)
  all_pages-all fuel items limit h k =
      all_pages-drop fuel items limit 0 (omega arith) h (omega arith)
