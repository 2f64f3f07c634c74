-- ===== src/Page/Create.antt =====
-- The blocks `_pagegroup_create` of weenix.assign2/kernel/mm/page.c makes of a range of pages.
use usc_homeworks.Base.{
  ℕ, zero, suc, ◌+◌, ◌-◌, ◌*◌, ◌/◌, ◌%◌, ◌^◌, ◌≤◌, ◌≡◌, List, [], ◌∷◌, ◌++◌, ◌==◌, ltb, total_same,
  total-zero, arith, sym, ap, ◌∙◌, Bool-cases, inl, inr, ==_iff,
}
use native.Mathlib.Nat.{div-one, div-div-eq-div-mul}
use usc_homeworks.Page.{
  PageNumber, page_nsizes, Freelists, PageGroup, Pages, push, put_remainder, put_largest,
  pagegroup_create, pagegroup_end, page_add_range,
}
use usc_homeworks.Page.Count.{free_in, free_pages, free_pages-push, power_suc}
use usc_homeworks.Page.Totals.{free_in_all, IsCounted}

-- The pages that `k` remaining orders take off a range, of which `m` blocks of the first order could
-- be made.
unfoldable remainder : ℕ → ℕ → ℕ
remainder zero m = 0
remainder (suc k) m = m % 2 + 2 * remainder k (m / 2)

remainder_fits : (k m : ℕ) → remainder k m ≤ m
unfolding remainder
remainder_fits zero m = omega arith
remainder_fits (suc k) m = omega (arith, remainder_fits k (m / 2))

-- What is left after seven orders is a number of blocks of 128 pages.
remainder_largest : (m : ℕ) → m ≡ remainder 7 m + 128 * (m / 128)
unfolding remainder
remainder_largest m = omega arith

halve : (n order : ℕ) → n / 2 ^ order / 2 ≡ n / 2 ^ (order + 1)
halve n order =
    let double : 2 ^ order * 2 ≡ 2 ^ (order + 1) = omega (arith, power_suc order) in
    rw (← double) (div-div-eq-div-mul n (2 ^ order) 2)

odd_part : (p r : ℕ) → p * (1 + 2 * r) ≡ p + (p + p) * r
odd_part p r = grind arith

even_part : (p r : ℕ) → p * (0 + 2 * r) ≡ (p + p) * r
even_part p r = grind arith

put_remainder_pages :
    (k order n end : ℕ) (t : Freelists)
    → order + k ≤ page_nsizes
    → 2 ^ order * remainder k (n / 2 ^ order) ≤ end
    → (free_pages ((put_remainder k order n end t).0)
        ≡ free_pages t + 2 ^ order * remainder k (n / 2 ^ order))
      × ((put_remainder k order n end t).1 + 2 ^ order * remainder k (n / 2 ^ order) ≡ end)
unfolding put_remainder remainder
put_remainder_pages zero order n end t h f =
    let none_left : 2 ^ order * 0 ≡ 0 = omega arith in (omega arith, omega arith)
put_remainder_pages (suc k) order n end t h f =
    let r : ℕ = remainder k (n / 2 ^ (order + 1)) in
    let next : remainder k (n / 2 ^ order / 2) ≡ r = ap (remainder k) (halve n order) in
    let double : 2 ^ (order + 1) * r ≡ (2 ^ order + 2 ^ order) * r =
      ap (λ x. x * r) (power_suc order) in
    elim (Bool-cases (n / 2 ^ order % 2 == 1)) [
      | inl odd ↦
          let bit : n / 2 ^ order % 2 ≡ 1 = (==_iff (n / 2 ^ order % 2) 1).0 odd in
          let parts : 2 ^ order * (n / 2 ^ order % 2 + 2 * remainder k (n / 2 ^ order / 2))
              ≡ 2 ^ order + 2 ^ (order + 1) * r =
            rw (bit, next, double) (odd_part (2 ^ order) r) in
          let start : ℕ = end - 2 ^ order in
          let rest =
            put_remainder_pages k (order + 1) n start (push order start t) (omega arith)
              (omega arith) in
          let pushed = free_pages-push t order start (omega arith) in
          rw (odd, parts) (omega (arith, rest.0, pushed), omega (arith, rest.1))
      | inr even ↦
          let bit : n / 2 ^ order % 2 ≡ 0 = ground arith in
          let parts : 2 ^ order * (n / 2 ^ order % 2 + 2 * remainder k (n / 2 ^ order / 2))
              ≡ 2 ^ (order + 1) * r =
            rw (bit, next, double) (even_part (2 ^ order) r) in
          let rest = put_remainder_pages k (order + 1) n end t (omega arith) (omega arith) in
          rw (even, parts) (omega (arith, rest.0), omega (arith, rest.1))
    ]

put_largest_pages :
    (k current : ℕ) (t : Freelists) → free_pages (put_largest k current t) ≡ free_pages t + 128 * k
unfolding put_largest
put_largest_pages zero current t = omega arith
put_largest_pages (suc k) current t = omega (
  arith,
  put_largest_pages k (current + 128) (push 7 current t),
  free_pages-push t 7 current (omega arith),
)

free_pages-empty : free_pages (λ order. []) ≡ 0
unfolding free_pages
free_pages-empty =
    total_same page_nsizes (λ order. 2 ^ order * 0) (λ order. 0) (λ order l. omega arith)
    ∙ total-zero page_nsizes

create_pages : (start end : PageNumber) → free_in (pagegroup_create start end) ≡ end - start
unfolding pagegroup_create
create_pages start end =
    let n : ℕ = end - start in
    let whole : n / 1 ≡ n = div-one n in
    let small : 1 * remainder 7 (n / 1) ≤ end = rw whole (omega (arith, remainder_fits 7 n)) in
    let r = put_remainder_pages 7 0 n end (λ order. []) (omega arith) small in
    omega (
      arith,
      rw whole at (r.0),
      rw whole at (r.1),
      put_largest_pages (((put_remainder 7 0 n end (λ order. [])).1 - start) / 128) start
          ((put_remainder 7 0 n end (λ order. [])).0),
      remainder_largest n,
      free_pages-empty,
    )

free_in_all-append :
    (gs hs : List PageGroup) → free_in_all (gs ++ hs) ≡ free_in_all gs + free_in_all hs
unfolding free_in_all
free_in_all-append [] hs = omega arith
free_in_all-append (g ∷ gs) hs = omega (arith, free_in_all-append gs hs)

-- A range of pages that is added, also an empty one, keeps `page_freecount` the number of the pages
-- on the lists of free blocks.
pub page_add_range-IsCounted :
    (start end : PageNumber) (s : Pages) → IsCounted s → IsCounted (page_add_range start end s)
unfolding page_add_range IsCounted free_in_all
page_add_range-IsCounted start end s c = elim (Bool-cases (ltb start (pagegroup_end start end))) [
  | inr empty ↦ rw empty c
  | inl there ↦
      let last : PageNumber = pagegroup_end start end in
      let group : PageGroup = pagegroup_create start last in
      let sum : free_in_all (s.pagegroup_list ++ (group ∷ [])) ≡ s.page_freecount + (last - start) =
        omega
          (arith, c, free_in_all-append s.pagegroup_list (group ∷ []), create_pages start last) in
      rw there (sym sum)
]
