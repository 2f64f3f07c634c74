-- ===== src/Page/Totals.antt =====
-- The free pages of all groups of weenix.assign2/kernel/mm/page.c and `page_freecount`.
use usc_homeworks.Base.{
  ℕ, zero, suc, ◌+◌, ◌-◌, ◌^◌, ◌<◌, ◌≡◌, Option, none, some, List, [], ◌∷◌, get_elem?, set, done,
  and_then, and_then-done, arith, sym, ap, ◌∙◌, ◌⊎◌, Option-cases, inl, inr,
}
use usc_homeworks.Page.{
  PageNumber, page_nsizes, PageGroup, Pages, flip_above, take_block, split_down, group_with,
  at_group, page_split, take_from, after_split, page_alloc_order, give_back, page_free_order,
  page_free_count, pagegroup_from_address,
}
use usc_homeworks.Page.Count.{
  free_in, take_pages, flip_lists, split_down_pages, give_back_pages, free_pages,
}

-- The pages that are free in the groups of a list.
unfoldable pub free_in_all : List PageGroup → ℕ
free_in_all [] = 0
free_in_all (g ∷ gs) = free_in g + free_in_all gs

free_in_all-set :
    (gs : List PageGroup) (i : ℕ) (g g' : PageGroup)
    → get_elem? gs i ≡ some g
    → free_in_all (set gs i g') + free_in g ≡ free_in_all gs + free_in g'
unfolding free_in_all
free_in_all-set [] i g g' e = cc (e)
free_in_all-set (x ∷ xs) zero g g' e = let same : x ≡ g = cc (e) in omega (arith, ap free_in same)
free_in_all-set (x ∷ xs) (suc i) g g' e = omega (arith, free_in_all-set xs i g g' e)

at_group_pages :
    (k order i : ℕ) (gs gs' : List PageGroup)
    → at_group i gs (λ g. and_then (split_down k order g) λ g'. done (set gs i g')) ≡ done gs'
    → free_in_all gs' ≡ free_in_all gs
at_group_pages k order i gs gs' e = elim (Option-cases (get_elem? gs i)) [
  | inl absent ↦ cc (rw (absent, at_group) at e)
  | inr (g, there) ↦
      let r = and_then-done (split_down k order g) _ gs' (rw (there, at_group) at e) in
      let same : set gs i r.0 ≡ gs' = cc (r.2) in
      omega (
        arith,
        ap free_in_all same,
        free_in_all-set gs i g r.0 there,
        split_down_pages k order g r.0 (r.1),
      )
]

page_split_pages :
    (k above order : ℕ) (gs gs' : List PageGroup) (i : ℕ)
    → page_split k above order gs ≡ done (some (i, gs'))
    → free_in_all gs' ≡ free_in_all gs
unfolding page_split
page_split_pages zero above order gs gs' i e = cc (e)
page_split_pages (suc k) above order gs gs' i e =
    elim (Option-cases (group_with (order + above) gs)) [
      | inl absent ↦ page_split_pages k (above + 1) order gs gs' i (rw (absent, page_split) at e)
      | inr (j, there) ↦
          let found : Option (ℕ × List PageGroup) = some (i, gs') in
          let r =
            and_then-done
              (at_group j gs (λ g. and_then (split_down above order g) λ g'. done (set gs j g')))
              (λ x. done (some (j, x))) found (rw (there, page_split) at e) in
          let same : r.0 ≡ gs' = cc (r.2) in
          ap free_in_all (sym same) ∙ at_group_pages above order j gs r.0 (r.1)
    ]

-- `page_freecount` is the number of the pages on the lists of free blocks.
unfoldable pub IsCounted : Pages → Type 0
IsCounted s = s.page_freecount ≡ free_in_all s.pagegroup_list

-- A block that is taken leaves the count right, and smaller by its pages.
take_from_pages :
    (i order : ℕ) (gs : List PageGroup) (count : ℕ) (a : Option PageNumber) (s : Pages)
    → order < page_nsizes
    → count ≡ free_in_all gs
    → take_from i order gs count ≡ done (a, s)
    → IsCounted s × (s.page_freecount + 2 ^ order ≡ count)
unfolding take_from IsCounted
take_from_pages i order gs count a s h c e = elim (Option-cases (get_elem? gs i)) [
  | inl absent ↦ cc (rw (absent, take_from) at e)
  | inr (g, there) ↦
      let result : Option PageNumber × Pages = (a, s) in
      let r = and_then-done (take_block order g) _ result (rw (there, take_from) at e) in
      let q = and_then-done (flip_above order r.0.0 r.0.1) _ result (r.2) in
      let after : Pages = record {
        pagegroup_list = set gs i q.0;
        page_freecount = count - 2 ^ order;
      } in
      let same : after ≡ s = cc (q.2) in
      let lists = ap free_in_all (ap (λ x. x.pagegroup_list) same) in
      let counts : count - 2 ^ order ≡ s.page_freecount = ap (λ x. x.page_freecount) same in
      let change = free_in_all-set gs i g q.0 there in
      let flips = ap free_pages (flip_lists order r.0.0 r.0.1 q.0 (q.1)) in
      let taken = take_pages order g r.0.1 r.0.0 h (r.1) in
      (
        omega (arith, lists, counts, change, flips, taken),
        omega (arith, lists, counts, change, flips, taken),
      )
]

-- What an allocation comes to: no block, and what the slabs gave back, or a block taken from groups
-- with as many free pages as there were.
alloc_cases :
    (reclaim : Pages → Pages) (order : ℕ) (s s' : Pages) (a : Option PageNumber)
    → order < page_nsizes
    → IsCounted s
    → page_alloc_order reclaim order s ≡ done (a, s')
    → ((a ≡ none) × (reclaim s ≡ s'))
      ⊎ (IsCounted s' × (s'.page_freecount + 2 ^ order ≡ s.page_freecount))
unfolding page_alloc_order IsCounted after_split
alloc_cases reclaim order s s' a h c e = elim (Option-cases (group_with order s.pagegroup_list)) [
  | inr (i, there) ↦ inr (
      take_from_pages i order s.pagegroup_list s.page_freecount a s' h c
        (rw (there, page_alloc_order) at e))
  | inl absent ↦
      let result : Option PageNumber × Pages = (a, s') in
      let r =
        and_then-done (page_split (page_nsizes - 1 - order) 1 order s.pagegroup_list)
          (λ x. after_split reclaim order x s) result (rw (absent, page_alloc_order) at e) in
      rest (r.0) (r.1) (r.2)
]
  where
    rest :
        (x : Option (ℕ × List PageGroup))
        → page_split (page_nsizes - 1 - order) 1 order s.pagegroup_list ≡ done x
        → after_split reclaim order x s ≡ done (a, s')
        → ((a ≡ none) × (reclaim s ≡ s'))
          ⊎ (IsCounted s' × (s'.page_freecount + 2 ^ order ≡ s.page_freecount))
    rest none f g =
        let failed : Option PageNumber × Pages = (none, reclaim s) in
        let result : Option PageNumber × Pages = (a, s') in
        let same : failed ≡ result = cc (g) in inl (ap (λ x. x.0) (sym same), ap (λ x. x.1) same)
    rest (some (i, gs)) f g = inr (
        take_from_pages i order gs s.page_freecount a s' h
          (c ∙ sym (page_split_pages (page_nsizes - 1 - order) 1 order s.pagegroup_list gs i f)) g)

-- An allocation keeps `page_freecount` the number of the pages on the lists of free blocks, whether a
-- block of the order was there, had to be split off a larger one, or could not be had, when what the
-- slab allocators give back keeps it so.
pub page_alloc_order-IsCounted :
    (reclaim : Pages → Pages) (order : ℕ) (s s' : Pages) (a : Option PageNumber)
    → ((x : Pages) → IsCounted x → IsCounted (reclaim x))
    → order < page_nsizes
    → IsCounted s
    → page_alloc_order reclaim order s ≡ done (a, s')
    → IsCounted s'
page_alloc_order-IsCounted reclaim order s s' a keep h c e =
    elim (alloc_cases reclaim order s s' a h c e) [
      | inl (absent, same) ↦ rw (← same) (keep s c)
      | inr (counted, less) ↦ counted
    ]

-- An allocation that returns a block takes exactly its pages: where `page_freecount` was the number of
-- the free pages before, it is smaller by 2 ^ order after, and did not stop at 0.
pub page_alloc_order_takes :
    (reclaim : Pages → Pages) (order : ℕ) (s s' : Pages) (a : PageNumber)
    → order < page_nsizes
    → IsCounted s
    → page_alloc_order reclaim order s ≡ done (some a, s')
    → page_free_count s' + 2 ^ order ≡ page_free_count s
unfolding page_free_count
page_alloc_order_takes reclaim order s s' a h c e =
    elim (alloc_cases reclaim order s s' (some a) h c e) [
      | inl (absent, same) ↦ cc (absent)
      | inr (counted, less) ↦ less
    ]

-- A free keeps `page_freecount` the number of the pages on the lists of free blocks, however many
-- blocks are joined on the way and also for an address of no group.
pub page_free_order-IsCounted :
    (addr : PageNumber) (order : ℕ) (s s' : Pages)
    → order < page_nsizes
    → IsCounted s
    → page_free_order addr order s ≡ done s'
    → IsCounted s'
unfolding page_free_order IsCounted
page_free_order-IsCounted addr order s s' h c e =
    elim (Option-cases (pagegroup_from_address s.pagegroup_list addr)) [
      | inl absent ↦ let same : s ≡ s' = cc (rw (absent, page_free_order) at e) in rw (← same) c
      | inr (i, there) ↦ elim (Option-cases (get_elem? s.pagegroup_list i)) [
        | inl gone ↦ cc (rw (there, gone, page_free_order) at e)
        | inr (g, here) ↦
            let r =
              and_then-done (give_back order addr g) _ s'
                (rw (there, here, page_free_order) at e) in
            let after : Pages = record {
              pagegroup_list = set s.pagegroup_list i r.0;
              page_freecount = s.page_freecount + 2 ^ order;
            } in
            let same : after ≡ s' = cc (r.2) in
            omega (
              arith,
              ap free_in_all (ap (λ x. x.pagegroup_list) same),
              ap (λ x. x.page_freecount) same,
              free_in_all-set s.pagegroup_list i g r.0 here,
              give_back_pages order addr g r.0 h (r.1),
              c,
            )
      ]
    ]
