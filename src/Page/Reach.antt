-- ===== src/Page/Reach.antt =====
-- The states that the calls of weenix.assign2/kernel/mm/page.c lead to from `page_init`.
use usc_homeworks.Base.{
  ℕ, zero, suc, ◌+◌, ◌<◌, ◌^◌, ◌≡◌, Option, some, leb, done, arith, refl, Bool-cases, Option-cases,
  inl, inr,
}
use usc_homeworks.Page.{
  PageNumber, page_nsizes, Pages, page_add_range, page_init, page_alloc_n, page_free_n, order_from,
  page_free_count,
}
use usc_homeworks.Page.Totals.{
  IsCounted, free_in_all, page_alloc_order-IsCounted, page_free_order-IsCounted,
}
use usc_homeworks.Page.Create.{page_add_range-IsCounted}

-- The states after any sequence of calls that return. `reclaim` is what the slab allocators give back.
pub data IsReached (reclaim : Pages → Pages) : Pages → Type 0 where
  started : IsReached reclaim page_init
  added :
      {s : Pages} (start end : PageNumber)
      → IsReached reclaim s
      → IsReached reclaim (page_add_range start end s)
  allocated :
      {s s' : Pages} (npages : ℕ) (a : Option PageNumber)
      → IsReached reclaim s
      → page_alloc_n reclaim npages s ≡ done (a, s')
      → IsReached reclaim s'
  freed :
      {s s' : Pages} (addr : PageNumber) (npages : ℕ)
      → IsReached reclaim s
      → page_free_n addr npages s ≡ done s'
      → IsReached reclaim s'

order_from_fits : (k order npages r : ℕ) → order_from k order npages ≡ some r → r < order + k
unfolding order_from
order_from_fits zero order npages r e = cc (e)
order_from_fits (suc k) order npages r e = elim (Bool-cases (leb npages (2 ^ order))) [
  | inl enough ↦ let same : order ≡ r = cc (rw enough at e) in omega arith
  | inr short ↦ omega (arith, order_from_fits k (order + 1) npages r (rw short at e))
]

pub page_init-IsCounted : IsCounted page_init
unfolding page_init IsCounted free_in_all
page_init-IsCounted = refl

page_alloc_n-IsCounted :
    (reclaim : Pages → Pages) (npages : ℕ) (s s' : Pages) (a : Option PageNumber)
    → ((x : Pages) → IsCounted x → IsCounted (reclaim x))
    → IsCounted s
    → page_alloc_n reclaim npages s ≡ done (a, s')
    → IsCounted s'
unfolding page_alloc_n
page_alloc_n-IsCounted reclaim npages s s' a keep c e =
    elim (Option-cases (order_from page_nsizes 0 npages)) [
      | inl large ↦ cc (rw (large, page_alloc_n) at e)
      | inr (order, fits) ↦
          page_alloc_order-IsCounted reclaim order s s' a keep
            (order_from_fits page_nsizes 0 npages order fits) c (rw (fits, page_alloc_n) at e)
    ]

page_free_n-IsCounted :
    (addr : PageNumber) (npages : ℕ) (s s' : Pages)
    → IsCounted s
    → page_free_n addr npages s ≡ done s'
    → IsCounted s'
unfolding page_free_n
page_free_n-IsCounted addr npages s s' c e = elim (Option-cases (order_from page_nsizes 0 npages)) [
  | inl large ↦ cc (rw (large, page_free_n) at e)
  | inr (order, fits) ↦
      page_free_order-IsCounted addr order s s' (order_from_fits page_nsizes 0 npages order fits) c
        (rw (fits, page_free_n) at e)
]

IsReached-IsCounted :
    (reclaim : Pages → Pages)
    → ((x : Pages) → IsCounted x → IsCounted (reclaim x))
    → (s : Pages) → IsReached reclaim s
    → IsCounted s
IsReached-IsCounted reclaim keep s started = page_init-IsCounted
IsReached-IsCounted reclaim keep s (added {s = s0} start end h) =
    page_add_range-IsCounted start end s0 (IsReached-IsCounted reclaim keep s0 h)
IsReached-IsCounted reclaim keep s (allocated {s = s0} npages a h e) =
    page_alloc_n-IsCounted reclaim npages s0 s a keep (IsReached-IsCounted reclaim keep s0 h) e
IsReached-IsCounted reclaim keep s (freed {s = s0} addr npages h e) =
    page_free_n-IsCounted addr npages s0 s (IsReached-IsCounted reclaim keep s0 h) e

-- In every state that calls lead to from `page_init`, `page_free_count` answers the number of the pages
-- on the lists of free blocks, when what the slab allocators give back keeps it so.
pub IsReached-counts :
    (reclaim : Pages → Pages)
    → ((x : Pages) → IsCounted x → IsCounted (reclaim x))
    → (s : Pages) → IsReached reclaim s
    → page_free_count s ≡ free_in_all s.pagegroup_list
unfolding page_free_count IsCounted
IsReached-counts reclaim keep s h = IsReached-IsCounted reclaim keep s h
