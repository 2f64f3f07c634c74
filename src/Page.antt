-- ===== src/Page.antt =====
-- The page allocator, weenix.assign2/kernel/mm/page.c, a buddy system. An address is given by its page
-- number, for blocks start at pages, and a buddy bit map as a function on indices. The pattern that
-- fills pages is left out, and a number of pages asked for is below 2 ^ 31. A page group is named by its place on the list of groups.
pub mod Count
pub mod Create
pub mod Totals
pub mod Reach
pub mod Examples
use usc_homeworks.Base.{
  ℕ, zero, suc, ◌+◌, ◌-◌, ◌*◌, ◌/◌, ◌%◌, ◌^◌, min, Bool, true, false, not, ◌&&◌, ◌||◌, Option, none,
  some, List, [], ◌∷◌, ◌++◌, ◌==◌, ltb, leb, if◌then◌else◌, length, get_elem?, set, Run, done,
  fault, out_of_fuel, and_then,
}
use usc_homeworks.Sched.{update, is_none, is_empty, unlink}

abbrev pub PageNumber : Type 0
PageNumber = ℕ

abbrev pub page_nsizes : ℕ
page_nsizes = 8

abbrev pub page_shift : ℕ
page_shift = 12

-- The bytes of a `struct pagegroup` where a pointer has 4 of them.
abbrev pub sizeof_pagegroup : ℕ
sizeof_pagegroup = 112

abbrev pub Freelists : Type 0
Freelists = ℕ → List PageNumber

pub record PageGroup : Type 0 where
  pub pg_freelist : Freelists
  pub pg_map : ℕ → ℕ → Bool
  pub pg_baseaddr : PageNumber
  pub pg_endaddr : PageNumber

pub record Pages : Type 0 where
  pub pagegroup_list : List PageGroup
  pub page_freecount : ℕ

unfoldable pub page_init : Pages
page_init = record { pagegroup_list = []; page_freecount = 0 }

abbrev pub push : ℕ → PageNumber → Freelists → Freelists
push order addr t = update t order (addr ∷ t order)

-- The blocks that do not fit the largest order, one for each bit of the number of pages, from the end
-- of the group on: the lists, and the end of what is left. `k` orders are left to go through.
unfoldable pub put_remainder : ℕ → ℕ → ℕ → PageNumber → Freelists → Freelists × PageNumber
put_remainder zero order npages end t = (t, end)
put_remainder (suc k) order npages end t =
    let start = end - 2 ^ order in
    let with_block = put_remainder k (order + 1) npages start (push order start t) in
    let without = put_remainder k (order + 1) npages end t in
    if npages / 2 ^ order % 2 == 1 then with_block else without

-- The blocks of the largest order, from the start of the group on.
unfoldable pub put_largest : ℕ → PageNumber → Freelists → Freelists
put_largest zero current t = t
put_largest (suc k) current t =
    put_largest k (current + 2 ^ (page_nsizes - 1)) (push (page_nsizes - 1) current t)

-- The bytes of the bit maps of `k` orders, and the end of the pages that are left once they and the
-- group itself have their place at the end of the range.
unfoldable pub map_size : ℕ → ℕ → ℕ → ℕ
map_size zero order npages = 0
map_size (suc k) order npages = (npages / 2 ^ order + 7) / 8 + map_size k (order + 1) npages

unfoldable pub pagegroup_end : PageNumber → PageNumber → PageNumber
pagegroup_end start end =
    (end * 2 ^ page_shift - sizeof_pagegroup - map_size (page_nsizes - 1) 1 (end - start))
    / 2 ^ page_shift

-- `_pagegroup_create`, where `end` is the end of the pages that are left.
unfoldable pub pagegroup_create : PageNumber → PageNumber → PageGroup
pagegroup_create start end =
    let r = put_remainder (page_nsizes - 1) 0 (end - start) end (λ order. []) in
    record {
      pg_freelist = put_largest ((r.1 - start) / 2 ^ (page_nsizes - 1)) start r.0;
      pg_map = λ order index. false;
      pg_baseaddr = start;
      pg_endaddr = end;
    }

-- A range from page to page.
unfoldable pub page_add_range : PageNumber → PageNumber → Pages → Pages
page_add_range start end s =
    let last = pagegroup_end start end in
    if ltb start last
    then record {
      pagegroup_list = s.pagegroup_list ++ (pagegroup_create start last ∷ []);
      page_freecount = s.page_freecount + (last - start);
    }
    else s

-- Whether the group has the address, and the first group that does.
abbrev pub has_addr : PageGroup → PageNumber → Bool
has_addr g addr = leb g.pg_baseaddr addr && ltb addr g.pg_endaddr

unfoldable pub pagegroup_from_address : List PageGroup → PageNumber → Option ℕ
pagegroup_from_address [] addr = none
pagegroup_from_address (g ∷ gs) addr =
    let later = pagegroup_from_address gs addr in
    if has_addr g addr then some 0 else elim later [ none ↦ none | some i ↦ some (suc i) ]

unfoldable pub calculate_index : PageGroup → ℕ → PageNumber → Run ℕ
calculate_index g order addr =
    if ltb order page_nsizes && has_addr g addr
    then done ((addr - g.pg_baseaddr) / 2 ^ order)
    else fault

abbrev pub flip_at : ℕ → ℕ → (ℕ → ℕ → Bool) → ℕ → ℕ → Bool
flip_at order index m = update m order (update (m order) index (not (m order index)))

-- The bit of the pair that the address is in one order up is flipped, if there is such an order.
unfoldable pub flip_above : ℕ → PageNumber → PageGroup → Run PageGroup
flip_above order addr g =
    if ltb order (page_nsizes - 1)
    then and_then (calculate_index g (order + 1) addr)
        (λ i. done (record g { pg_map = flip_at (order + 1) i g.pg_map }))
    else done g

-- The first block of a list is taken off it.
unfoldable pub take_block : ℕ → PageGroup → Run (PageNumber × PageGroup)
take_block order g = elim (g.pg_freelist order) [
  | [] ↦ fault
  | addr ∷ rest ↦ done (addr, record g { pg_freelist = update g.pg_freelist order rest })
]

abbrev pub put_block : ℕ → PageNumber → PageGroup → PageGroup
put_block order addr g = record g { pg_freelist = push order addr g.pg_freelist }

-- The two halves of a block, whose own bit is not set.
unfoldable pub put_halves : ℕ → PageNumber → PageGroup → Run PageGroup
put_halves order target g = and_then (calculate_index g (order + 1) target) λ i.
    if g.pg_map (order + 1) i
    then fault
    else done (put_block order (target + 2 ^ order) (put_block order target g))

-- `__page_split` of a block of the order one more than `order`, for order 0 fails an assertion.
unfoldable pub split_block : ℕ → PageGroup → Run PageGroup
split_block order g =
    if not (ltb (order + 1) page_nsizes)
    then fault
    else and_then (take_block (order + 1) g)
        λ r. and_then (flip_above (order + 1) r.0 r.1) λ g'. put_halves order r.0 g'

-- The loop that splits from `k` orders above `order` down to it.
unfoldable pub split_down : ℕ → ℕ → PageGroup → Run PageGroup
split_down zero order g = done g
split_down (suc k) order g = and_then (split_block (order + k) g) (split_down k order)

-- The first group with a block of the order.
unfoldable pub group_with : ℕ → List PageGroup → Option ℕ
group_with order [] = none
group_with order (g ∷ gs) =
    let later = group_with order gs in
    if not (is_empty (g.pg_freelist order))
    then some 0
    else elim later [ none ↦ none | some i ↦ some (suc i) ]

abbrev pub at_group : ℕ → List PageGroup → (PageGroup → Run (List PageGroup)) → Run (List PageGroup)
at_group i gs f = elim (get_elem? gs i) [ none ↦ fault | some g ↦ f g ]

-- `_page_split`: the smallest larger order of which there is a block, `k` orders left to try, and the
-- groups after splitting. `none` where there is none; the slabs that are reclaimed then stay with
-- their allocator.
unfoldable pub page_split : ℕ → ℕ → ℕ → List PageGroup → Run (Option (ℕ × List PageGroup))
page_split zero above order gs = done none
page_split (suc k) above order gs =
    let next = page_split k (above + 1) order gs in
    elim (group_with (order + above) gs) [
      | none ↦ next
      | some i ↦
          and_then
            (at_group i gs (λ g. and_then (split_down above order g) λ g'. done (set gs i g')))
            (λ gs'. done (some (i, gs')))
    ]

-- The rest of `_page_alloc_order`, once a group has a block of the order.
unfoldable pub take_from : ℕ → ℕ → List PageGroup → ℕ → Run (Option PageNumber × Pages)
take_from i order gs freecount = elim (get_elem? gs i) [
  | none ↦ fault
  | some g ↦ and_then (take_block order g) (λ r. and_then (flip_above order r.0 r.1) (λ g'.
      done (
        some r.0,
        record { pagegroup_list = set gs i g'; page_freecount = freecount - 2 ^ order },
      )))
]

-- What `_page_alloc_order` does when no group has a block of the order, on what the split gave.
unfoldable pub after_split :
    (Pages → Pages) → ℕ → Option (ℕ × List PageGroup) → Pages → Run (Option PageNumber × Pages)
after_split reclaim order none s = done (none, reclaim s)
after_split reclaim order (some r) s = take_from r.0 order r.1 s.page_freecount

-- `_page_alloc_order`; `reclaim` is what `slab_allocators_reclaim` frees when there is no memory.
unfoldable pub page_alloc_order : (Pages → Pages) → ℕ → Pages → Run (Option PageNumber × Pages)
page_alloc_order reclaim order s = elim (group_with order s.pagegroup_list) [
  | some i ↦ take_from i order s.pagegroup_list s.page_freecount
  | none ↦
      and_then (page_split (page_nsizes - 1 - order) 1 order s.pagegroup_list)
        (λ r. after_split reclaim order r s)
]

unfoldable pub on_list : PageNumber → List PageNumber → Bool
on_list a [] = false
on_list a (x ∷ xs) = (x == a) || on_list a xs

-- The other block of the pair.
unfoldable pub buddy_of : PageGroup → ℕ → PageNumber → PageNumber
buddy_of g order addr =
    if (addr - g.pg_baseaddr) / 2 ^ order % 2 == 1 then addr - 2 ^ order else addr + 2 ^ order

-- Two blocks leave the list of their order, and one of the next order takes their place. To remove
-- what is not on the list is to write through pointers that are none.
unfoldable pub join_pair : ℕ → PageNumber → PageNumber → PageGroup → Run PageGroup
join_pair order addr buddy g =
    let low = min addr buddy in
    let rest = unlink buddy (unlink addr (g.pg_freelist order)) in
    if on_list addr (g.pg_freelist order) && on_list buddy (unlink addr (g.pg_freelist order))
    then flip_above (order + 1) low
        (put_block (order + 1) low (record g { pg_freelist = update g.pg_freelist order rest }))
    else fault

-- `__page_join`, with `k` orders above `order`.
unfoldable pub page_join : ℕ → ℕ → PageNumber → PageGroup → Run PageGroup
page_join zero order addr g = done g
page_join (suc k) order addr g =
    let buddy = buddy_of g order addr in
    let joined =
      and_then (join_pair order addr buddy g) (page_join k (order + 1) (min addr buddy)) in
    and_then (calculate_index g (order + 1) addr)
      λ i. if g.pg_map (order + 1) i then done g else joined

-- A block goes back to its group.
unfoldable pub give_back : ℕ → PageNumber → PageGroup → Run PageGroup
give_back order addr g =
    and_then (flip_above order addr (put_block order addr g))
      (page_join (page_nsizes - 1 - order) order addr)

-- `_page_free_order`, which ignores an address of no group.
unfoldable pub page_free_order : PageNumber → ℕ → Pages → Run Pages
page_free_order addr order s = elim (pagegroup_from_address s.pagegroup_list addr) [
  | none ↦ done s
  | some i ↦ elim (get_elem? s.pagegroup_list i) [
    | none ↦ fault
    | some g ↦ and_then (give_back order addr g) (λ g'. done (record {
      pagegroup_list = set s.pagegroup_list i g';
      page_freecount = s.page_freecount + 2 ^ order;
    }))
  ]
]

unfoldable pub page_alloc : (Pages → Pages) → Pages → Run (Option PageNumber × Pages)
page_alloc reclaim s = page_alloc_order reclaim 0 s

unfoldable pub page_free : PageNumber → Pages → Run Pages
page_free addr s = page_free_order addr 0 s

-- The first order, of `k` from `order` on, whose blocks have as many pages.
unfoldable pub order_from : ℕ → ℕ → ℕ → Option ℕ
order_from zero order npages = none
order_from (suc k) order npages =
    let later = order_from k (order + 1) npages in
    if leb npages (2 ^ order) then some order else later

unfoldable pub page_alloc_n : (Pages → Pages) → ℕ → Pages → Run (Option PageNumber × Pages)
page_alloc_n reclaim npages s = elim (order_from page_nsizes 0 npages) [
  | none ↦ fault
  | some order ↦ page_alloc_order reclaim order s
]

unfoldable pub page_free_n : PageNumber → ℕ → Pages → Run Pages
page_free_n start npages s = elim (order_from page_nsizes 0 npages) [
  | none ↦ fault
  | some order ↦ page_free_order start order s
]

unfoldable pub page_free_count : Pages → ℕ
page_free_count s = s.page_freecount
