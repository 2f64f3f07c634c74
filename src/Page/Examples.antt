-- ===== src/Page/Examples.antt =====
-- Runs of the allocator of weenix.assign2/kernel/mm/page.c on small groups.
use usc_homeworks.Base.{
  ◌+◌, ◌^◌, ◌≡◌, Option, none, some, Run, done, fault, out_of_fuel, arith, refl,
}
use usc_homeworks.Page.{
  PageNumber, Pages, page_init, page_add_range, pagegroup_end, map_size, pagegroup_create,
  put_remainder, put_largest, page_alloc_n, order_from, page_alloc_order, group_with, page_split,
  split_down, split_block, take_block, flip_above, calculate_index, put_halves, after_split,
  take_from, page_free_n, page_free_order, pagegroup_from_address, give_back, page_join, join_pair,
  buddy_of, on_list, page_free_count,
}
use usc_homeworks.Page.Totals.{free_in_all, page_alloc_order_takes}
use usc_homeworks.Page.Create.{page_add_range-IsCounted}
use usc_homeworks.Page.Reach.{
  started, added, allocated, freed, page_init-IsCounted, IsReached-counts,
}

-- One group of a single block of the largest order, and a page for its bit maps.
abbrev one_block : Pages
one_block = page_add_range 0 129 page_init

-- No slab gives anything back.
abbrev no_slabs : Pages → Pages
no_slabs s = s

abbrev addr_of : Run (Option PageNumber × Pages) → Option PageNumber
addr_of (done r) = r.0
addr_of fault = none
addr_of out_of_fuel = none

abbrev after_alloc : Run (Option PageNumber × Pages) → Pages
after_alloc (done r) = r.1
after_alloc fault = page_init
after_alloc out_of_fuel = page_init

abbrev after_free : Run Pages → Pages
after_free (done s) = s
after_free fault = page_init
after_free out_of_fuel = page_init

abbrev held : Pages
held = after_alloc (page_alloc_n no_slabs 3 one_block)

abbrev freed_again : Pages
freed_again = after_free (page_free_n 124 3 held)

-- Three pages are a block of four, split off five times.
split_run : page_alloc_n no_slabs 3 one_block ≡ done (some 124, held)
unfolding page_init page_add_range pagegroup_end map_size pagegroup_create put_remainder put_largest
    page_alloc_n order_from page_alloc_order group_with page_split split_down split_block take_block
    flip_above calculate_index put_halves after_split take_from page_free_n page_free_order
    pagegroup_from_address give_back page_join join_pair buddy_of on_list
split_run = refl

-- The block comes back and is joined five times.
join_run : page_free_n 124 3 held ≡ done freed_again
unfolding page_init page_add_range pagegroup_end map_size pagegroup_create put_remainder put_largest
    page_alloc_n order_from page_alloc_order group_with page_split split_down split_block take_block
    flip_above calculate_index put_halves after_split take_from page_free_n page_free_order
    pagegroup_from_address give_back page_join join_pair buddy_of on_list
join_run = refl

IsReached-counts_example : page_free_count freed_again ≡ free_in_all freed_again.pagegroup_list
IsReached-counts_example =
    IsReached-counts no_slabs (λ x c. c) freed_again
      (freed 124 3 (allocated 3 (some 124) (added 0 129 started) split_run) join_run)

one_block_run : page_alloc_order no_slabs 2 one_block ≡ done (some 124, held)
unfolding page_init page_add_range pagegroup_end map_size pagegroup_create put_remainder put_largest
    page_alloc_n order_from page_alloc_order group_with page_split split_down split_block take_block
    flip_above calculate_index put_halves after_split take_from page_free_n page_free_order
    pagegroup_from_address give_back page_join join_pair buddy_of on_list
one_block_run = refl

page_alloc_order_takes_example : page_free_count held + 2 ^ 2 ≡ page_free_count one_block
page_alloc_order_takes_example =
    page_alloc_order_takes no_slabs 2 one_block held 124 (omega arith)
      (page_add_range-IsCounted 0 129 page_init page_init-IsCounted) one_block_run

-- One group of seven pages, without the one for its bit maps: a block of four, one of two and one of one page, which has no pair.
abbrev seven_pages : Pages
seven_pages = page_add_range 16 24 page_init

-- The page without a pair is allocated; when it comes back, it is joined with the one behind the group.
no_way_back : page_free_n 22 1 (after_alloc (page_alloc_n no_slabs 1 seven_pages)) ≡ fault
unfolding page_init page_add_range pagegroup_end map_size pagegroup_create put_remainder put_largest
    page_alloc_n order_from page_alloc_order group_with page_split split_down split_block take_block
    flip_above calculate_index put_halves after_split take_from page_free_n page_free_order
    pagegroup_from_address give_back page_join join_pair buddy_of on_list
no_way_back = refl
