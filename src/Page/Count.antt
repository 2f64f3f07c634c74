-- ===== src/Page/Count.antt =====
-- The blocks of weenix.assign2/kernel/mm/page.c and the number of pages they have.
use usc_homeworks.Base.{
  ℕ, zero, suc, ◌+◌, ◌-◌, ◌*◌, ◌^◌, ◌<◌, ◌≡◌, true, List, [], ◌∷◌, ◌==◌, ltb, length, done, min,
  and_then-done, total, total_change, arith, refl, sym, ap, ◌∙◌, Bool-cases, inl, inr, ==_ne,
  ltb→lt,
}
use native.Mathlib.Nat.{mul-suc}
use Prim.Native.Nat.pow
use usc_homeworks.Sched.{update, unlink}
use usc_homeworks.Page.{
  PageNumber, page_nsizes, Freelists, PageGroup, push, calculate_index, flip_at, flip_above,
  take_block, put_block, put_halves, split_block, split_down, on_list, buddy_of, join_pair,
  page_join, give_back,
}

pub power_suc : (n : ℕ) → 2 ^ (n + 1) ≡ 2 ^ n + 2 ^ n
power_suc n =
    let next : n + 1 ≡ suc n = omega arith in
    let double : 2 ^ suc n ≡ 2 ^ n * 2 = pow.suc 2 n in rw next (omega (arith, double))

-- The pages of the blocks on the lists of a group.
unfoldable pub free_pages : Freelists → ℕ
free_pages t = total page_nsizes (λ order. 2 ^ order * length (t order))

-- A list of one order is replaced.
free_pages-update :
    (t : Freelists) (order : ℕ) (l : List PageNumber)
    → order < page_nsizes
    → free_pages (update t order l) + 2 ^ order * length (t order)
      ≡ free_pages t + 2 ^ order * length l
unfolding free_pages
free_pages-update t order l h =
    let self : (order == order) ≡ true = ground arith in
    let r =
      total_change page_nsizes order (λ o. 2 ^ o * length (t o))
        (λ o. 2 ^ o * length (update t order l o)) h (λ o ne. rw (==_ne o order ne)) in
    rw self at r

pub free_pages-push :
    (t : Freelists) (order : ℕ) (addr : PageNumber)
    → order < page_nsizes
    → free_pages (push order addr t) ≡ free_pages t + 2 ^ order
free_pages-push t order addr h =
    omega
      (arith, free_pages-update t order (addr ∷ t order) h, mul-suc (2 ^ order) (length (t order)))

-- The pages that are free in a group.
abbrev pub free_in : PageGroup → ℕ
free_in g = free_pages g.pg_freelist

pub take_pages :
    (order : ℕ) (g g' : PageGroup) (a : PageNumber)
    → order < page_nsizes
    → take_block order g ≡ done (a, g')
    → free_in g' + 2 ^ order ≡ free_in g
unfolding take_block
take_pages order g g' a h e = go (g.pg_freelist order) refl
  where
    go : (l : List PageNumber) → g.pg_freelist order ≡ l → free_in g' + 2 ^ order ≡ free_in g
    go [] f = cc (rw (f, take_block) at e)
    go (x ∷ xs) f =
        let taken : PageNumber × PageGroup =
          (x, record g { pg_freelist = update g.pg_freelist order xs }) in
        let left : PageNumber × PageGroup = (a, g') in
        let same : taken ≡ left = cc (rw (f, take_block) at e) in
        let here : update g.pg_freelist order xs ≡ g'.pg_freelist =
          ap (λ r. r.1.pg_freelist) same in
        rw (← here) (
          omega (
            arith,
            rw f at (free_pages-update g.pg_freelist order xs h),
            mul-suc (2 ^ order) (length xs),
          ))

pub flip_lists :
    (order : ℕ) (a : PageNumber) (g g' : PageGroup)
    → flip_above order a g ≡ done g'
    → g'.pg_freelist ≡ g.pg_freelist
unfolding flip_above
flip_lists order a g g' e = elim (Bool-cases (ltb order (page_nsizes - 1))) [
  | inl below ↦
      let r = and_then-done (calculate_index g (order + 1) a) _ g' (rw below at e) in
      let same : record g { pg_map = flip_at (order + 1) r.0 g.pg_map } ≡ g' = cc (r.2) in
      ap (λ x. x.pg_freelist) (sym same)
  | inr top ↦ let same : g ≡ g' = cc (rw top at e) in ap (λ x. x.pg_freelist) (sym same)
]

-- The rest of a split puts both halves on the list of the lower order.
halves_pages :
    (order : ℕ) (a : PageNumber) (g g' : PageGroup)
    → order < page_nsizes
    → put_halves order a g ≡ done g'
    → free_in g' ≡ free_in g + 2 ^ order + 2 ^ order
unfolding put_halves
halves_pages order a g g' h e =
    let r = and_then-done (calculate_index g (order + 1) a) _ g' e in
    elim (Bool-cases (g.pg_map (order + 1) r.0)) [
      | inl set_bit ↦ cc (rw set_bit at (r.2))
      | inr clear ↦
          let same : put_block order (a + 2 ^ order) (put_block order a g) ≡ g' =
            cc (rw clear at (r.2)) in
          rw (← same) (
            omega (
              arith,
              free_pages-push (push order a g.pg_freelist) order (a + 2 ^ order) h,
              free_pages-push g.pg_freelist order a h,
            ))
    ]

split_pages :
    (order : ℕ) (g g' : PageGroup) → split_block order g ≡ done g' → free_in g' ≡ free_in g
unfolding split_block
split_pages order g g' e = elim (Bool-cases (ltb (order + 1) page_nsizes)) [
  | inr top ↦ cc (rw top at e)
  | inl below ↦
      let h : order + 1 < page_nsizes = ltb→lt (order + 1) page_nsizes below in
      let r = and_then-done (take_block (order + 1) g) _ g' (rw below at e) in
      let q = and_then-done (flip_above (order + 1) r.0.0 r.0.1) _ g' (r.2) in
      let same = flip_lists (order + 1) r.0.0 r.0.1 q.0 (q.1) in
      omega (
        arith,
        take_pages (order + 1) g r.0.1 r.0.0 h (r.1),
        halves_pages order r.0.0 q.0 g' (omega arith) (q.2),
        ap free_pages same,
        power_suc order,
      )
]

pub split_down_pages :
    (k order : ℕ) (g g' : PageGroup) → split_down k order g ≡ done g' → free_in g' ≡ free_in g
unfolding split_down
split_down_pages zero order g g' e = let same : g ≡ g' = cc (e) in ap free_in (sym same)
split_down_pages (suc k) order g g' e =
    let r = and_then-done (split_block (order + k) g) _ g' e in
    split_down_pages k order r.0 g' (r.2) ∙ split_pages (order + k) g r.0 (r.1)

length_unlink :
    (a : PageNumber) (l : List PageNumber) → on_list a l ≡ true → length (unlink a l) + 1 ≡ length l
unfolding on_list
length_unlink a [] e = absurd (ground arith)
length_unlink a (x ∷ xs) e = elim (Bool-cases (x == a)) [
  | inl here ↦ rw here (omega arith)
  | inr later ↦ rw later (omega (arith, length_unlink a xs (rw later at e)))
]

mul_two_more : (p n : ℕ) → p * (n + 2) ≡ p * n + p + p
mul_two_more p n = omega (arith, mul-suc p n, mul-suc p (suc n))

unlink_both_pages :
    (t : Freelists) (order : ℕ) (a b : PageNumber)
    → order < page_nsizes
    → on_list a (t order) ≡ true
    → on_list b (unlink a (t order)) ≡ true
    → free_pages (update t order (unlink b (unlink a (t order)))) + 2 ^ order + 2 ^ order
      ≡ free_pages t
unlink_both_pages t order a b h ma mb =
    let rest : List PageNumber = unlink b (unlink a (t order)) in
    let count : length rest + 2 ≡ length (t order) =
      omega (arith, length_unlink a (t order) ma, length_unlink b (unlink a (t order)) mb) in
    let product : 2 ^ order * length (t order) ≡ 2 ^ order * length rest + 2 ^ order + 2 ^ order =
      rw (← count) (mul_two_more (2 ^ order) (length rest)) in
    omega (arith, free_pages-update t order rest h, product)

join_pair_pages :
    (order : ℕ) (a b : PageNumber) (g g' : PageGroup)
    → order + 1 < page_nsizes
    → join_pair order a b g ≡ done g'
    → free_in g' ≡ free_in g
unfolding join_pair
join_pair_pages order a b g g' h e = elim (Bool-cases (on_list a (g.pg_freelist order))) [
  | inr absent ↦ cc (rw absent at e)
  | inl there ↦ elim (Bool-cases (on_list b (unlink a (g.pg_freelist order)))) [
    | inr absent ↦ cc (rw (there, absent) at e)
    | inl both ↦
        let rest : Freelists =
          update g.pg_freelist order (unlink b (unlink a (g.pg_freelist order))) in
        let joined : PageGroup =
          put_block (order + 1) (min a b) (record g { pg_freelist = rest }) in
        let same = flip_lists (order + 1) (min a b) joined g' (rw (there, both) at e) in
        omega (
          arith,
          ap free_pages same,
          free_pages-push rest (order + 1) (min a b) h,
          unlink_both_pages g.pg_freelist order a b (omega arith) there both,
          power_suc order,
        )
  ]
]

page_join_pages :
    (k order : ℕ) (a : PageNumber) (g g' : PageGroup)
    → order + k < page_nsizes
    → page_join k order a g ≡ done g'
    → free_in g' ≡ free_in g
unfolding page_join
page_join_pages zero order a g g' h e = let same : g ≡ g' = cc (e) in ap free_in (sym same)
page_join_pages (suc k) order a g g' h e =
    let r = and_then-done (calculate_index g (order + 1) a) _ g' e in
    elim (Bool-cases (g.pg_map (order + 1) r.0)) [
      | inl unpaired ↦ let same : g ≡ g' = cc (rw unpaired at (r.2)) in ap free_in (sym same)
      | inr both ↦
          let q =
            and_then-done (join_pair order a (buddy_of g order a) g) _ g' (rw both at (r.2)) in
          page_join_pages k (order + 1) (min a (buddy_of g order a)) q.0 g' (omega arith) (q.2)
          ∙ join_pair_pages order a (buddy_of g order a) g q.0 (omega arith) (q.1)
    ]

-- A block that comes back adds its pages.
pub give_back_pages :
    (order : ℕ) (a : PageNumber) (g g' : PageGroup)
    → order < page_nsizes
    → give_back order a g ≡ done g'
    → free_in g' ≡ free_in g + 2 ^ order
unfolding give_back
give_back_pages order a g g' h e =
    let r = and_then-done (flip_above order a (put_block order a g)) _ g' e in
    let same = flip_lists order a (put_block order a g) r.0 (r.1) in
    omega (
      arith,
      page_join_pages (page_nsizes - 1 - order) order a r.0 g' (omega arith) (r.2),
      ap free_pages same,
      free_pages-push g.pg_freelist order a h,
    )
