-- ===== src/Database/Lookup.antt =====
-- What is found after `add` and `xremove` of cs402/db_coarse.c.
use usc_homeworks.Base.{◌≡◌, ◌≢◌, none, some, if◌then◌else◌, refl, arith}
use usc_homeworks.Database.{StrOrder, Ptr, is_eq}
use usc_homeworks.Database.Tree.{
  Tree, leaf, node, AllKeys, IsOrdered, ◌≺◌, pop_min, collapse, lookup, stops, target, replace,
  find, insert, remove,
}
use usc_homeworks.Database.Laws.{AllKeys-pop_min, pop_min-IsOrdered}

module _ {S : Type 0} ⦃o : StrOrder S⦄ where
  -- The subtree after `s` was put at the place of a search for `q` in it.
  abbrev put : S → Tree S → Tree S → Tree S
  put q s c = if stops q c then s else replace q s c

  lookup-put_new :
      (fresh : Ptr) (q w p : S) (c : Tree S)
      → lookup q c ≡ none
      → lookup p (put q (node fresh leaf q w leaf) c)
        ≡ (if is_eq (o.strcmp p q) then some w else lookup p c)
  unfolding lookup replace
  lookup-put_new fresh q w p leaf h = ground arith
  lookup-put_new fresh q w p (node a l k v r) h =
      ground (arith, lookup-put_new fresh q w p l, lookup-put_new fresh q w p r, o.eq_of_strcmp p q)

  -- After `add` of a new key, that key has its value and every other key the one it had.
  pub find-insert :
      (fresh : Ptr) (q w p : S) (t : Tree S)
      → find q t ≡ none
      → t ≢ leaf
      → find p (insert fresh q w t) ≡ (if is_eq (o.strcmp p q) then some w else find p t)
  unfolding find insert replace
  find-insert fresh q w p leaf h ne = absurd (ne refl)
  find-insert fresh q w p (node a l k v r) h ne =
      ground (arith, lookup-put_new fresh q w p l, lookup-put_new fresh q w p r, o.eq_of_strcmp p q)

  lookup-Below : (k p : S) (t : Tree S) → AllKeys (λ x. x ≺ k) t → k ≺ p → lookup p t ≡ none
  unfolding lookup
  lookup-Below k p leaf h g = refl
  lookup-Below k p (node a l x v r) h g =
      ground (arith, o.lt_trans x k p h.1 g, o.gt_of_lt x p, lookup-Below k p r h.2 g)

  lookup-Above : (k p : S) (t : Tree S) → AllKeys (λ x. k ≺ x) t → p ≺ k → lookup p t ≡ none
  unfolding lookup
  lookup-Above k p leaf h g = refl
  lookup-Above k p (node a l x v r) h g =
      ground (arith, o.lt_trans p k x g h.1, lookup-Above k p l h.0 g)

  lookup-self_Below : (k : S) (t : Tree S) → AllKeys (λ x. x ≺ k) t → lookup k t ≡ none
  unfolding lookup
  lookup-self_Below k leaf h = refl
  lookup-self_Below k (node a l x v r) h =
      ground (arith, o.gt_of_lt x k h.1, lookup-self_Below k r h.2)

  lookup-self_Above : (k : S) (t : Tree S) → AllKeys (λ x. k ≺ x) t → lookup k t ≡ none
  unfolding lookup
  lookup-self_Above k leaf h = refl
  lookup-self_Above k (node a l x v r) h = ground (arith, lookup-self_Above k l h.0)

  -- A tree reads like its least entry, looked at first, and the rest.
  lookup-pop_min :
      (a : Ptr) (l : Tree S) (k v : S) (r : Tree S) (p : S)
      → IsOrdered (node a l k v r)
      → let m = pop_min a l k v r in
        lookup p (node a l k v r) ≡ (if is_eq (o.strcmp p m.1) then some m.2 else lookup p m.3)
  unfolding lookup pop_min
  lookup-pop_min a leaf k v r p h = ground (arith, lookup-Above k p r h.1)
  lookup-pop_min a (node la ll lk lv lr) k v r p h =
      let m = (pop_min la ll lk lv lr).1 in
      ground (
        arith,
        lookup-pop_min la ll lk lv lr p h.2,
        (AllKeys-pop_min (λ x. x ≺ k) la ll lk lv lr h.0).0,
        o.eq_of_strcmp p m,
      )

  -- A node whose key and right subtree are the least entry of a tree above `k` and its rest.
  lookup-joined :
      (a : Ptr) (l : Tree S) (k m w v : S) (rest r : Tree S) (p : S)
      → AllKeys (λ x. x ≺ k) l
      → AllKeys (λ x. m ≺ x) rest
      → k ≺ m
      → lookup p r ≡ (if is_eq (o.strcmp p m) then some w else lookup p rest)
      → lookup p (node a l m w rest)
        ≡ (if is_eq (o.strcmp p k) then none else lookup p (node a l k v r))
  unfolding lookup
  lookup-joined a l k m w v rest r p below above km e = ground (
    arith,
    o.lt_trans p k m,
    o.eq_of_strcmp p k,
    o.lt_of_gt p k,
    lookup-self_Below k l below,
    lookup-Below k p l below,
    lookup-Above m p rest above,
  )

  lookup-collapse :
      (a : Ptr) (l : Tree S) (k v : S) (r : Tree S) (p : S)
      → IsOrdered (node a l k v r)
      → lookup p (collapse (node a l k v r))
        ≡ (if is_eq (o.strcmp p k) then none else lookup p (node a l k v r))
  unfolding lookup collapse
  lookup-collapse a l k v leaf p h =
      ground (
        arith,
        lookup-self_Below k l h.0,
        o.eq_of_strcmp p k,
        o.lt_of_gt p k,
        lookup-Below k p l h.0,
      )
  lookup-collapse a leaf k v (node ra rl rk rv rr) p h = ground (
    arith,
    lookup-self_Above k (node ra rl rk rv rr) h.1,
    o.eq_of_strcmp p k,
    lookup-Above k p (node ra rl rk rv rr) h.1,
  )
  lookup-collapse a (node la ll lk lv lr) k v (node ra rl rk rv rr) p h =
      let m = pop_min ra rl rk rv rr in
      let inner = pop_min-IsOrdered ra rl rk rv rr h.3 in
      lookup-joined a (node la ll lk lv lr) k m.1 m.2 v m.3 (node ra rl rk rv rr) p h.0 inner.0
        (AllKeys-pop_min (λ x. k ≺ x) ra rl rk rv rr h.1).0 (lookup-pop_min ra rl rk rv rr p h.3)

  lookup-put-collapse :
      (q p : S) (c : Tree S)
      → IsOrdered c
      → lookup p (put q (collapse (if stops q c then c else target q c)) c)
        ≡ (if is_eq (o.strcmp p q) then none else lookup p c)
  unfolding lookup replace target
  lookup-put-collapse q p leaf h = unfold collapse in ground arith
  lookup-put-collapse q p (node a l k v r) h = ground (
    arith,
    lookup-collapse a l k v r p h,
    lookup-put-collapse q p l h.2,
    lookup-put-collapse q p r h.3,
    o.eq_of_strcmp q k,
    o.eq_of_strcmp p q,
  )

  -- After `xremove` that key is gone, and every other key has the value it had.
  pub find-remove :
      (q p : S) (t : Tree S)
      → IsOrdered t
      → find p (remove q t) ≡ (if is_eq (o.strcmp p q) then none else find p t)
  unfolding find remove replace target
  find-remove q p leaf h = ground arith
  find-remove q p (node a l k v r) h =
      ground
        (arith, lookup-put-collapse q p l h.2, lookup-put-collapse q p r h.3, o.eq_of_strcmp p q)
