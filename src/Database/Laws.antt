-- ===== src/Database/Laws.antt =====
-- The tree operations behind cs402/db_coarse.c are those of a finite map, and keep the order of
-- the keys.
use usc_homeworks.Base.{◌≡◌, true, false, Option, none, some, refl, arith, Bool-cases, inl, inr}
use usc_homeworks.Database.{StrOrder, Ptr, is_lt, is_eq}
use usc_homeworks.Database.Tree.{
  Tree, leaf, node, AllKeys, IsOrdered, ◌≺◌, pop_min, collapse, lookup, stops, target, replace,
  find, insert, remove,
}

module _ {S : Type 0} where
  pub AllKeys-imp :
      {P Q : S → Type 0} → ((k : S) → P k → Q k) → (t : Tree S) → AllKeys P t → AllKeys Q t
  AllKeys-imp f leaf h = tt
  AllKeys-imp f (node a l k v r) h = (AllKeys-imp f l h.0, f k h.1, AllKeys-imp f r h.2)

  pub AllKeys-pop_min :
      (P : S → Type 0) (a : Ptr) (l : Tree S) (k v : S) (r : Tree S)
      → AllKeys P (node a l k v r)
      → P (pop_min a l k v r).1 × AllKeys P (pop_min a l k v r).3
  unfolding pop_min
  AllKeys-pop_min P a leaf k v r h = (h.1, h.2)
  AllKeys-pop_min P a (node la ll lk lv lr) k v r h =
      let m = AllKeys-pop_min P la ll lk lv lr h.0 in (m.0, (m.1, h.1, h.2))

  AllKeys-collapse : (P : S → Type 0) (t : Tree S) → AllKeys P t → AllKeys P (collapse t)
  unfolding collapse
  AllKeys-collapse P leaf h = tt
  AllKeys-collapse P (node a l k v leaf) h = h.0
  AllKeys-collapse P (node a leaf k v (node ra rl rk rv rr)) h = h.2
  AllKeys-collapse P (node a (node la ll lk lv lr) k v (node ra rl rk rv rr)) h =
      let m = AllKeys-pop_min P ra rl rk rv rr h.2 in (h.0, m.0, m.1)

module _ {S : Type 0} ⦃o : StrOrder S⦄ where
  pub pop_min-IsOrdered :
      (a : Ptr) (l : Tree S) (k v : S) (r : Tree S)
      → IsOrdered (node a l k v r)
      → AllKeys (λ x. (pop_min a l k v r).1 ≺ x) (pop_min a l k v r).3
        × IsOrdered (pop_min a l k v r).3
  unfolding pop_min
  pop_min-IsOrdered a leaf k v r h = (h.1, h.3)
  pop_min-IsOrdered a (node la ll lk lv lr) k v r h =
      let m = pop_min-IsOrdered la ll lk lv lr h.2 in
      let low = AllKeys-pop_min (λ x. x ≺ k) la ll lk lv lr h.0 in
      ((m.0, low.0, AllKeys-imp (λ x. o.lt_trans _ k x low.0) r h.1), (low.1, h.1, m.1, h.3))

  pub collapse-IsOrdered : (t : Tree S) → IsOrdered t → IsOrdered (collapse t)
  unfolding collapse
  collapse-IsOrdered leaf h = tt
  collapse-IsOrdered (node a l k v leaf) h = h.2
  collapse-IsOrdered (node a leaf k v (node ra rl rk rv rr)) h = h.3
  collapse-IsOrdered (node a (node la ll lk lv lr) k v (node ra rl rk rv rr)) h =
      let m = pop_min-IsOrdered ra rl rk rv rr h.3 in
      let above = AllKeys-pop_min (λ x. k ≺ x) ra rl rk rv rr h.1 in
      (
        AllKeys-imp (λ x below. o.lt_trans x k _ below above.0) (node la ll lk lv lr) h.0,
        m.0,
        h.2,
        m.1,
      )

  gt_of_not : (s t : S) → is_lt (o.strcmp s t) ≡ false → is_eq (o.strcmp s t) ≡ false → t ≺ s
  gt_of_not s t l e = ground (arith, o.lt_of_gt s t)

  lt_of_is_lt : (s t : S) → is_lt (o.strcmp s t) ≡ true → s ≺ t
  lt_of_is_lt s t l = ground arith

  -- What `replace` has to keep of a property of the keys.
  abbrev Keeps : S → Tree S → Tree S → Type 1
  Keeps q s' t = (P : S → Type 0) → P q → AllKeys P t → AllKeys P s'

  replace-AllKeys :
      (P : S → Type 0) (q : S) (s' t : Tree S)
      → Keeps q s' (target q t)
      → P q
      → AllKeys P t
      → AllKeys P (replace q s' t)
  unfolding replace target
  replace-AllKeys P q s' leaf keep p h = h
  replace-AllKeys P q s' (node a l k v r) keep p h = elim (Bool-cases (is_lt (o.strcmp q k))) [
    | inl side ↦ rw side (elim (Bool-cases (stops q l)) [
      | inl e ↦ rw e ((rw (side, e) at keep) P p h.0, h.1, h.2)
      | inr e ↦ rw e (replace-AllKeys P q s' l (rw (side, e) at keep) p h.0, h.1, h.2)
    ])
    | inr side ↦ rw side (elim (Bool-cases (stops q r)) [
      | inl e ↦ rw e (h.0, h.1, (rw (side, e) at keep) P p h.2)
      | inr e ↦ rw e (h.0, h.1, replace-AllKeys P q s' r (rw (side, e) at keep) p h.2)
    ])
  ]

  -- The root of the tree does not hold the key.
  abbrev pub IsNotRoot : S → Tree S → Type 0
  IsNotRoot q leaf = Unit
  IsNotRoot q (node a l k v r) = is_eq (o.strcmp q k) ≡ false

  IsNotRoot-stops : (q : S) (t : Tree S) → stops q t ≡ false → IsNotRoot q t
  IsNotRoot-stops q leaf e = tt
  IsNotRoot-stops q (node a l k v r) e = e

  replace-IsOrdered :
      (q : S) (s' t : Tree S)
      → IsNotRoot q t
      → Keeps q s' (target q t)
      → IsOrdered s'
      → IsOrdered t
      → IsOrdered (replace q s' t)
  unfolding replace target
  replace-IsOrdered q s' leaf ne keep os h = tt
  replace-IsOrdered q s' (node a l k v r) ne keep os h = elim (Bool-cases (is_lt (o.strcmp q k))) [
    | inl side ↦ rw side (elim (Bool-cases (stops q l)) [
      | inl e ↦ rw e ((rw (side, e) at keep) (λ x. x ≺ k) (lt_of_is_lt q k side) h.0, h.1, os, h.3)
      | inr e ↦ rw e (
        replace-AllKeys (λ x. x ≺ k) q s' l (rw (side, e) at keep) (lt_of_is_lt q k side) h.0,
        h.1,
        replace-IsOrdered q s' l (IsNotRoot-stops q l e) (rw (side, e) at keep) os h.2,
        h.3,
      )
    ])
    | inr side ↦ rw side (elim (Bool-cases (stops q r)) [
      | inl e ↦ rw e (h.0, (rw (side, e) at keep) (λ x. k ≺ x) (gt_of_not q k side ne) h.1, h.2, os)
      | inr e ↦ rw e (
        h.0,
        replace-AllKeys (λ x. k ≺ x) q s' r (rw (side, e) at keep) (gt_of_not q k side ne) h.1,
        h.2,
        replace-IsOrdered q s' r (IsNotRoot-stops q r e) (rw (side, e) at keep) os h.3,
      )
    ])
  ]

  -- `add` keeps the order of the keys.
  pub insert-IsOrdered :
      (fresh : Ptr) (q w : S) (t : Tree S)
      → IsNotRoot q t
      → IsOrdered t
      → IsOrdered (insert fresh q w t)
  unfolding insert
  insert-IsOrdered fresh q w t ne h =
      replace-IsOrdered q _ t ne (λ P p a. (tt, p, tt)) (tt, tt, tt, tt) h

  target-IsOrdered : (q : S) (t : Tree S) → IsOrdered t → IsOrdered (target q t)
  unfolding target
  target-IsOrdered q leaf h = tt
  target-IsOrdered q (node a l k v r) h =
      ground (arith, target-IsOrdered q l h.2, target-IsOrdered q r h.3)

  -- `xremove` keeps the order of the keys.
  pub remove-IsOrdered : (q : S) (t : Tree S) → IsNotRoot q t → IsOrdered t → IsOrdered (remove q t)
  unfolding remove
  remove-IsOrdered q t ne h =
      replace-IsOrdered q _ t ne (λ P p a. AllKeys-collapse P (target q t) a)
        (collapse-IsOrdered (target q t) (target-IsOrdered q t h)) h

  abbrev pub root_value : Tree S → Option S
  root_value leaf = none
  root_value (node a l k v r) = some v

  lookup-stops : (q : S) (t : Tree S) → stops q t ≡ true → lookup q t ≡ root_value t
  unfolding lookup
  lookup-stops q leaf e = refl
  lookup-stops q (node a l k v r) e = ground arith

  lookup-find : (q : S) (t : Tree S) → stops q t ≡ false → lookup q t ≡ find q t
  unfolding lookup find
  lookup-find q leaf e = cc
  lookup-find q (node a l k v r) e = ground arith

  -- The value of a key is that of the node at which the search for it stops.
  pub find-target : (q : S) (t : Tree S) → find q t ≡ root_value (target q t)
  unfolding find target
  find-target q leaf = refl
  find-target q (node a l k v r) = ground (
    arith,
    lookup-stops q l,
    lookup-stops q r,
    lookup-find q l,
    lookup-find q r,
    find-target q l,
    find-target q r,
  )
