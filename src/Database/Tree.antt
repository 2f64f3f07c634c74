-- ===== src/Database/Tree.antt =====
-- The abstract view of the database: a tree that also records the address of each node, and what
-- the operations of cs402/db_coarse.c promise on it.
use usc_homeworks.Base.{
  ℕ, suc, ◌+◌, ◌≡◌, Bool, true, false, Option, none, some, ◌==◌, if◌then◌else◌, ◌||◌,
}
use Prim.Native.Nat.Ordering.{lt, eq, gt}
use usc_homeworks.Database.{StrOrder, Ptr, null, is_lt, is_eq}

pub data Tree (S : Type 0) : Type 0 where
  leaf : Tree S
  node : Ptr → Tree S → S → S → Tree S → Tree S

module _ {S : Type 0} where
  abbrev pub addr : Tree S → Ptr
  addr leaf = null
  addr (node a l k v r) = a

  -- Whether the tree has a node at this address.
  abbrev pub has : Ptr → Tree S → Bool
  has q leaf = false
  has q (node a l k v r) = (q == a) || (has q l || has q r)

  abbrev pub size : Tree S → ℕ
  size leaf = 0
  size (node a l k v r) = suc (size l + size r)

  -- Every key of the tree satisfies `P`.
  abbrev pub AllKeys : (S → Type 0) → Tree S → Type 0
  AllKeys P leaf = Unit
  AllKeys P (node a l k v r) = AllKeys P l × P k × AllKeys P r

  -- The least entry of a non-empty tree and its address, and the tree without it.
  unfoldable pub pop_min : Ptr → Tree S → S → S → Tree S → Ptr × S × S × Tree S
  pop_min a leaf k v r = (a, k, v, r)
  pop_min a (node la ll lk lv lr) k v r =
      let m = pop_min la ll lk lv lr in (m.0, m.1, m.2, node a m.3 k v r)

  -- What takes the place of a node at `a` that is removed from above the trees `l` and `r`.
  unfoldable pub join : Ptr → Tree S → Tree S → Tree S
  unfolding pop_min
  join a l leaf = l
  join a leaf (node ra rl rk rv rr) = node ra rl rk rv rr
  join a (node la ll lk lv lr) (node ra rl rk rv rr) =
      let m = pop_min ra rl rk rv rr in node a (node la ll lk lv lr) m.1 m.2 m.3

  -- The subtree without its root.
  unfoldable pub collapse : Tree S → Tree S
  unfolding join
  collapse leaf = leaf
  collapse (node a l k v r) = join a l r

module _ {S : Type 0} ⦃o : StrOrder S⦄ where
  infix 50 ◌≺◌
  abbrev pub ◌≺◌ : S → S → Type 0
  s ≺ t = o.strcmp s t ≡ lt

  abbrev pub IsOrdered : Tree S → Type 0
  IsOrdered leaf = Unit
  IsOrdered (node a l k v r) =
      AllKeys (λ x. x ≺ k) l × AllKeys (λ x. k ≺ x) r × IsOrdered l × IsOrdered r

  -- The value of a key.
  unfoldable pub lookup : S → Tree S → Option S
  lookup q leaf = none
  lookup q (node a l k v r) = elim (o.strcmp q k) [
    | lt ↦ lookup q l
    | eq ↦ some v
    | gt ↦ lookup q r
  ]

  -- The search stops at this child: there is none, or it holds the key.
  abbrev pub stops : S → Tree S → Bool
  stops q leaf = true
  stops q (node a l k v r) = is_eq (o.strcmp q k)

  -- The child at which the search below the root of the tree stops, and its parent's address.
  unfoldable pub target : S → Tree S → Tree S
  target q leaf = leaf
  target q (node a l k v r) =
      if is_lt (o.strcmp q k)
      then (if stops q l then l else target q l)
      else (if stops q r then r else target q r)

  unfoldable pub parent : S → Tree S → Ptr
  parent q leaf = null
  parent q (node a l k v r) =
      if is_lt (o.strcmp q k)
      then (if stops q l then a else parent q l)
      else (if stops q r then a else parent q r)

  -- The tree with another one in the place of the target.
  unfoldable pub replace : S → Tree S → Tree S → Tree S
  replace q s leaf = leaf
  replace q s (node a l k v r) =
      if is_lt (o.strcmp q k)
      then node a (if stops q l then s else replace q s l) k v r
      else node a l k v (if stops q r then s else replace q s r)

  -- What is stored below the root, which is the sentinel `head`.
  unfoldable pub find : S → Tree S → Option S
  unfolding lookup
  find q leaf = none
  find q (node a l k v r) = if is_lt (o.strcmp q k) then lookup q l else lookup q r

  -- The tree after `add` of a new key, whose node is at `fresh`.
  unfoldable pub insert : Ptr → S → S → Tree S → Tree S
  unfolding replace
  insert fresh q w t = replace q (node fresh leaf q w leaf) t

  -- The tree after `xremove` of a key.
  unfoldable pub remove : S → Tree S → Tree S
  unfolding replace target collapse
  remove q t = replace q (collapse (target q t)) t
