-- ===== src/Database.antt =====
-- The binary search tree of cs402/db_coarse.c, over an explicit heap. The same tree code stands in
-- cs402/db_rw.c. A C string is a value of an abstract type; `strcmp` of the C library comes with
-- the laws of a total order, and what `malloc` returns is an argument.
pub mod Tree
pub mod Rep
pub mod Search
pub mod Focus
pub mod Add
pub mod Minimum
pub mod Splice
pub mod Swap
pub mod Remove
pub mod Laws
pub mod Lookup
pub mod Client
pub mod Examples
use usc_homeworks.Base.{
  ℕ, zero, suc, ◌≡◌, Bool, true, false, Option, none, some, ◌==◌, if◌then◌else◌, not, ◌&&◌,
  Ordering, Run, done, fault, out_of_fuel, and_then,
}
use Prim.Native.Nat.Ordering.{lt, eq, gt}

-- What the code uses of <string.h>: `strcmp` on strings.
pub record StrOrder (S : Type 0) : Type 0 where
  pub strcmp : S → S → Ordering
  pub strcmp_refl : (s : S) → strcmp s s ≡ eq
  pub eq_of_strcmp : (s t : S) → strcmp s t ≡ eq → s ≡ t
  pub gt_of_lt : (s t : S) → strcmp s t ≡ lt → strcmp t s ≡ gt
  pub lt_of_gt : (s t : S) → strcmp s t ≡ gt → strcmp t s ≡ lt
  pub lt_trans : (s t u : S) → strcmp s t ≡ lt → strcmp t u ≡ lt → strcmp s u ≡ lt

abbrev pub is_lt : Ordering → Bool
is_lt lt = true
is_lt _ = false

abbrev pub is_eq : Ordering → Bool
is_eq eq = true
is_eq _ = false

abbrev pub Ptr : Type 0
Ptr = ℕ

abbrev pub null : Ptr
null = 0

-- `node_t`
pub record Node (S : Type 0) : Type 0 where
  pub name : S
  pub value : S
  pub lchild : Ptr
  pub rchild : Ptr

abbrev pub Heap : Type 0 → Type 0
Heap S = Ptr → Option (Node S)

abbrev pub Cmd : Type 0 → Type 0 → Type 0
Cmd S A = Heap S → Run (A × Heap S)

-- What the three `malloc` calls of `node_create` return: the address of the node (`null` on
-- failure), and whether there was room for the two strings.
pub record Alloc : Type 0 where
  pub node : Ptr
  pub name_ok : Bool
  pub value_ok : Bool

module _ {S : Type 0} where
  abbrev pub write : Heap S → Ptr → Option (Node S) → Heap S
  write h p c q = if q == p then c else h q

  abbrev pub pure : {A : Type 0} → A → Cmd S A
  pure a h = done (a, h)

  infixl 5 ◌>>=◌ ◌>>◌
  abbrev pub ◌>>=◌ : {A B : Type 0} → Cmd S A → (A → Cmd S B) → Cmd S B
  ◌>>=◌ m f h = and_then (m h) (λ r. f r.0 r.1)

  abbrev pub ◌>>◌ : {B : Type 0} → Cmd S (Unit {0}) → Cmd S B → Cmd S B
  m >> k = m >>= λ _. k

  -- `*p`, a fault at `NULL` and at an address that holds no node.
  unfoldable pub load : Ptr → Cmd S (Node S)
  load p h = if p == null then fault else elim (h p) [ none ↦ fault | some n ↦ done (n, h) ]

  abbrev pub store : Ptr → Option (Node S) → Cmd S (Unit {0})
  store p c h = done (tt, write h p c)

  -- The assignment to a child of `n`, which is `*p`: `p->lchild = q` or `p->rchild = q`.
  abbrev pub with_child : Bool → Node S → Ptr → Node S
  with_child left n q = if left then record n { lchild = q } else record n { rchild = q }

  unfoldable pub set_child : Bool → Ptr → Ptr → Cmd S (Unit {0})
  unfolding load
  set_child left p q = do n ← load p; store p (some (with_child left n q))

  -- `node_destroy`: the node and its strings are given back.
  unfoldable pub node_destroy : Ptr → Cmd S (Unit {0})
  unfolding load
  node_destroy p = do n ← load p; store p none

  unfoldable pub node_create : Alloc → S → S → Ptr → Ptr → Cmd S Ptr
  node_create m name value left right =
      if m.node == null
      then pure null
      else if not m.name_ok
      then pure null
      else if not m.value_ok
      then pure null
      else do
        store m.node (some (record { name = name; value = value; lchild = left; rchild = right }))
        pure m.node

  -- The loop of `xremove` down the `lchild` chain, from `next` and `pnext`. The pointer `pnext`
  -- to a child field is the pair of its node and its side (`true` for `lchild`).
  unfoldable pub leftmost : ℕ → Ptr → Ptr × Bool → Cmd S (Ptr × Ptr × Bool)
  unfolding load
  leftmost zero next pnext = λ _. out_of_fuel
  leftmost (suc k) next pnext = do
    n ← load next
    if n.lchild == null then pure (next, pnext.0, pnext.1) else leftmost k n.lchild (next, true)

module _ {S : Type 0} ⦃o : StrOrder S⦄ where
  -- `search`: the node that holds `name`, or `null`, and its parent or the parent that it would have.
  unfoldable pub search : ℕ → S → Ptr → Cmd S (Ptr × Ptr)
  unfolding load
  search zero name parent = λ _. out_of_fuel
  search (suc k) name parent = do
    n ← load parent
    let next = if is_lt (o.strcmp name n.name) then n.lchild else n.rchild
    if next == null then pure (null, parent) else do
      m ← load next
      if is_eq (o.strcmp name m.name) then pure (next, parent) else search k name next

  -- `query`: the value of the target; `none` stands for the text "not found".
  unfoldable pub query : ℕ → Ptr → S → Cmd S (Option S)
  unfolding search
  query k head name = do
    found ← search k name head
    if found.0 == null then pure none else do n ← load found.0; pure (some n.value)

  unfoldable pub add : ℕ → Ptr → Alloc → S → S → Cmd S Bool
  unfolding search node_create set_child
  add k head m name value = do
    found ← search k name head
    if not (found.0 == null) then pure false else if found.1 == null then pure false else do
      new ← node_create m name value null null
      p ← load found.1
      set_child (is_lt (o.strcmp name p.name)) found.1 new
      pure true

  -- The case of two children: the contents of `dnode` and of the leftmost node of its right subtree
  -- are swapped, and that node is unlinked and destroyed.
  unfoldable pub remove_two : ℕ → Ptr → Node S → Cmd S (Unit {0})
  unfolding leftmost set_child node_destroy
  remove_two k dnode d = do
    (next, p, side) ← leftmost k d.rchild (dnode, false)
    n ← load next
    d' ← load dnode
    store dnode (some (record d' { name = n.name; value = n.value }))
    store next (some (record n { name = d'.name; value = d'.value }))
    n' ← load next
    set_child side p n'.rchild
    node_destroy next

  unfoldable pub xremove : ℕ → Ptr → S → Cmd S Bool
  unfolding search remove_two set_child node_destroy
  xremove k head name = do
    found ← search k name head
    if found.0 == null then pure false else do
      d ← load found.0
      p ← load found.1
      let side = is_lt (o.strcmp d.name p.name)
      if d.rchild == null
          then (do set_child side found.1 d.lchild; node_destroy found.0; pure true)
          else if d.lchild == null
          then (do set_child side found.1 d.rchild; node_destroy found.0; pure true)
          else (do remove_two k found.0 d; pure true)
