-- ===== src/Database/Examples.antt =====
-- Runs of cs402/db_coarse.c with numbers for strings: the sentinel 0 at address 1, and below it the
-- keys 5, 3 and 8.
use usc_homeworks.Base.{
  ℕ, ◌≡◌, ◌≢◌, compare, true, false, Option, none, some, ◌==◌, if◌then◌else◌, arith, done, refl,
  inl, inr,
}
use Prim.Native.Nat.Ordering.{lt, eq, gt}
use usc_homeworks.Database.{StrOrder, Ptr, null, Node, Heap, Alloc, query, add, xremove}
use usc_homeworks.Database.Tree.{
  Tree, leaf, node, has, find, insert, remove, target, lookup, replace, collapse, join, pop_min,
}
use usc_homeworks.Database.Add.{IsDb, IsFresh, add-insert, add_no_memory}
use usc_homeworks.Database.Remove.{Removed, xremove-remove}
use usc_homeworks.Database.Client.{query_after_add, query_after_xremove}

compare_refl : (s : ℕ) → compare s s ≡ eq
compare_refl s = ground arith

eq_of_compare : (s t : ℕ) → compare s t ≡ eq → s ≡ t
eq_of_compare s t e = ground arith

compare-gt : (s t : ℕ) → compare s t ≡ lt → compare t s ≡ gt
compare-gt s t e = ground arith

compare-lt : (s t : ℕ) → compare s t ≡ gt → compare t s ≡ lt
compare-lt s t e = ground arith

compare_trans : (s t u : ℕ) → compare s t ≡ lt → compare t u ≡ lt → compare s u ≡ lt
compare_trans s t u e f = ground arith

instance abbrev numbers : StrOrder ℕ
numbers = record {
  strcmp = compare;
  strcmp_refl = compare_refl;
  eq_of_strcmp = eq_of_compare;
  gt_of_lt = compare-gt;
  lt_of_gt = compare-lt;
  lt_trans = compare_trans;
}

abbrev cell : ℕ → ℕ → Ptr → Ptr → Option (Node ℕ)
cell k v l r = some (record { name = k; value = v; lchild = l; rchild = r })

abbrev heap : Heap ℕ
heap a =
    if a == 1
    then cell 0 0 null 2
    else if a == 2
    then cell 5 50 3 4
    else if a == 3
    then cell 3 30 null null
    else if a == 4
    then cell 8 80 null null
    else none

abbrev tree : Tree ℕ
tree = node 1 leaf 0 0 (node 2 (node 3 leaf 3 30 leaf) 5 50 (node 4 leaf 8 80 leaf))

tree-IsDb : IsDb heap 1 tree
tree-IsDb = record {
  rep = (
    (λ e. cc),
    refl,
    tt,
    ((λ e. cc), refl, ((λ e. cc), refl, tt, tt), ((λ e. cc), refl, tt, tt)),
  );
  distinct = (
    refl,
    refl,
    (λ q i. cc),
    tt,
    (
      refl,
      refl,
      (λ q i. ground arith),
      (refl, refl, (λ q i. cc), tt, tt),
      (refl, refl, (λ q i. cc), tt, tt),
    ),
  );
  ordered = (
    tt,
    ((tt, refl, tt), refl, (tt, refl, tt)),
    tt,
    ((tt, refl, tt), (tt, refl, tt), (tt, tt, tt, tt), (tt, tt, tt, tt)),
  );
  root = refl;
  nonempty = omega arith;
}

abbrev memory : Alloc
memory = record { node = 9; name_ok = true; value_ok = true }

memory-IsFresh : IsFresh memory tree
memory-IsFresh = record { node_ok = λ e. cc; new = refl; name_ok = refl; value_ok = refl }

add-insert_example :
    (g : Heap ℕ) × (add 4 1 memory 6 60 heap ≡ done (true, g))
    × IsDb g 1 (insert 9 6 60 tree)
    × ((x : Ptr) → x ≢ 9 → has x tree ≡ false → g x ≡ heap x)
add-insert_example =
    add-insert 4 6 60 memory heap 1 tree tree-IsDb (omega arith) (unfold find lookup in refl) refl
      memory-IsFresh

add_no_memory_example :
    (g : Heap ℕ) × (add 4 1 (record memory { name_ok = false }) 6 60 heap ≡ done (true, g))
    × IsDb g 1 tree
add_no_memory_example =
    add_no_memory 4 6 60 (record memory { name_ok = false }) heap 1 tree tree-IsDb (omega arith)
      (unfold find lookup in refl) (inr (inl refl))

-- The node of 5 has two children.
xremove-remove_example :
    (g : Heap ℕ) × (xremove 4 1 5 heap ≡ done (true, g)) × Removed heap 1 5 tree g
xremove-remove_example =
    xremove-remove 4 5 heap 1 tree tree-IsDb (omega arith) 50 refl (unfold find lookup in refl)

query_after_add_example :
    (g : Heap ℕ) × (add 4 1 memory 6 60 heap ≡ done (true, g)) × (query 5 1 6 g ≡ done (some 60, g))
query_after_add_example =
    query_after_add 4 6 heap 1 tree tree-IsDb (omega arith) refl 60 memory 5 6
      (unfold find lookup in refl) memory-IsFresh (unfold insert replace in omega arith)

query_after_xremove_example :
    (g : Heap ℕ) × (xremove 4 1 5 heap ≡ done (true, g)) × (query 4 1 8 g ≡ done (some 80, g))
unfolding find lookup
query_after_xremove_example =
    query_after_xremove 4 5 heap 1 tree tree-IsDb (omega arith) refl 50 4 8
      (unfold find lookup in refl)
      (unfold remove replace target collapse join pop_min in omega arith)
