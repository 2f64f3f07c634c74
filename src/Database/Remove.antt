-- ===== src/Database/Remove.antt =====
-- `xremove` of cs402/db_coarse.c against the finite map.
use usc_homeworks.Base.{
  ℕ, ◌≤◌, ◌≡◌, ◌≢◌, true, false, none, some, ◌==◌, refl, arith, done, sym, ◌∙◌, inl, inr, subst,
}
use usc_homeworks.Database.{StrOrder, Ptr, null, Node, Heap, with_child, is_lt, is_eq, xremove}
use usc_homeworks.Database.Tree.{
  Tree, leaf, node, addr, has, size, stops, target, parent, replace, find, remove, collapse,
  pop_min,
}
use usc_homeworks.Database.Rep.{Rep, Distinct, ne_of_not}
use usc_homeworks.Database.Search.{search-target}
use usc_homeworks.Database.Focus.{Focus, target-Focus, false_of}
use usc_homeworks.Database.Minimum.{
  has-collapse, Distinct-collapse, has-pop_min_rest, Distinct-pop_min, Least-of,
}
use usc_homeworks.Database.Laws.{IsNotRoot, root_value, find-target, remove-IsOrdered}
use usc_homeworks.Database.Splice.{Unlinked, unlink, unlink_right_null, unlink_left_null}
use usc_homeworks.Database.Swap.{unlink_right_child, unlink-Least}
use usc_homeworks.Database.Add.{IsDb, size-replace, target-leaf, root_value-addr}
use native.Mathlib.Nat.{le_trans}
use Prim.Native.Nat.Ordering.{eq}
use usc_homeworks.Base.{Ordering}

is_eq-eq : (c : Ordering) → is_eq c ≡ true → c ≡ eq
is_eq-eq c e = ground arith

module _ {S : Type 0} ⦃o : StrOrder S⦄ where
  unlink-collapse :
      (k : ℕ) (h : Heap S) (p : Ptr) (n : Node S)
      → p ≢ null
      → h p ≡ some n
      → (a : Ptr) (l : Tree S) (x v : S) (r : Tree S) → Rep h (node a l x v r)
      → Distinct (node a l x v r)
      → has p (node a l x v r) ≡ false
      → size (node a l x v r) ≤ k
      → with_child (is_lt (o.strcmp x n.name)) n a ≡ n
      → (g : Heap S) × (unlink k p a h ≡ done (true, g))
        × Unlinked h (is_lt (o.strcmp x n.name)) p n (node a l x v r) (collapse (node a l x v r)) g
  unfolding collapse
  unlink-collapse k h p n ne e a l x v leaf rep d out f c =
      unlink_right_null k h p n ne e a l x v rep d out
  unlink-collapse k h p n ne e a leaf x v (node ra rl rk rv rr) rep d out f c =
      unlink_left_null k h p n ne e a x v ra rl rk rv rr rep d out
  unlink-collapse k h p n ne e a (node la ll lk lv lr) x v (node ra leaf rk rv rr) rep d out f c =
      unfold pop_min in
      unlink_right_child k h p n ne e (is_lt (o.strcmp x n.name)) a la ll lk lv lr x v ra rk rv rr
        rep d out (omega arith) c
  unlink-collapse k h p n ne e a (node la ll lk lv lr) x v (node ra (node ba bl bk bv br) rk rv rr)
        rep d out f c =
      let inner : Tree S = node ba bl bk bv br in
      let m = pop_min ra inner rk rv rr in
      unlink-Least k h p n ne e (is_lt (o.strcmp x n.name)) a la ll lk lv lr x v
        (node ra inner rk rv rr) m.0 m.1 m.2 m.3 rep d out (omega arith) c rep.3.0
        (Least-of h ra ba bl bk bv br rk rv rr rep.3 d.4) (Distinct-pop_min ra inner rk rv rr d.4).1
        λ y i. has-pop_min_rest y ra inner rk rv rr i

  stops-target : (q : S) (t : Tree S) → stops q (target q t) ≡ true
  unfolding target
  stops-target q leaf = refl
  stops-target q (node a l k v r) = ground (arith, stops-target q l, stops-target q r)

  size-target : (q : S) (t : Tree S) → size (target q t) ≤ size t
  unfolding target
  size-target q leaf = omega arith
  size-target q (node a l k v r) = ground (arith, size-target q l, size-target q r)

  -- The outcome of `xremove` of a key that is there: the heap holds the tree without the key, one
  -- node of the tree was given back, and nothing outside of the tree changed.
  pub record Removed (h : Heap S) (head : Ptr) (q : S) (t : Tree S) (g : Heap S) : Type 0 where
    pub db : IsDb g head (remove q t)
    pub freed : Ptr
    pub freed_in : has freed t ≡ true
    pub freed_out : has freed (remove q t) ≡ false
    pub is_freed : g freed ≡ none
    pub same : (x : Ptr) → has x t ≡ false → g x ≡ h x

  module _ (k : ℕ) (q : S) (h : Heap S) (head : Ptr) (t : Tree S) (db : IsDb h head t)
      (fuel : size t ≤ k) where
    -- In a heap that holds an ordered tree, with fuel for its nodes, `xremove` of a key that is not
    -- there returns 0 and changes nothing.
    pub xremove-absent : find q t ≡ none → xremove k head q h ≡ done (false, h)
    unfolding xremove
    xremove-absent e =
        rw (← db.root, search-target k q h t db.rep db.nonempty fuel, target-leaf q t e)

    xremove-unlink :
        (g : Heap S)
        → (addr (target q t) == null) ≡ false
        → unlink k (parent q t) (addr (target q t)) h ≡ done (true, g)
        → xremove k head q h ≡ done (true, g)
    unfolding xremove
    xremove-unlink g ne run = rw (← db.root, search-target k q h t db.rep db.nonempty fuel, ne) run

    relink :
        (f : Focus h q t (parent q t) (target q t) (λ s'. replace q s' t))
        → IsNotRoot q t
        → (g : Heap S)
        → Unlinked h
            (is_lt (o.strcmp q f.n.name))
            (parent q t)
            f.n
            (target q t)
            (collapse (target q t))
            g
        → Removed h head q t g
    unfolding remove
    relink f ne g u =
        let s' : Tree S = collapse (target q t) in
        let kept : (x : Ptr) → has x s' ≡ true → has x (target q t) ≡ true =
          λ x i. has-collapse x (target q t) i in
        record {
          db = record {
            rep = f.plug g s' u.link u.rep λ x i j out. u.same x j out;
            distinct =
                f.put_distinct s' (Distinct-collapse (target q t) f.target_distinct)
                  λ x i j. kept x i;
            ordered = remove-IsOrdered q t ne db.ordered;
            root = f.put_addr s' ∙ db.root;
            nonempty = size-replace q s' t db.nonempty;
          };
          freed = u.freed;
          freed_in = f.sub u.freed u.freed_in;
          freed_out = false_of _ λ i. elim (f.put_sub s' u.freed i) [
            | inl both ↦ cc (both.1, u.freed_in)
            | inr new ↦ cc (u.freed_out)
          ];
          is_freed = u.is_freed;
          same = λ x i.
              u.same x (ne_of_not x (parent q t) t i f.parent_in)
                (false_of (has x (target q t)) λ j. cc (f.sub x j));
        }

    unlink-target :
        (f : Focus h q t (parent q t) (target q t) (λ s'. replace q s' t))
        → (s : Tree S) → target q t ≡ s
        → (v : S) → root_value s ≡ some v
        → (g : Heap S) × (unlink k (parent q t) (addr s) h ≡ done (true, g))
          × Unlinked h (is_lt (o.strcmp q f.n.name)) (parent q t) f.n s (collapse s) g
    unlink-target f leaf e v r = cc
    unlink-target f (node a l x u r) e v rv =
        let key : q ≡ x =
          o.eq_of_strcmp q x (is_eq-eq (o.strcmp q x) (rw e at (stops-target q t))) in
        subst
          (λ y.
            (g : Heap S) × (unlink k (parent q t) a h ≡ done (true, g))
            × Unlinked h (is_lt (o.strcmp y f.n.name)) (parent q t) f.n (node a l x u r)
                (collapse (node a l x u r)) g)
          (sym key)
          (unlink-collapse k h (parent q t) f.n f.parent_not_null f.holds a l x u r
            (rw e at f.target_rep) (rw e at f.target_distinct) (rw e at f.parent_out)
            (le_trans (rw e at (size-target q t)) fuel)
            (subst (λ y. with_child (is_lt (o.strcmp y f.n.name)) f.n a ≡ f.n) key
              (rw e at f.child)))

    -- In a heap that holds an ordered tree, with fuel for its nodes, `xremove` of a key that is
    -- there and is not the sentinel's returns 1 and leaves the tree without the key: one node of
    -- the tree was freed, and nothing outside the tree changed.
    pub xremove-remove :
        (v : S)
        → IsNotRoot q t
        → find q t ≡ some v
        → (g : Heap S) × (xremove k head q h ≡ done (true, g)) × Removed h head q t g
    xremove-remove v ne e =
        let f = target-Focus h q t db.rep db.distinct db.nonempty in
        let found : root_value (target q t) ≡ some v = sym (find-target q t) ∙ e in
        let (g, run, u) = unlink-target f (target q t) refl v found in
        (
          g,
          xremove-unlink g (root_value-addr h v (target q t) f.target_rep found) run,
          relink f ne g u,
        )
