-- ===== src/Database/Add.antt =====
-- `query` and `add` of cs402/db_coarse.c against the finite map.
use usc_homeworks.Base.{
  ℕ, ◌≤◌, ◌<◌, ◌≡◌, ◌≢◌, true, false, Option, none, some, ◌==◌, if◌then◌else◌, refl, arith, done,
  ==_ne, sym, ◌∙◌, ◌⊎◌,
}
use usc_homeworks.Database.{
  StrOrder, Ptr, null, Node, Heap, Alloc, write, load, with_child, node_create, is_lt, query, add,
  pure, ◌>>=◌,
}
use usc_homeworks.Database.Tree.{
  Tree, leaf, node, addr, has, size, IsOrdered, target, parent, replace, find, insert,
}
use usc_homeworks.Database.Rep.{
  Rep, Distinct, load-some, set_child-ok, write_self, write_ne, ne_of_has,
}
use usc_homeworks.Database.Search.{search-target}
use usc_homeworks.Database.Focus.{target-Focus}
use usc_homeworks.Database.Laws.{IsNotRoot, root_value, find-target, insert-IsOrdered}

module _ {S : Type 0} ⦃o : StrOrder S⦄ where
  -- The heap `h` holds at `head` the ordered tree `t`, whose root is the sentinel.
  pub record IsDb (h : Heap S) (head : Ptr) (t : Tree S) : Type 0 where
    pub rep : Rep h t
    pub distinct : Distinct t
    pub ordered : IsOrdered t
    pub root : addr t ≡ head
    pub nonempty : 0 < size t

  -- The `malloc` calls succeed, with an address that the tree does not use.
  pub record IsFresh (m : Alloc) (t : Tree S) : Type 0 where
    pub node_ok : m.node ≢ null
    pub new : has m.node t ≡ false
    pub name_ok : m.name_ok ≡ true
    pub value_ok : m.value_ok ≡ true

  pub target-leaf : (q : S) (t : Tree S) → find q t ≡ none → target q t ≡ leaf
  target-leaf q t e = go (target q t) (sym (find-target q t) ∙ e)
    where
      go : (s : Tree S) → root_value s ≡ none → s ≡ leaf
      go leaf e = refl
      go (node a l k v r) e = cc

  pub size-replace : (q : S) (s t : Tree S) → 0 < size t → 0 < size (replace q s t)
  unfolding replace
  size-replace q s leaf h = h
  size-replace q s (node a l k v r) h = ground arith

  pub root_value-addr :
      (h : Heap S) (v : S) (s : Tree S) → Rep h s → root_value s ≡ some v → (addr s == null) ≡ false
  root_value-addr h v leaf r e = cc
  root_value-addr h v (node a l x u r) rep e = ground arith

  load_target :
      (h : Heap S) (s : Tree S)
      → Rep h s
      → (if addr s == null then pure none else (load (addr s) >>= λ n. pure (some n.value))) h
        ≡ done (root_value s, h)
  load_target h leaf r = refl
  load_target h (node a l x v r) rep = rw (==_ne a null rep.0, load-some h a rep.0 rep.1)

  -- In a heap that holds an ordered tree, with fuel for its nodes, `query` returns the value that
  -- the tree has for the key, if any, and changes nothing.
  pub query-find :
      (k : ℕ) (q : S) (h : Heap S) (head : Ptr) (t : Tree S)
      → IsDb h head t
      → size t ≤ k
      → query k head q h ≡ done (find q t, h)
  unfolding query
  query-find k q h head t db f =
      rw (← db.root, search-target k q h t db.rep db.nonempty f, find-target q t)
        (load_target h (target q t) (target-Focus h q t db.rep db.distinct db.nonempty).target_rep)

  node_create-ok :
      (m : Alloc) (h : Heap S) (q w : S) (t : Tree S)
      → IsFresh m t
      → node_create m q w null null h
        ≡ done (
          m.node,
          write h m.node (some (record { name = q; value = w; lchild = null; rchild = null })),
        )
  unfolding node_create
  node_create-ok m h q w t f = rw (==_ne m.node null f.node_ok, f.name_ok, f.value_ok)

  node_create-null :
      (m : Alloc) (h : Heap S) (q w : S)
      → ((m.node ≡ null) ⊎ ((m.name_ok ≡ false) ⊎ (m.value_ok ≡ false)))
      → node_create m q w null null h ≡ done (null, h)
  unfolding node_create
  node_create-null m h q w failed = ground arith

  replace-leaf : (q : S) (t : Tree S) → target q t ≡ leaf → replace q leaf t ≡ t
  unfolding target replace
  replace-leaf q leaf e = refl
  replace-leaf q (node a l k v r) e = ground (arith, replace-leaf q l, replace-leaf q r)

  has_single : (x a : Ptr) (q w : S) → has x (node a leaf q w leaf) ≡ true → x ≡ a
  has_single x a q w e = ground arith

  module _ (k : ℕ) (q w : S) (m : Alloc) (h : Heap S) (head : Ptr) (t : Tree S) (db : IsDb h head t)
      (fuel : size t ≤ k) where
    -- In a heap that holds an ordered tree, with fuel for its nodes, `add` of a key that is there
    -- returns 0 and changes nothing.
    pub add-present : (v : S) → find q t ≡ some v → add k head m q w h ≡ done (false, h)
    unfolding add
    add-present v e =
        let found =
          root_value-addr h v (target q t)
            (target-Focus h q t db.rep db.distinct db.nonempty).target_rep
            (sym (find-target q t) ∙ e) in
        rw (← db.root, search-target k q h t db.rep db.nonempty fuel, found)

    -- The heap after `add`: the new node, and the pointer to it in its parent.
    abbrev linked : Node S → Heap S
    linked n =
        let new : Node S = record { name = q; value = w; lchild = null; rchild = null } in
        write (write h m.node (some new)) (parent q t)
          (some (with_child (is_lt (o.strcmp q n.name)) n m.node))

    add-linked :
        (n : Node S)
        → find q t ≡ none
        → IsFresh m t
        → parent q t ≢ null
        → parent q t ≢ m.node
        → h (parent q t) ≡ some n
        → add k head m q w h ≡ done (true, linked n)
    unfolding add
    add-linked n e fresh ne apart holds = rw (
      ← db.root,
      search-target k q h t db.rep db.nonempty fuel,
      target-leaf q t e,
      ==_ne (parent q t) null ne,
      node_create-ok m h q w t fresh,
      load-some _ (parent q t) ne (write_ne h m.node (parent q t) _ apart ∙ holds),
      set_child-ok _ _ (parent q t) m.node ne (write_ne h m.node (parent q t) _ apart ∙ holds),
    )

    -- In a heap that holds an ordered tree, with fuel for its nodes and memory for a new one, `add`
    -- of a key that is not there and is not the sentinel's returns 1 and leaves the tree with the
    -- new node, which is all that changes outside the tree.
    pub add-insert :
        find q t ≡ none
        → IsNotRoot q t
        → IsFresh m t
        → (g : Heap S) × (add k head m q w h ≡ done (true, g))
          × IsDb g head (insert m.node q w t)
          × ((x : Ptr) → x ≢ m.node → has x t ≡ false → g x ≡ h x)
    unfolding insert
    add-insert e notroot fresh =
        let f = target-Focus h q t db.rep db.distinct db.nonempty in
        let new : Node S = record { name = q; value = w; lchild = null; rchild = null } in
        let h1 : Heap S = write h m.node (some new) in
        let apart = ne_of_has (parent q t) m.node t f.parent_in fresh.new in
        (
          linked f.n,
          add-linked f.n e fresh f.parent_not_null apart f.holds,
          record {
            rep =
                f.plug (linked f.n) (node m.node leaf q w leaf) (write_self h1 (parent q t) _)
                  (
                    fresh.node_ok,
                    write_ne h1 (parent q t) m.node _ (λ i. apart (sym i))
                        ∙ write_self h m.node (some new),
                    tt,
                    tt,
                  )
                  λ x i ne j.
                    write_ne h1 (parent q t) x _ ne
                    ∙ write_ne h m.node x (some new) (ne_of_has x m.node t i fresh.new);
            distinct =
                f.put_distinct (node m.node leaf q w leaf) (refl, refl, λ x i. refl, tt, tt)
                  λ x i j. absurd (ne_of_has x m.node t j fresh.new (has_single x m.node q w i));
            ordered = insert-IsOrdered m.node q w t notroot db.ordered;
            root = f.put_addr (node m.node leaf q w leaf) ∙ db.root;
            nonempty = size-replace q _ t db.nonempty;
          },
          λ x ne i.
              write_ne h1 (parent q t) x _ (λ j. ne_of_has (parent q t) x t f.parent_in i (sym j))
              ∙ write_ne h m.node x (some new) ne,
        )

    add-null :
        (n : Node S)
        → find q t ≡ none
        → ((m.node ≡ null) ⊎ ((m.name_ok ≡ false) ⊎ (m.value_ok ≡ false)))
        → parent q t ≢ null
        → h (parent q t) ≡ some n
        → add k head m q w h
          ≡ done (true, write h (parent q t) (some (with_child (is_lt (o.strcmp q n.name)) n null)))
    unfolding add
    add-null n e failed ne holds = rw (
      ← db.root,
      search-target k q h t db.rep db.nonempty fuel,
      target-leaf q t e,
      ==_ne (parent q t) null ne,
      node_create-null m h q w failed,
      load-some h (parent q t) ne holds,
      set_child-ok _ h (parent q t) null ne holds,
    )

    -- In a heap that holds an ordered tree, with fuel for its nodes: when a `malloc` fails, `add`
    -- of a key that is not there still returns 1, and the tree stays as it was.
    pub add_no_memory :
        find q t ≡ none
        → ((m.node ≡ null) ⊎ ((m.name_ok ≡ false) ⊎ (m.value_ok ≡ false)))
        → (g : Heap S) × (add k head m q w h ≡ done (true, g)) × IsDb g head t
    add_no_memory e failed =
        let f = target-Focus h q t db.rep db.distinct db.nonempty in
        let c : Option (Node S) = some (with_child (is_lt (o.strcmp q f.n.name)) f.n null) in
        let plugged =
          f.plug (write h (parent q t) c) leaf (write_self h (parent q t) c) tt
            λ x i ne j. write_ne h (parent q t) x c ne in
        (
          write h (parent q t) c,
          add-null f.n e failed f.parent_not_null f.holds,
          record {
            rep = rw (replace-leaf q t (target-leaf q t e)) at plugged;
            distinct = db.distinct;
            ordered = db.ordered;
            root = db.root;
            nonempty = db.nonempty;
          },
        )
