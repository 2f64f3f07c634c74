-- ===== src/Database/Splice.antt =====
-- `xremove` of cs402/db_coarse.c where the node has at most one child.
use usc_homeworks.Base.{
  ℕ, ◌≡◌, ◌≢◌, Bool, true, false, Option, none, some, ◌==◌, if◌then◌else◌, arith, ==_ne, done, sym,
  ◌∙◌, Run,
}
use usc_homeworks.Database.{
  StrOrder, Ptr, null, Node, Heap, write, load, set_child, node_destroy, with_child, is_lt,
  remove_two, pure, ◌>>=◌, ◌>>◌,
}
use usc_homeworks.Database.Tree.{Tree, leaf, node, addr, has}
use usc_homeworks.Database.Rep.{
  Rep, Distinct, load-some, set_child-ok, node_destroy-ok, write_self, write_ne, frame, ne_of_has,
  has-left, has-right,
}

module _ {S : Type 0} ⦃o : StrOrder S⦄ where
  -- After the removal of the root of the subtree `s`, to which `n`, the node at `p`, points on the
  -- side `left`: the heap `g` holds what is left of it, `s'`, and the node at `freed` is gone.
  pub record Unlinked (h : Heap S) (left : Bool) (p : Ptr) (n : Node S) (s s' : Tree S) (g : Heap S)
      : Type 0 where
    pub freed : Ptr
    pub freed_in : has freed s ≡ true
    pub freed_out : has freed s' ≡ false
    pub is_freed : g freed ≡ none
    pub link : g p ≡ some (with_child left n (addr s'))
    pub rep : Rep g s'
    pub same : (x : Ptr) → x ≢ p → has x s ≡ false → g x ≡ h x

  -- What `xremove` does with the node at `d` once the search has found it below `p`.
  abbrev pub unlink : ℕ → Ptr → Ptr → Heap S → Run (Bool × Heap S)
  unlink k p d = do
    n ← load d
    up ← load p
    let side = is_lt (o.strcmp n.name up.name)
    if n.rchild == null
        then (do set_child side p n.lchild; node_destroy d; pure true)
        else if n.lchild == null
        then (do set_child side p n.rchild; node_destroy d; pure true)
        else (do remove_two k d n; pure true)

  module _ (k : ℕ) (h : Heap S) (p : Ptr) (n : Node S) (ne : p ≢ null) (holds : h p ≡ some n) where
    -- One child takes the place of the node at `a`.
    spliced :
        (a : Ptr) (l : Tree S) (x v : S) (r c : Tree S) (left : Bool)
        → has p (node a l x v r) ≡ false
        → Rep h c
        → has a c ≡ false
        → ((y : Ptr) → has y c ≡ true → has y (node a l x v r) ≡ true)
        → Unlinked h left p n
            (node a l x v r)
            c
            (write (write h p (some (with_child left n (addr c)))) a none)
    spliced a l x v r c left out rep gone sub =
        let w : Option (Node S) = some (with_child left n (addr c)) in
        let s : Tree S = node a l x v r in
        let apart : a ≢ p = ne_of_has a p s (ground arith) out in
        record {
          freed = a;
          freed_in = ground arith;
          freed_out = gone;
          is_freed = write_self (write h p w) a none;
          link = write_ne (write h p w) a p none (λ e. apart (sym e)) ∙ write_self h p w;
          rep = frame c rep λ y i.
              write_ne (write h p w) a y none (ne_of_has y a c i gone)
              ∙ write_ne h p y w (ne_of_has y p s (sub y i) out);
          same = λ y i j.
              write_ne (write h p w) a y none (λ e. ne_of_has a y s (ground arith) j (sym e))
              ∙ write_ne h p y w i;
        }

    -- The two stores of a splice.
    splice_run :
        (a : Ptr) (m : Node S) (left : Bool) (c : Ptr)
        → a ≢ null
        → a ≢ p
        → h a ≡ some m
        → (set_child left p c >>= λ _. node_destroy a >>= λ _. pure true) h
          ≡ done (true, write (write h p (some (with_child left n c))) a none)
    splice_run a m left c an apart e = rw (
      set_child-ok left h p c ne holds,
      node_destroy-ok (write h p (some (with_child left n c))) a an
          (write_ne h p a (some (with_child left n c)) apart ∙ e),
    )

    pub unlink_right_null :
        (a : Ptr) (l : Tree S) (x v : S)
        → Rep h (node a l x v leaf)
        → Distinct (node a l x v leaf)
        → has p (node a l x v leaf) ≡ false
        → (g : Heap S) × (unlink k p a h ≡ done (true, g))
          × Unlinked h (is_lt (o.strcmp x n.name)) p n (node a l x v leaf) l g
    unlink_right_null a l x v rep d out =
        let apart : a ≢ p = ne_of_has a p (node a l x v leaf) (ground arith) out in
        (
          _,
          rw (load-some h a rep.0 rep.1, load-some h p ne holds)
              (splice_run a _ _ (addr l) rep.0 apart rep.1),
          spliced a l x v leaf l (is_lt (o.strcmp x n.name)) out rep.2 d.0
              λ y i. has-left y a x v l leaf i,
        )

    pub unlink_left_null :
        (a : Ptr) (x v : S) (ra : Ptr) (rl : Tree S) (rk rv : S) (rr : Tree S)
        → Rep h (node a leaf x v (node ra rl rk rv rr))
        → Distinct (node a leaf x v (node ra rl rk rv rr))
        → has p (node a leaf x v (node ra rl rk rv rr)) ≡ false
        → (g : Heap S) × (unlink k p a h ≡ done (true, g))
          × Unlinked h
              (is_lt (o.strcmp x n.name))
              p
              n
              (node a leaf x v (node ra rl rk rv rr))
              (node ra rl rk rv rr)
              g
    unlink_left_null a x v ra rl rk rv rr rep d out =
        let r : Tree S = node ra rl rk rv rr in
        let apart : a ≢ p = ne_of_has a p (node a leaf x v r) (ground arith) out in
        (
          _,
          rw (load-some h a rep.0 rep.1, load-some h p ne holds, ==_ne ra null rep.3.0)
              (splice_run a _ _ ra rep.0 apart rep.1),
          spliced a leaf x v r r (is_lt (o.strcmp x n.name)) out rep.3 d.1
              λ y i. has-right y a x v leaf r i,
        )
