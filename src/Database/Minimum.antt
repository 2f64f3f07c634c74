-- ===== src/Database/Minimum.antt =====
-- The leftmost node of a tree, as the loop of `xremove` in cs402/db_coarse.c finds and unlinks it.
use usc_homeworks.Base.{
  ℕ, zero, suc, ◌-◌, ◌≤◌, ◌<◌, ◌≡◌, ◌≢◌, Bool, true, false, some, refl, arith, ==_ne, subst, done,
  sym, ◌∙◌, inl, inr,
}
use usc_homeworks.Database.{Ptr, null, Node, Heap, leftmost}
use usc_homeworks.Database.Tree.{Tree, leaf, node, addr, has, size, pop_min, collapse}
use usc_homeworks.Database.Rep.{
  Rep, Distinct, Disjoint, frame, has_cases, has-left, has-right, ne_of_has, load-some,
}
use usc_homeworks.Database.Focus.{false_of, Disjoint-sym}

module _ {S : Type 0} where
  pub has-pop_min_rest :
      (x a : Ptr) (l : Tree S) (k v : S) (r : Tree S)
      → has x (pop_min a l k v r).3 ≡ true
      → has x (node a l k v r) ≡ true
  unfolding pop_min
  has-pop_min_rest x a leaf k v r h = has-right x a k v leaf r h
  has-pop_min_rest x a (node la ll lk lv lr) k v r h =
      elim (has_cases x a k v (pop_min la ll lk lv lr).3 r h) [
        | inl e ↦ ground arith
        | inr (inl i) ↦
            has-left x a k v (node la ll lk lv lr) r (has-pop_min_rest x la ll lk lv lr i)
        | inr (inr i) ↦ has-right x a k v (node la ll lk lv lr) r i
      ]

  has-pop_min :
      (a : Ptr) (l : Tree S) (k v : S) (r : Tree S)
      → has (pop_min a l k v r).0 (node a l k v r) ≡ true
  unfolding pop_min
  has-pop_min a leaf k v r = ground arith
  has-pop_min a (node la ll lk lv lr) k v r =
      has-left _ a k v (node la ll lk lv lr) r (has-pop_min la ll lk lv lr)

  pub Distinct-pop_min :
      (a : Ptr) (l : Tree S) (k v : S) (r : Tree S)
      → Distinct (node a l k v r)
      → Distinct (pop_min a l k v r).3 × (has (pop_min a l k v r).0 (pop_min a l k v r).3 ≡ false)
  unfolding pop_min
  Distinct-pop_min a leaf k v r d = (d.4, d.1)
  Distinct-pop_min a (node la ll lk lv lr) k v r d =
      let left : Tree S = node la ll lk lv lr in
      let rest : Tree S = (pop_min la ll lk lv lr).3 in
      let m : Ptr = (pop_min la ll lk lv lr).0 in
      let inner = Distinct-pop_min la ll lk lv lr d.3 in
      let apart : Disjoint rest r = λ x i. d.2 x (has-pop_min_rest x la ll lk lv lr i) in
      let out : has a rest ≡ false =
        false_of (has a rest) λ i. cc (has-pop_min_rest a la ll lk lv lr i, d.0) in
      (
        (out, d.1, apart, inner.0, d.4),
        false_of (has m (node a rest k v r)) λ i. elim (has_cases m a k v rest r i) [
          | inl e ↦ ne_of_has m a left (has-pop_min la ll lk lv lr) d.0 e
          | inr (inl j) ↦ cc (inner.1)
          | inr (inr j) ↦ cc (d.2 m (has-pop_min la ll lk lv lr))
        ],
      )

  -- Removing the root leaves no address but those that were there, and none twice.
  pub has-collapse : (x : Ptr) (t : Tree S) → has x (collapse t) ≡ true → has x t ≡ true
  unfolding collapse
  has-collapse x leaf h = h
  has-collapse x (node a l k v leaf) h = has-left x a k v l leaf h
  has-collapse x (node a leaf k v (node ra rl rk rv rr)) h =
      has-right x a k v leaf (node ra rl rk rv rr) h
  has-collapse x (node a (node la ll lk lv lr) k v (node ra rl rk rv rr)) h =
      elim (has_cases x a k v (node la ll lk lv lr) (pop_min ra rl rk rv rr).3 h) [
        | inl e ↦ ground arith
        | inr (inl i) ↦ has-left x a k v (node la ll lk lv lr) (node ra rl rk rv rr) i
        | inr (inr i) ↦
            has-right x a k v (node la ll lk lv lr) (node ra rl rk rv rr)
              (has-pop_min_rest x ra rl rk rv rr i)
      ]

  pub Distinct-collapse : (t : Tree S) → Distinct t → Distinct (collapse t)
  unfolding collapse
  Distinct-collapse leaf d = tt
  Distinct-collapse (node a l k v leaf) d = d.3
  Distinct-collapse (node a leaf k v (node ra rl rk rv rr)) d = d.4
  Distinct-collapse (node a (node la ll lk lv lr) k v (node ra rl rk rv rr)) d =
      let rest : Tree S = (pop_min ra rl rk rv rr).3 in
      (
        d.0,
        false_of (has a rest) λ i. cc (has-pop_min_rest a ra rl rk rv rr i, d.1),
        λ x i. false_of (has x rest) λ j. cc (has-pop_min_rest x ra rl rk rv rr j, d.2 x i),
        d.3,
        (Distinct-pop_min ra rl rk rv rr d.4).0,
      )

  -- In `h` the leftmost node of `t`, which is not the root, is at `least`, the left child of `above`
  -- and without a left child. The address that `pnext` starts with does not matter.
  pub record Least (h : Heap S) (t : Tree S) (least : Ptr) (m w : S) (rest : Tree S) : Type 0 where
    pub above : Ptr
    pub n : Node S
    pub right : Tree S
    pub run :
        (k : ℕ) (pnext : Ptr × Bool)
        → size t ≤ k
        → leftmost k (addr t) pnext h ≡ done ((least, above, true), h)
    pub above_holds : h above ≡ some n
    pub least_holds :
        h least ≡ some (record { name = m; value = w; lchild = null; rchild = addr right })
    pub above_in : has above t ≡ true
    pub least_in : has least t ≡ true
    pub apart : above ≢ least
    pub above_not_null : above ≢ null
    pub least_not_null : least ≢ null
    pub rest_addr : addr rest ≡ addr t
    pub plug :
        (g : Heap S)
        → g above ≡ some (record n { lchild = addr right })
        → ((x : Ptr) → has x t ≡ true → x ≢ above → x ≢ least → g x ≡ h x)
        → Rep g rest

  pub leftmost-stop :
      (k : ℕ) (h : Heap S) (a : Ptr) (pnext : Ptr × Bool) (n : Node S)
      → 0 < k
      → a ≢ null
      → h a ≡ some n
      → n.lchild ≡ null
      → leftmost k a pnext h ≡ done ((a, pnext.0, pnext.1), h)
  unfolding leftmost
  leftmost-stop zero h a pnext n f ne e l = elim f [ ]
  leftmost-stop (suc k) h a pnext n f ne e l = rw (load-some h a ne e, l)

  leftmost-step :
      (k : ℕ) (h : Heap S) (a : Ptr) (pnext : Ptr × Bool) (n : Node S)
      → a ≢ null
      → h a ≡ some n
      → n.lchild ≢ null
      → leftmost (suc k) a pnext h ≡ leftmost k n.lchild (a, true) h
  unfolding leftmost
  leftmost-step k h a pnext n ne e l = rw (load-some h a ne e, ==_ne n.lchild null l)

  least_run :
      (k : ℕ) (h : Heap S) (a : Ptr) (pnext : Ptr × Bool) (n : Node S) {r : Ptr × Ptr × Bool}
      → a ≢ null
      → h a ≡ some n
      → n.lchild ≢ null
      → 0 < k
      → (0 < k → leftmost (k - 1) n.lchild (a, true) h ≡ done (r, h))
      → leftmost k a pnext h ≡ done (r, h)
  least_run zero h a pnext n ne e l f below = elim f [ ]
  least_run (suc k) h a pnext n {r} ne e l f below =
      leftmost-step k h a pnext n ne e l
      ∙ subst (λ j. leftmost j n.lchild (a, true) h ≡ done (r, h)) (omega arith) (below f)

  -- A node whose left child has no left child.
  Least-base :
      (h : Heap S) (a la : Ptr) (lk lv : S) (lr : Tree S) (k v : S) (r : Tree S)
      → Rep h (node a (node la leaf lk lv lr) k v r)
      → Distinct (node a (node la leaf lk lv lr) k v r)
      → Least h (node a (node la leaf lk lv lr) k v r) la lk lv (node a lr k v r)
  Least-base h a la lk lv lr k v r rep d =
      let left : Tree S = node la leaf lk lv lr in
      let n : Node S = record { name = k; value = v; lchild = la; rchild = addr r } in
      record {
        above = a;
        n = n;
        right = lr;
        run = λ k' pnext f.
            least_run k' h a pnext n rep.0 rep.1 rep.2.0 (omega arith)
              λ z. leftmost-stop (k' - 1) h la (a, true) _ (omega arith) rep.2.0 rep.2.1 refl;
        above_holds = rep.1;
        least_holds = rep.2.1;
        above_in = ground arith;
        least_in = ground arith;
        apart = ground arith;
        above_not_null = rep.0;
        least_not_null = rep.2.0;
        rest_addr = refl;
        plug = λ g e same. (
          rep.0,
          e,
          frame lr rep.2.3 λ x i.
              let i' : has x left ≡ true = has-right x la lk lv leaf lr i in
              same x (has-left x a k v left r i') (ne_of_has x a left i' d.0)
                (ne_of_has x la lr i d.3.1),
          frame r rep.3 λ x i.
              same x (has-right x a k v left r i) (ne_of_has x a r i d.1)
                (λ e. ne_of_has la x left (ground arith) (Disjoint-sym left r d.2 x i) (sym e)),
        );
      }

  pub Least-of :
      (h : Heap S) (a la : Ptr) (ll : Tree S) (lk lv : S) (lr : Tree S) (k v : S) (r : Tree S)
      → Rep h (node a (node la ll lk lv lr) k v r)
      → Distinct (node a (node la ll lk lv lr) k v r)
      → let m = pop_min a (node la ll lk lv lr) k v r in
        Least h (node a (node la ll lk lv lr) k v r) m.0 m.1 m.2 m.3
  unfolding pop_min
  Least-of h a la leaf lk lv lr k v r rep d = Least-base h a la lk lv lr k v r rep d
  Least-of h a la (node ba bl bk bv br) lk lv lr k v r rep d =
      let left : Tree S = node la (node ba bl bk bv br) lk lv lr in
      let n : Node S = record { name = k; value = v; lchild = la; rchild = addr r } in
      let f = Least-of h la ba bl bk bv br lk lv lr rep.2 d.3 in
      record {
        above = f.above;
        n = f.n;
        right = f.right;
        run = λ k' pnext fuel.
            least_run k' h a pnext n rep.0 rep.1 rep.2.0 (omega arith)
              λ z. f.run (k' - 1) (a, true) (omega arith);
        above_holds = f.above_holds;
        least_holds = f.least_holds;
        above_in = has-left f.above a k v left r f.above_in;
        least_in = has-left _ a k v left r f.least_in;
        apart = f.apart;
        above_not_null = f.above_not_null;
        least_not_null = f.least_not_null;
        rest_addr = refl;
        plug = λ g e same. (
          rep.0,
          rw f.rest_addr (
              same a (ground arith) (λ e. ne_of_has f.above a left f.above_in d.0 (sym e))
                (λ e. ne_of_has _ a left f.least_in d.0 (sym e))
              ∙ rep.1),
          f.plug g e (λ x i. same x (has-left x a k v left r i)),
          frame r rep.3 λ x i.
              let out : has x left ≡ false = Disjoint-sym left r d.2 x i in
              same x (has-right x a k v left r i)
                (λ e. ne_of_has f.above x left f.above_in out (sym e))
                (λ e. ne_of_has _ x left f.least_in out (sym e)),
        );
      }
