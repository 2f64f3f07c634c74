-- ===== src/Database/Focus.antt =====
-- The place that a search of cs402/db_coarse.c comes to, and the tree with another subtree there:
-- the one write to the parent's child field is all that links it in.
use usc_homeworks.Base.{
  ◌<◌, ◌≡◌, ◌≢◌, Bool, true, false, some, refl, arith, sym, ◌∙◌, Bool-cases, inl, inr, ◌⊎◌,
}
use usc_homeworks.Database.{StrOrder, Ptr, null, Node, Heap, is_lt, with_child}
use usc_homeworks.Database.Tree.{Tree, leaf, node, addr, has, size, stops, target, parent, replace}
use usc_homeworks.Database.Rep.{
  Rep, Distinct, Disjoint, frame, has_cases, has-left, has-right, ne_of_has,
}

pub false_of : (b : Bool) → (b ≡ true → ⊥) → b ≡ false
false_of true f = absurd (f refl)
false_of false f = refl

pub Disjoint-sym : {S : Type 0} (s t : Tree S) → Disjoint s t → Disjoint t s
Disjoint-sym s t d x m = false_of (has x s) λ i. cc (d x i)

module _ {S : Type 0} ⦃o : StrOrder S⦄ where
  -- In the heap `h`, the node at `p` of the tree `t` points to the subtree `s` on the side where a
  -- search for `q` goes on, and `put s'` is the tree with `s'` there.
  pub record Focus (h : Heap S) (q : S) (t : Tree S) (p : Ptr) (s : Tree S) (put : Tree S → Tree S)
      : Type 0 where
    pub n : Node S
    pub holds : h p ≡ some n
    pub child : with_child (is_lt (o.strcmp q n.name)) n (addr s) ≡ n
    pub parent_not_null : p ≢ null
    pub parent_in : has p t ≡ true
    pub parent_out : has p s ≡ false
    pub sub : (x : Ptr) → has x s ≡ true → has x t ≡ true
    pub target_rep : Rep h s
    pub target_distinct : Distinct s
    pub plug :
        (g : Heap S) (s' : Tree S)
        → g p ≡ some (with_child (is_lt (o.strcmp q n.name)) n (addr s'))
        → Rep g s'
        → ((x : Ptr) → has x t ≡ true → x ≢ p → has x s ≡ false → g x ≡ h x)
        → Rep g (put s')
    pub put_addr : (s' : Tree S) → addr (put s') ≡ addr t
    pub put_distinct :
        (s' : Tree S)
        → Distinct s'
        → ((x : Ptr) → has x s' ≡ true → has x t ≡ true → has x s ≡ true)
        → Distinct (put s')
    pub put_sub :
        (s' : Tree S) (x : Ptr)
        → has x (put s') ≡ true
        → ((has x t ≡ true) × (has x s ≡ false)) ⊎ (has x s' ≡ true)

  module _ (h : Heap S) (q : S) (a : Ptr) (l : Tree S) (k v : S) (r : Tree S)
      (rep : Rep h (node a l k v r)) (dis : Distinct (node a l k v r)) where
    left_base : is_lt (o.strcmp q k) ≡ true → Focus h q (node a l k v r) a l (λ s'. node a s' k v r)
    left_base side = record {
      n = record { name = k; value = v; lchild = addr l; rchild = addr r };
      holds = rep.1;
      child = rw side;
      parent_not_null = rep.0;
      parent_in = ground arith;
      parent_out = dis.0;
      sub = λ x m. has-left x a k v l r m;
      target_rep = rep.2;
      target_distinct = dis.3;
      plug = λ g s' e rs same. (
        rep.0,
        rw side at e,
        rs,
        frame r rep.3 λ x m.
            same x (has-right x a k v l r m) (ne_of_has x a r m dis.1) (Disjoint-sym l r dis.2 x m),
      );
      put_addr = λ s'. refl;
      put_distinct = λ s' ds new.
          let apart : Disjoint s' r = λ x i.
            false_of (has x r)
              λ j. cc (new x i (has-right x a k v l r j), Disjoint-sym l r dis.2 x j) in
          (false_of (has a s') (λ i. cc (new a i (ground arith), dis.0)), dis.1, apart, ds, dis.4);
      put_sub = λ s' x m. elim (has_cases x a k v s' r m) [
        | inl e ↦ inl (ground arith, rw e dis.0)
        | inr (inl i) ↦ inr i
        | inr (inr i) ↦ inl (has-right x a k v l r i, Disjoint-sym l r dis.2 x i)
      ];
    }

    right_base :
        is_lt (o.strcmp q k) ≡ false → Focus h q (node a l k v r) a r (λ s'. node a l k v s')
    right_base side = record {
      n = record { name = k; value = v; lchild = addr l; rchild = addr r };
      holds = rep.1;
      child = rw side;
      parent_not_null = rep.0;
      parent_in = ground arith;
      parent_out = dis.1;
      sub = λ x m. has-right x a k v l r m;
      target_rep = rep.3;
      target_distinct = dis.4;
      plug = λ g s' e rs same. (
        rep.0,
        rw side at e,
        frame l rep.2 λ x m. same x (has-left x a k v l r m) (ne_of_has x a l m dis.0) (dis.2 x m),
        rs,
      );
      put_addr = λ s'. refl;
      put_distinct = λ s' ds new.
          let apart : Disjoint s' l =
            λ x i. false_of (has x l) λ j. cc (new x i (has-left x a k v l r j), dis.2 x j) in
          (
            dis.0,
            false_of (has a s') (λ i. cc (new a i (ground arith), dis.1)),
            Disjoint-sym s' l apart,
            dis.3,
            ds,
          );
      put_sub = λ s' x m. elim (has_cases x a k v l s' m) [
        | inl e ↦ inl (ground arith, rw e dis.1)
        | inr (inl i) ↦ inl (has-left x a k v l r i, dis.2 x i)
        | inr (inr i) ↦ inr i
      ];
    }

    left_step :
        (p : Ptr) (s : Tree S) (put : Tree S → Tree S)
        → Focus h q l p s put
        → Focus h q (node a l k v r) p s (λ s'. node a (put s') k v r)
    left_step p s put f = record {
      n = f.n;
      holds = f.holds;
      child = f.child;
      parent_not_null = f.parent_not_null;
      parent_in = has-left p a k v l r f.parent_in;
      parent_out = f.parent_out;
      sub = λ x m. has-left x a k v l r (f.sub x m);
      target_rep = f.target_rep;
      target_distinct = f.target_distinct;
      plug = λ g s' e rs same. (
        rep.0,
        rw (f.put_addr s') (
            same a (ground arith) (λ e. ne_of_has p a l f.parent_in dis.0 (sym e))
              (false_of (has a s) λ i. cc (f.sub a i, dis.0))
            ∙ rep.1),
        f.plug g s' e rs (λ x m. same x (has-left x a k v l r m)),
        frame r rep.3 λ x m.
            same x (has-right x a k v l r m)
              (λ e. ne_of_has p x l f.parent_in (Disjoint-sym l r dis.2 x m) (sym e))
              (false_of (has x s) λ i. cc (f.sub x i, Disjoint-sym l r dis.2 x m)),
      );
      put_addr = λ s'. refl;
      put_distinct = λ s' ds new.
          let inner : Distinct (put s') =
            f.put_distinct s' ds λ x i j. new x i (has-left x a k v l r j) in
          let out : (x : Ptr)
              → has x (node a l k v r) ≡ true
              → has x l ≡ false
              → has x (put s') ≡ false =
            λ x i j. false_of (has x (put s')) λ m. elim (f.put_sub s' x m) [
              | inl both ↦ cc (both.0)
              | inr m' ↦ cc (f.sub x (new x m' i))
            ] in
          let apart : Disjoint r (put s') =
            λ x i. out x (has-right x a k v l r i) (Disjoint-sym l r dis.2 x i) in
          (out a (ground arith) dis.0, dis.1, Disjoint-sym r (put s') apart, inner, dis.4);
      put_sub = λ s' x m. elim (has_cases x a k v (put s') r m) [
        | inl e ↦ inl (ground arith, rw e (false_of (has a s) λ i. cc (f.sub a i, dis.0)))
        | inr (inl i) ↦ (elim (f.put_sub s' x i) [
          | inl both ↦ inl (has-left x a k v l r both.0, both.1)
          | inr new ↦ inr new
        ])
        | inr (inr i) ↦ inl (
          has-right x a k v l r i,
          false_of (has x s) λ j. cc (f.sub x j, Disjoint-sym l r dis.2 x i),
        )
      ];
    }

    right_step :
        (p : Ptr) (s : Tree S) (put : Tree S → Tree S)
        → Focus h q r p s put
        → Focus h q (node a l k v r) p s (λ s'. node a l k v (put s'))
    right_step p s put f = record {
      n = f.n;
      holds = f.holds;
      child = f.child;
      parent_not_null = f.parent_not_null;
      parent_in = has-right p a k v l r f.parent_in;
      parent_out = f.parent_out;
      sub = λ x m. has-right x a k v l r (f.sub x m);
      target_rep = f.target_rep;
      target_distinct = f.target_distinct;
      plug = λ g s' e rs same. (
        rep.0,
        rw (f.put_addr s') (
            same a (ground arith) (λ e. ne_of_has p a r f.parent_in dis.1 (sym e))
              (false_of (has a s) λ i. cc (f.sub a i, dis.1))
            ∙ rep.1),
        frame l rep.2 λ x m.
            same x (has-left x a k v l r m) (λ e. ne_of_has p x r f.parent_in (dis.2 x m) (sym e))
              (false_of (has x s) λ i. cc (f.sub x i, dis.2 x m)),
        f.plug g s' e rs (λ x m. same x (has-right x a k v l r m)),
      );
      put_addr = λ s'. refl;
      put_distinct = λ s' ds new.
          let inner : Distinct (put s') =
            f.put_distinct s' ds λ x i j. new x i (has-right x a k v l r j) in
          let out : (x : Ptr)
              → has x (node a l k v r) ≡ true
              → has x r ≡ false
              → has x (put s') ≡ false =
            λ x i j. false_of (has x (put s')) λ m. elim (f.put_sub s' x m) [
              | inl both ↦ cc (both.0)
              | inr m' ↦ cc (f.sub x (new x m' i))
            ] in
          let apart : Disjoint l (put s') = λ x i. out x (has-left x a k v l r i) (dis.2 x i) in
          (dis.0, out a (ground arith) dis.1, apart, dis.3, inner);
      put_sub = λ s' x m. elim (has_cases x a k v l (put s') m) [
        | inl e ↦ inl (ground arith, rw e (false_of (has a s) λ i. cc (f.sub a i, dis.1)))
        | inr (inl i) ↦
            inl (has-left x a k v l r i, false_of (has x s) λ j. cc (f.sub x j, dis.2 x i))
        | inr (inr i) ↦ (elim (f.put_sub s' x i) [
          | inl both ↦ inl (has-right x a k v l r both.0, both.1)
          | inr new ↦ inr new
        ])
      ];
    }

  child-Focus :
      (h : Heap S) (q : S) (c : Tree S)
      → stops q c ≡ false
      → (0 < size c → Focus h q c (parent q c) (target q c) (λ s'. replace q s' c))
      → Focus h q c (parent q c) (target q c) (λ s'. replace q s' c)
  child-Focus h q leaf e f = cc
  child-Focus h q (node a l k v r) e f = f (omega arith)

  -- The target of a search is such a place.
  pub target-Focus :
      (h : Heap S) (q : S) (t : Tree S)
      → Rep h t
      → Distinct t
      → 0 < size t
      → Focus h q t (parent q t) (target q t) (λ s'. replace q s' t)
  unfolding target parent replace
  target-Focus h q leaf rep dis z = elim z [ ]
  target-Focus h q (node a l k v r) rep dis z = elim (Bool-cases (is_lt (o.strcmp q k))) [
    | inl side ↦ rw side (elim (Bool-cases (stops q l)) [
      | inl e ↦ rw e (left_base h q a l k v r rep dis side)
      | inr e ↦ rw e (
          left_step h q a l k v r rep dis _ _ _
            (child-Focus h q l e (target-Focus h q l rep.2 dis.3)))
    ])
    | inr side ↦ rw side (elim (Bool-cases (stops q r)) [
      | inl e ↦ rw e (right_base h q a l k v r rep dis side)
      | inr e ↦ rw e (
          right_step h q a l k v r rep dis _ _ _
            (child-Focus h q r e (target-Focus h q r rep.3 dis.4)))
    ])
  ]
