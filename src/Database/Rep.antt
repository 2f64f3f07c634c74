-- ===== src/Database/Rep.antt =====
-- When a heap holds a tree, and what a write elsewhere leaves of it (cs402/db_coarse.c).
use usc_homeworks.Base.{
  ◌≡◌, ◌≢◌, Bool, true, false, Option, none, some, ◌==◌, refl, arith, ==_iff, ==_ne, done,
  Bool-cases, inl, inr, ◌⊎◌,
}
use usc_homeworks.Database.{Ptr, null, Node, Heap, write, load, set_child, node_destroy, with_child}
use usc_homeworks.Database.Tree.{Tree, leaf, node, addr, has}

module _ {S : Type 0} where
  -- The nodes of the tree stand in the heap at their addresses, with pointers to their children.
  abbrev pub Rep : Heap S → Tree S → Type 0
  Rep h leaf = Unit
  Rep h (node a l k v r) =
      (a ≢ null)
      × (h a ≡ some (record { name = k; value = v; lchild = addr l; rchild = addr r }))
      × Rep h l
      × Rep h r

  abbrev pub Disjoint : Tree S → Tree S → Type 0
  Disjoint s t = (q : Ptr) → has q s ≡ true → has q t ≡ false

  -- No address occurs twice in the tree.
  abbrev pub Distinct : Tree S → Type 0
  Distinct leaf = Unit
  Distinct (node a l k v r) =
      (has a l ≡ false) × (has a r ≡ false) × Disjoint l r × Distinct l × Distinct r

  pub load-some :
      (h : Heap S) (p : Ptr) {n : Node S} → p ≢ null → h p ≡ some n → load p h ≡ done (n, h)
  unfolding load
  load-some h p ne e = ground arith

  -- A tree survives any change of the heap that spares its own addresses.
  pub frame :
      {h g : Heap S} (t : Tree S) → Rep h t → ((q : Ptr) → has q t ≡ true → g q ≡ h q) → Rep g t
  frame leaf r same = tt
  frame (node a l k v r) rep same = (
    rep.0,
    ground (arith, same a),
    frame l rep.2 (λ q m. same q (ground arith)),
    frame r rep.3 (λ q m. same q (ground arith)),
  )

  pub has_cases :
      (q a : Ptr) (k v : S) (l r : Tree S)
      → has q (node a l k v r) ≡ true
      → (q ≡ a) ⊎ ((has q l ≡ true) ⊎ (has q r ≡ true))
  has_cases q a k v l r h = elim (Bool-cases (q == a)) [
    | inl e ↦ inl ((==_iff q a).0 e)
    | inr n ↦ elim (Bool-cases (has q l)) [
      | inl i ↦ inr (inl i)
      | inr j ↦ inr (inr (rw (n, j) at h))
    ]
  ]

  pub not-has_parts :
      (q a : Ptr) (k v : S) (l r : Tree S)
      → has q (node a l k v r) ≡ false
      → (q ≢ a) × (has q l ≡ false) × (has q r ≡ false)
  not-has_parts q a k v l r h = ground arith

  pub has-left :
      (q a : Ptr) (k v : S) (l r : Tree S) → has q l ≡ true → has q (node a l k v r) ≡ true
  has-left q a k v l r h = ground arith

  pub has-right :
      (q a : Ptr) (k v : S) (l r : Tree S) → has q r ≡ true → has q (node a l k v r) ≡ true
  has-right q a k v l r h = ground arith

  pub addr-null : (h : Heap S) (t : Tree S) → Rep h t → addr t ≡ null → t ≡ leaf
  addr-null h leaf r e = refl
  addr-null h (node a l k v r) rep e = absurd (rep.0 e)

  pub has-addr : (t : Tree S) → addr t ≢ null → has (addr t) t ≡ true
  has-addr leaf ne = absurd (ne refl)
  has-addr (node a l k v r) ne = ground arith

  pub Rep-not_null : (h : Heap S) (t : Tree S) (q : Ptr) → Rep h t → has q t ≡ true → q ≢ null
  Rep-not_null h leaf q rep m = cc
  Rep-not_null h (node a l k v r) q rep m = elim (has_cases q a k v l r m) [
    | inl e ↦ rw e rep.0
    | inr (inl i) ↦ Rep-not_null h l q rep.2 i
    | inr (inr i) ↦ Rep-not_null h r q rep.3 i
  ]

  -- Trees with no address in common have different ones.
  pub ne_of_has : (p q : Ptr) (t : Tree S) → has p t ≡ true → has q t ≡ false → p ≢ q
  ne_of_has p q t m n e = cc

  pub set_child-ok :
      (left : Bool) (h : Heap S) (p q : Ptr) {n : Node S}
      → p ≢ null
      → h p ≡ some n
      → set_child left p q h ≡ done (tt, write h p (some (with_child left n q)))
  unfolding set_child
  set_child-ok left h p q ne e = rw (load-some h p ne e)

  pub node_destroy-ok :
      (h : Heap S) (p : Ptr) {n : Node S}
      → p ≢ null
      → h p ≡ some n
      → node_destroy p h ≡ done (tt, write h p none)
  unfolding node_destroy
  node_destroy-ok h p ne e = rw (load-some h p ne e)

  pub write_self : (h : Heap S) (p : Ptr) (c : Option (Node S)) → write h p c p ≡ c
  write_self h p c = ground arith

  pub write_ne : (h : Heap S) (p x : Ptr) (c : Option (Node S)) → x ≢ p → write h p c x ≡ h x
  write_ne h p x c ne = ground arith

  pub not-has_node :
      (x a : Ptr) (k v : S) (l r : Tree S)
      → x ≢ a
      → has x l ≡ false
      → has x r ≡ false
      → has x (node a l k v r) ≡ false
  not-has_node x a k v l r ne hl hr = rw (==_ne x a ne, hl, hr)

  pub ne_of_not : (p q : Ptr) (t : Tree S) → has p t ≡ false → has q t ≡ true → p ≢ q
  ne_of_not p q t n m e = cc
