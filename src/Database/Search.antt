-- ===== src/Database/Search.antt =====
-- `search` and `query` of cs402/db_coarse.c on a heap that holds a tree.
use usc_homeworks.Base.{
  ℕ, zero, suc, ◌≤◌, ◌<◌, ◌≡◌, false, ◌==◌, if◌then◌else◌, refl, arith, ==_iff, done, Bool-cases,
  inl, inr,
}
use usc_homeworks.Database.{StrOrder, Ptr, null, Heap, load, is_lt, is_eq, search, pure, ◌>>=◌, Cmd}
use usc_homeworks.Database.Tree.{Tree, leaf, node, addr, size, stops, target, parent}
use usc_homeworks.Database.Rep.{Rep, load-some}

module _ {S : Type 0} ⦃o : StrOrder S⦄ where
  -- The part of `search` below the choice of the child `next` of the node at `a`.
  abbrev descend : ℕ → S → Ptr → Ptr → Cmd S (Ptr × Ptr)
  descend k q a next =
      if next == null
      then pure (null, a)
      else do m ← load next; if is_eq (o.strcmp q m.name) then pure (next, a) else search k q next

  abbrev IsFound : ℕ → S → Heap S → Tree S → Type 0
  IsFound k q h t = search k q (addr t) h ≡ done ((addr (target q t), parent q t), h)

  descend-stops :
      (k : ℕ) (q : S) (h : Heap S) (a : Ptr) (c : Tree S)
      → Rep h c
      → (stops q c ≡ false → IsFound k q h c)
      → descend k q a (addr c) h
        ≡ done
            ((addr (if stops q c then c else target q c), if stops q c then a else parent q c), h)
  descend-stops k q h a leaf rep ih = refl
  descend-stops k q h a (node b l x v r) rep ih = elim (Bool-cases (b == null)) [
    | inl e ↦ absurd (rep.0 ((==_iff b null).0 e))
    | inr e ↦
        rw (e, load-some h b rep.0 rep.1)
          (elim (Bool-cases (is_eq (o.strcmp q x))) [ inl s ↦ rw s | inr s ↦ rw s (ih s) ])
  ]

  size-pos : (q : S) (t : Tree S) → stops q t ≡ false → 0 < size t
  size-pos q leaf h = cc
  size-pos q (node a l k v r) h = omega arith

  -- On a heap that holds the tree, `search` with enough fuel returns the target and its parent,
  -- and leaves the heap alone.
  pub search-target :
      (k : ℕ) (q : S) (h : Heap S) (t : Tree S)
      → Rep h t
      → 0 < size t
      → size t ≤ k
      → IsFound k q h t
  unfolding search target parent
  search-target k q h leaf rep z f = elim z [ ]
  search-target zero q h (node a l x v r) rep z f = absurd (omega arith)
  search-target (suc k) q h (node a l x v r) rep z f =
      rw (load-some h a rep.0 rep.1) (elim (Bool-cases (is_lt (o.strcmp q x))) [
        | inl s ↦ rw s (
            descend-stops k q h a l rep.2
              λ n. search-target k q h l rep.2 (size-pos q l n) (omega arith))
        | inr s ↦ rw s (
            descend-stops k q h a r rep.3
              λ n. search-target k q h r rep.3 (size-pos q r n) (omega arith))
      ])
