-- ===== src/Database/Client.antt =====
-- What a client of cs402/db_coarse.c sees: `query` after `add` and after `xremove`.
use usc_homeworks.Base.{
  ℕ, ◌≡◌, ◌≢◌, ◌≤◌, ◌<◌, true, none, some, if◌then◌else◌, arith, done, ap, ◌∙◌,
}
use usc_homeworks.Database.{StrOrder, is_eq, Ptr, Heap, Alloc, query, add, xremove}
use usc_homeworks.Database.Tree.{Tree, leaf, size, find, insert, remove}
use usc_homeworks.Database.Laws.{IsNotRoot}
use usc_homeworks.Database.Add.{IsDb, IsFresh, query-find, add-insert}
use usc_homeworks.Database.Remove.{xremove-remove}
use usc_homeworks.Database.Lookup.{find-insert, find-remove}

module _ {S : Type 0} ⦃o : StrOrder S⦄ (k : ℕ) (q : S) (h : Heap S) (head : Ptr) (t : Tree S)
    (db : IsDb h head t) (fuel : size t ≤ k) (apart : IsNotRoot q t) where
  ne_leaf : 0 < size t → t ≢ leaf
  ne_leaf f e = ground (arith, e)

  -- In a heap that holds an ordered tree below the sentinel, with fuel for its nodes, and for a key
  -- that is not the sentinel's: after `add` of a key that is not there, with memory for its node, a
  -- query for that key gives its value, and a query for any other key gives what it gave before.
  pub query_after_add :
      (w : S) (m : Alloc) (j : ℕ) (p : S)
      → find q t ≡ none
      → IsFresh m t
      → size (insert m.node q w t) ≤ j
      → (g : Heap S) × (add k head m q w h ≡ done (true, g))
        × (query j head p g ≡ done (if is_eq (o.strcmp p q) then some w else find p t, g))
  query_after_add w m j p e fresh enough =
      let (g, run, db', same) = add-insert k q w m h head t db fuel e apart fresh in
      (
        g,
        run,
        query-find j p g head (insert m.node q w t) db' enough
            ∙ ap (λ v. done (v, g)) (find-insert m.node q w p t e (ne_leaf db.nonempty)),
      )

  -- In a heap that holds an ordered tree below the sentinel, with fuel for its nodes, and for a key
  -- that is not the sentinel's: after `xremove` of a key that is there, a query for that key finds
  -- nothing, and a query for any other key gives what it gave before.
  pub query_after_xremove :
      (v : S) (j : ℕ) (p : S)
      → find q t ≡ some v
      → size (remove q t) ≤ j
      → (g : Heap S) × (xremove k head q h ≡ done (true, g))
        × (query j head p g ≡ done (if is_eq (o.strcmp p q) then none else find p t, g))
  query_after_xremove v j p e enough =
      let (g, run, r) = xremove-remove k q h head t db fuel v apart e in
      (
        g,
        run,
        query-find j p g head (remove q t) r.db enough
            ∙ ap (λ v. done (v, g)) (find-remove q p t db.ordered),
      )
