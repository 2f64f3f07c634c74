-- ===== src/Database/Swap.antt =====
-- `xremove` of cs402/db_coarse.c where the node has two children.
use usc_homeworks.Base.{
  ℕ, ◌≤◌, ◌<◌, ◌≡◌, ◌≢◌, Bool, true, false, Option, none, some, refl, arith, ==_ne, done, sym, ◌∙◌,
}
use usc_homeworks.Database.{
  StrOrder, Ptr, null, Node, Heap, write, with_child, remove_two, leftmost,
}
use usc_homeworks.Database.Tree.{Tree, leaf, node, addr, has, size}
use usc_homeworks.Database.Rep.{
  Rep, Distinct, load-some, set_child-ok, node_destroy-ok, write_self, write_ne, frame, ne_of_has,
  ne_of_not, not-has_node, has-right,
}
use usc_homeworks.Database.Focus.{Disjoint-sym}
use usc_homeworks.Database.Minimum.{Least, leftmost-stop}
use usc_homeworks.Database.Splice.{Unlinked, unlink}

module _ {S : Type 0} ⦃o : StrOrder S⦄ where
  module _ (k : ℕ) (h : Heap S) (p : Ptr) (n : Node S) (ne : p ≢ null) (holds : h p ≡ some n) where
    -- The heap after the contents of the nodes `d` at `a` and `m` at `next` were swapped.
    abbrev swapped : Ptr → Node S → Ptr → Node S → Heap S
    swapped a d next m =
        write (write h a (some (record d { name = m.name; value = m.value }))) next
          (some (record m { name = d.name; value = d.value }))

    remove_two_run :
        (a : Ptr) (d : Node S) (next : Ptr) (m : Node S) (above : Ptr) (up : Node S) (side : Bool)
        → leftmost k d.rchild (a, false) h ≡ done ((next, above, side), h)
        → a ≢ null
        → next ≢ null
        → above ≢ null
        → next ≢ a
        → next ≢ above
        → h a ≡ some d
        → h next ≡ some m
        → swapped a d next m above ≡ some up
        → remove_two k a d h
          ≡ done (
            tt,
            write (write (swapped a d next m) above (some (with_child side up m.rchild))) next none,
          )
    unfolding remove_two
    remove_two_run a d next m above up side run an nn un apart off ea en eu =
        let w : Option (Node S) = some (record m { name = d.name; value = d.value }) in
        let h1 : Heap S = write h a (some (record d { name = m.name; value = m.value })) in
        let h2 : Heap S = write h1 next w in
        let c : Option (Node S) = some (with_child side up m.rchild) in
        rw (
          run,
          load-some h next nn en,
          load-some h a an ea,
          load-some h2 next nn (write_self h1 next w),
          set_child-ok side h2 above m.rchild un eu,
          node_destroy-ok (write h2 above c) next nn
              (write_ne h2 above next c off ∙ write_self h1 next w),
        )

    unlink_two_run :
        (a : Ptr) (d : Node S) (g : Heap S)
        → a ≢ null
        → h a ≡ some d
        → d.rchild ≢ null
        → d.lchild ≢ null
        → remove_two k a d h ≡ done (tt, g)
        → unlink k p a h ≡ done (true, g)
    unlink_two_run a d g an e nr nl run = rw (
      load-some h a an e,
      load-some h p ne holds,
      ==_ne d.rchild null nr,
      ==_ne d.lchild null nl,
      run,
    )

    -- The right child has no left child: it is the leftmost node itself.
    pub unlink_right_child :
        (left : Bool) (a la : Ptr) (ll : Tree S) (lk lv : S) (lr : Tree S) (x v : S) (ra : Ptr)
        (rk rv : S) (rr : Tree S)
        → Rep h (node a (node la ll lk lv lr) x v (node ra leaf rk rv rr))
        → Distinct (node a (node la ll lk lv lr) x v (node ra leaf rk rv rr))
        → has p (node a (node la ll lk lv lr) x v (node ra leaf rk rv rr)) ≡ false
        → 0 < k
        → with_child left n a ≡ n
        → (g : Heap S) × (unlink k p a h ≡ done (true, g))
          × Unlinked h left p n
              (node a (node la ll lk lv lr) x v (node ra leaf rk rv rr))
              (node a (node la ll lk lv lr) rk rv rr)
              g
    unlink_right_child left a la ll lk lv lr x v ra rk rv rr rep dis out fuel child =
        let l : Tree S = node la ll lk lv lr in
        let r : Tree S = node ra leaf rk rv rr in
        let s : Tree S = node a l x v r in
        let d : Node S = record { name = x; value = v; lchild = la; rchild = ra } in
        let m : Node S = record { name = rk; value = rv; lchild = null; rchild = addr rr } in
        let d' : Node S = record { name = rk; value = rv; lchild = la; rchild = ra } in
        let w : Option (Node S) = some (record m { name = x; value = v }) in
        let h1 : Heap S = write h a (some d') in
        let h2 : Heap S = write h1 ra w in
        let c : Option (Node S) = some (record d' { rchild = addr rr }) in
        let h3 : Heap S = write h2 a c in
        let ra_in : has ra s ≡ true = has-right ra a x v l r (ground arith) in
        let a_in : has a s ≡ true = ground arith in
        let ra_r : has ra r ≡ true = ground arith in
        let ra_l : has ra l ≡ false = Disjoint-sym l r dis.2 ra ra_r in
        let apart : ra ≢ a = ne_of_has ra a r ra_r dis.1 in
        let steady : (y : Ptr) → y ≢ a → y ≢ ra → write h3 ra none y ≡ h y = λ y i j.
          write_ne h3 ra y none j
          ∙ write_ne h2 a y c i
          ∙ write_ne h1 ra y w j
          ∙ write_ne h a y (some d') i in
        (
          write h3 ra none,
          unlink_two_run a d (write h3 ra none) rep.0 rep.1 rep.3.0 rep.2.0 (
              remove_two_run a d ra m a d' false
                (leftmost-stop k h ra (a, false) m fuel rep.3.0 rep.3.1 refl) rep.0 rep.3.0 rep.0
                apart apart rep.1 rep.3.1
                (write_ne h1 ra a w (λ e. apart (sym e)) ∙ write_self h a (some d'))),
          record {
            freed = ra;
            freed_in = ra_in;
            freed_out = not-has_node ra a rk rv l rr apart ra_l dis.4.1;
            is_freed = write_self h3 ra none;
            link =
                rw child (steady p (ne_of_not p a s out a_in) (ne_of_not p ra s out ra_in) ∙ holds);
            rep = (
              rep.0,
              write_ne h3 ra a none (λ e. apart (sym e)) ∙ write_self h2 a c,
              frame l rep.2 λ y i. steady y (ne_of_has y a l i dis.0) (ne_of_has y ra l i ra_l),
              frame rr rep.3.3 λ y i.
                  steady y (ne_of_has y a r (has-right y ra rk rv leaf rr i) dis.1)
                    (ne_of_has y ra rr i dis.4.1),
            );
            same = λ y i j. steady y (ne_of_not y a s j a_in) (ne_of_not y ra s j ra_in);
          },
        )

    -- The leftmost node lies further down.
    pub unlink-Least :
        (left : Bool) (a la : Ptr) (ll : Tree S) (lk lv : S) (lr : Tree S) (x v : S) (r : Tree S)
        (least : Ptr) (mk mv : S) (rest : Tree S)
        → Rep h (node a (node la ll lk lv lr) x v r)
        → Distinct (node a (node la ll lk lv lr) x v r)
        → has p (node a (node la ll lk lv lr) x v r) ≡ false
        → size r ≤ k
        → with_child left n a ≡ n
        → addr r ≢ null
        → Least h r least mk mv rest
        → has least rest ≡ false
        → ((y : Ptr) → has y rest ≡ true → has y r ≡ true)
        → (g : Heap S) × (unlink k p a h ≡ done (true, g))
          × Unlinked h left p n
              (node a (node la ll lk lv lr) x v r)
              (node a (node la ll lk lv lr) mk mv rest)
              g
    unlink-Least left a la ll lk lv lr x v r least mk mv rest rep dis out fuel child rn f gone sub =
        let l : Tree S = node la ll lk lv lr in
        let s : Tree S = node a l x v r in
        let d : Node S = record { name = x; value = v; lchild = la; rchild = addr r } in
        let m : Node S = record { name = mk; value = mv; lchild = null; rchild = addr f.right } in
        let d' : Node S = record { name = mk; value = mv; lchild = la; rchild = addr r } in
        let w : Option (Node S) = some (record m { name = x; value = v }) in
        let h1 : Heap S = write h a (some d') in
        let h2 : Heap S = write h1 least w in
        let c : Option (Node S) = some (record f.n { lchild = addr f.right }) in
        let h3 : Heap S = write h2 f.above c in
        let g : Heap S = write h3 least none in
        let a_in : has a s ≡ true = ground arith in
        let least_s : has least s ≡ true = has-right least a x v l r f.least_in in
        let above_s : has f.above s ≡ true = has-right f.above a x v l r f.above_in in
        let least_l : has least l ≡ false = Disjoint-sym l r dis.2 least f.least_in in
        let above_l : has f.above l ≡ false = Disjoint-sym l r dis.2 f.above f.above_in in
        let la_apart : least ≢ a = ne_of_has least a r f.least_in dis.1 in
        let up_apart : f.above ≢ a = ne_of_has f.above a r f.above_in dis.1 in
        let steady : (y : Ptr) → y ≢ a → y ≢ f.above → y ≢ least → g y ≡ h y = λ y i u j.
          write_ne h3 least y none j
          ∙ write_ne h2 f.above y c u
          ∙ write_ne h1 least y w j
          ∙ write_ne h a y (some d') i in
        (
          g,
          unlink_two_run a d g rep.0 rep.1 rn rep.2.0 (
              remove_two_run a d least m f.above f.n true (f.run k (a, false) fuel) rep.0
                f.least_not_null f.above_not_null la_apart (λ e. f.apart (sym e)) rep.1
                f.least_holds
                (write_ne h1 least f.above w f.apart
                  ∙ write_ne h a f.above (some d') up_apart
                  ∙ f.above_holds)),
          record {
            freed = least;
            freed_in = least_s;
            freed_out = not-has_node least a mk mv l rest la_apart least_l gone;
            is_freed = write_self h3 least none;
            link = rw child (
                steady p (ne_of_not p a s out a_in) (ne_of_not p f.above s out above_s)
                  (ne_of_not p least s out least_s)
                ∙ holds);
            rep = (
              rep.0,
              rw f.rest_addr (
                  write_ne h3 least a none (λ e. la_apart (sym e))
                  ∙ write_ne h2 f.above a c (λ e. up_apart (sym e))
                  ∙ write_ne h1 least a w (λ e. la_apart (sym e))
                  ∙ write_self h a (some d')),
              frame l rep.2 λ y i.
                  steady y (ne_of_has y a l i dis.0) (ne_of_has y f.above l i above_l)
                    (ne_of_has y least l i least_l),
              f.plug g (write_ne h3 least f.above none f.apart ∙ write_self h2 f.above c)
                  λ y i j u. steady y (ne_of_has y a r i dis.1) j u,
            );
            same = λ y i j.
                steady y (ne_of_not y a s j a_in) (ne_of_not y f.above s j above_s)
                  (ne_of_not y least s j least_s);
          },
        )
