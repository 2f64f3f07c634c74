-- ===== src/Names/Resolve.antt =====
-- `dir_namev` of weenix.assign2/kernel/fs/namev.c always returns, and takes one reference.
use usc_homeworks.Base.{
  ℕ, zero, suc, ◌+◌, ◌≡◌, ◌<◌, true, false, Option, none, some, arith, refl, ◌∙◌, length, done,
  Bool-cases, inl, inr, ◌⊎◌,
}
use usc_homeworks.Sched.{is_empty}
use usc_homeworks.Names.{
  VnodeId, Name, Errno, Answer, got, failed, Vnodes, PathState, einval, vref, vput, lookup, follow,
  start, dir_namev, namev_tokenize,
}
use usc_homeworks.Names.Balance.{one, held, answer, Moves, vref-Moves, vput-Moves, lookup-Moves}
use usc_homeworks.Names.Tokens.{left_over, tokenize_shortens, tokenize_keeps}

-- The vnode of a directory and a name in it.
abbrev pub directory : Answer (VnodeId × Name) → Option VnodeId
directory (got d) = some d.0
directory (failed e) = none

module _ {W : Type 0} (ops : Vnodes W) where
  follow_stops :
      (k : ℕ) (cur : VnodeId) (dirtok nextok : Name) (save : Option Name) (s : PathState W)
      → is_empty nextok ≡ true
      → follow ops k cur dirtok nextok save s ≡ done (got (cur, dirtok), s)
  unfolding follow
  follow_stops zero cur dirtok nextok save s e = rw e
  follow_stops (suc k) cur dirtok nextok save s e = rw e

  follow_fails :
      (k : ℕ) (cur : VnodeId) (dirtok nextok : Name) (save : Option Name) (s s1 s2 : PathState W)
      (err : Errno)
      → is_empty nextok ≡ false
      → lookup ops cur dirtok s ≡ done (failed err, s1)
      → vput cur s1 ≡ done s2
      → follow ops (suc k) cur dirtok nextok save s ≡ done (failed err, s2)
  unfolding follow
  follow_fails k cur dirtok nextok save s s1 s2 err e look put = rw (e, look, put)

  follow_step :
      (k : ℕ) (cur v : VnodeId) (dirtok nextok : Name) (save : Option Name) (s s1 s2 : PathState W)
      → is_empty nextok ≡ false
      → lookup ops cur dirtok s ≡ done (got v, s1)
      → vput cur s1 ≡ done s2
      → follow ops (suc k) cur dirtok nextok save s
        ≡ follow ops k v nextok (namev_tokenize save).0 (namev_tokenize save).1 s2
  unfolding follow
  follow_step k cur v dirtok nextok save s s1 s2 e look put = rw (e, look, put)

  -- What the loop of `dir_namev` does with the reference to where it stands.
  abbrev IsFollowed : ℕ → VnodeId → Name → Name → Option Name → PathState W → Type 0
  IsFollowed k cur dirtok nextok save s =
      (r : Answer (VnodeId × Name)) × (s' : PathState W) × (follow ops k cur dirtok nextok save s
        ≡ done (r, s'))
      × Moves (one cur) (held (directory r)) s s'

  follow-Moves :
      (k : ℕ) (cur : VnodeId) (dirtok nextok : Name) (save : Option Name) (s : PathState W)
      → 0 < s.vn_refcount cur
      → ((is_empty nextok ≡ true) ⊎ (left_over save < k))
      → IsFollowed k cur dirtok nextok save s
  follow-Moves k cur dirtok nextok save s h (inl stop) = (
    got (cur, dirtok),
    s,
    follow_stops k cur dirtok nextok save s stop,
    record { refs = λ g. refl; same_cwd = refl },
  )
  follow-Moves zero cur dirtok nextok save s h (inr fuel) = absurd (omega arith)
  follow-Moves (suc k) cur dirtok nextok save s h (inr fuel) = elim (Bool-cases (is_empty nextok)) [
    | inl stop ↦ (
      got (cur, dirtok),
      s,
      follow_stops (suc k) cur dirtok nextok save s stop,
      record { refs = λ g. refl; same_cwd = refl },
    )
    | inr more ↦
        let (r, s1, look, m) = lookup-Moves ops cur dirtok s h in
        let p = vput-Moves cur s1 (ground (arith, h, m.refs cur)) in
        step more r s1 look m p.0 p.1 p.2 λ v s2 held_v.
          follow-Moves k v nextok (namev_tokenize save).0 (namev_tokenize save).1 s2 held_v
            (elim (tokenize_shortens save) [ inl e ↦ inl e | inr l ↦ inr (omega arith) ])
  ]
    where
      step :
          is_empty nextok ≡ false
          → (r : Answer VnodeId) (s1 : PathState W) → lookup ops cur dirtok s ≡ done (r, s1)
          → Moves (λ g. 0) (held (answer r)) s s1
          → (s2 : PathState W) → vput cur s1 ≡ done s2
          → Moves (one cur) (λ g. 0) s1 s2
          → ((v : VnodeId) (s2 : PathState W)
              → 0 < s2.vn_refcount v
              → IsFollowed k v nextok (namev_tokenize save).0 (namev_tokenize save).1 s2)
          → IsFollowed (suc k) cur dirtok nextok save s
      step more (failed e) s1 look m s2 put p next = (
        failed e,
        s2,
        follow_fails k cur dirtok nextok save s s1 s2 e more look put,
        record {
          refs = λ g. omega (arith, m.refs g, p.refs g);
          same_cwd = p.same_cwd ∙ m.same_cwd;
        },
      )
      step more (got v) s1 look m s2 put p next =
          let n = next v s2 (ground (arith, m.refs v, p.refs v, h)) in
          (
            n.0,
            n.1,
            follow_step k cur v dirtok nextok save s s1 s2 more look put ∙ n.2,
            record {
              refs = λ g. omega (arith, m.refs g, p.refs g, n.3.refs g);
              same_cwd = n.3.same_cwd ∙ p.same_cwd ∙ m.same_cwd;
            },
          )

  dir_namev_run :
      (path : Name) (base : Option VnodeId) (s s1 : PathState W)
      → is_empty path ≡ false
      → vref (start ops path base s) s ≡ done s1
      → dir_namev ops path base s
        ≡ follow ops
            (length path + 2)
            (start ops path base s)
            (namev_tokenize (some path)).0
            (namev_tokenize (namev_tokenize (some path)).1).0
            (namev_tokenize (namev_tokenize (some path)).1).1
            s1
  unfolding dir_namev
  dir_namev_run path base s s1 e v = rw (e, v)

  dir_namev_empty :
      (path : Name) (base : Option VnodeId) (s : PathState W)
      → is_empty path ≡ true
      → dir_namev ops path base s ≡ done (failed einval, s)
  unfolding dir_namev
  dir_namev_empty path base s e = rw e

  -- `dir_namev` of any path, from a vnode to which there are references, returns. One reference was
  -- taken then, to the directory that it gives, or none if it gives an error.
  pub dir_namev-Moves :
      (path : Name) (base : Option VnodeId) (s : PathState W)
      → 0 < s.vn_refcount (start ops path base s)
      → (r : Answer (VnodeId × Name)) × (s' : PathState W) × (dir_namev ops path base s
          ≡ done (r, s'))
        × Moves (λ g. 0) (held (directory r)) s s'
  dir_namev-Moves path base s h = elim (Bool-cases (is_empty path)) [
    | inl e ↦ (
      failed einval,
      s,
      dir_namev_empty path base s e,
      record { refs = λ g. refl; same_cwd = refl },
    )
    | inr e ↦
        let cur = start ops path base s in
        let v = vref-Moves cur s h in
        let first = namev_tokenize (some path) in
        let second = namev_tokenize first.1 in
        let n =
          follow-Moves (length path + 2) cur first.0 second.0 second.1 v.0
            (ground (arith, v.2.refs cur))
            (inr (omega (arith, tokenize_keeps (some path), tokenize_keeps first.1))) in
        (
          n.0,
          n.1,
          dir_namev_run path base s v.0 e v.1 ∙ n.2,
          record {
            refs = λ g. omega (arith, v.2.refs g, n.3.refs g);
            same_cwd = n.3.same_cwd ∙ v.2.same_cwd;
          },
        )
  ]
