-- ===== src/Ramfs/Steps.antt =====
-- What each step of the operations of weenix.assign2/kernel/fs/ramfs/ramfs.c does to the links, and
-- `vget` and `vput` of kernel/fs/vnode.c.
use usc_homeworks.Base.{
  ℕ, ◌+◌, ◌-◌, ◌≤◌, ◌<◌, ◌≡◌, ◌≢◌, Bool, true, false, Option, none, some, ◌==◌, arith, refl,
  Bool-cases, Option-cases, inl, inr, ==_iff, ==_ne, fun_ext, done,
}
use usc_homeworks.Sched.{update}
use usc_homeworks.Names.{Name}
use usc_homeworks.Ramfs.{
  Ino, is_dir_type, Inode, Vnode, Ramfs, ramfs_read_vnode, get_vnode, vget, left_inode,
  ramfs_delete_vnode, put_vnode, vput,
}
use usc_homeworks.Ramfs.Ops.{dirents_of, is_dir_vnode}
use usc_homeworks.Ramfs.Entries.{refers, named}
use usc_homeworks.Ramfs.Links.{
  entries, linkcount, in_use, is_numbered, IsLinked, IsLinked-change, place_below,
}

update_same {ℓ} : {A : Type ℓ} (t : Ino → A) (d : Ino) → t ≡ update t d (t d)
update_same t d = fun_ext λ x. elim (Bool-cases (x == d)) [
  | inl e ↦ let here : x ≡ d = (==_iff x d).0 e in rw (e, here)
  | inr e ↦ rw e
]

pub update_self {ℓ} : {A : Type ℓ} (t : Ino → A) (d : Ino) (a : A) → update t d a d ≡ a
update_self t d a = let same : (d == d) ≡ true = ground arith in rw same

pub update_other {ℓ} : {A : Type ℓ} (t : Ino → A) (d x : Ino) (a : A) → x ≢ d → update t d a x ≡ t x
update_other t d x a h = rw (==_ne x d h)

-- Whether the vnode of a number is a directory, or will be when it is read.
abbrev pub is_dir_inode : Option Inode → Bool
is_dir_inode none = false
is_dir_inode (some i) = is_dir_type i.rf_mode

abbrev pub leads_to_dir : Option Vnode → Option Inode → Bool
leads_to_dir (some vn) o = is_dir_type vn.vn_mode
leads_to_dir none o = is_dir_inode o

-- What a reference that was taken keeps, and what it gives.
pub record IsGot (extra : Ino → ℕ) (i : Ino) (s s' : Ramfs) : Type 0 where
  pub keeps : IsLinked extra s'
  pub same : (j : Ino) → dirents_of (s'.rfs_inodes j) ≡ dirents_of (s.rfs_inodes j)
  pub used : in_use (s'.vnodes i) ≡ 1
  pub kind : is_dir_vnode (s'.vnodes i) ≡ leads_to_dir (s.vnodes i) (s.rfs_inodes i)

vget_run :
    (i : Ino) (s : Ramfs) (x : Inode)
    → s.vnodes i ≡ none
    → s.rfs_inodes i ≡ some x
    → (x.rf_ino == i) ≡ true
    → vget i s
      ≡ done (record {
        rfs_inodes = update s.rfs_inodes i (some (record x { rf_linkcount = x.rf_linkcount + 1 }));
        vnodes =
            update s.vnodes i
              (some (record { vn_refcount = 1; vn_len = x.rf_size; vn_mode = x.rf_mode }));
      })
unfolding vget get_vnode ramfs_read_vnode
vget_run i s x e f h = rw (e, f, h)

vget_run_again :
    (i : Ino) (s : Ramfs) (vn : Vnode)
    → s.vnodes i ≡ some vn
    → (vn.vn_refcount == 0) ≡ false
    → vget i s
      ≡ done (record s {
        vnodes = update s.vnodes i (some (record vn { vn_refcount = vn.vn_refcount + 1 }));
      })
unfolding vget get_vnode
vget_run_again i s vn e h = rw (e, h)

-- `vget` of an inode that has a link.
pub vget_lem :
    {extra : Ino → ℕ} (i : Ino) (s : Ramfs)
    → IsLinked extra s
    → 0 < linkcount (s.rfs_inodes i)
    → (s' : Ramfs) × (vget i s ≡ done s') × IsGot extra i s s'
vget_lem {extra} i s w h = elim (Option-cases (s.vnodes i)) [
  | inl idle ↦ elim (Option-cases (s.rfs_inodes i)) [
    | inl gone ↦ let zero_ : 0 < 0 = rw gone at h in absurd (omega arith)
    | inr (x, at_i) ↦
        let number : (x.rf_ino == i) ≡ true = rw at_i at (w.numbered i) in
        (
          _,
          vget_run i s x idle at_i number,
          record {
            keeps =
                IsLinked-change s _ i (some (record x { rf_linkcount = x.rf_linkcount + 1 })) w
                  (place_below s i w h) refl (λ y ne. update_other s.vnodes i y _ ne) number
                  (rw (update_self s.vnodes i _))
                  (λ y. rw (update_self s.vnodes i _, at_i, idle) (ground arith));
            same = λ j. elim (Bool-cases (j == i)) [
              | inl e ↦ let here : j ≡ i = (==_iff j i).0 e in rw (e, here, at_i)
              | inr e ↦ rw e
            ];
            used = rw (update_self s.vnodes i _);
            kind = rw (update_self s.vnodes i _, idle, at_i);
          },
        )
  ]
  | inr (vn, at_i) ↦
      let some_refs : (vn.vn_refcount == 0) ≡ false = ground (arith, rw at_i at (w.referred i)) in
      (
        _,
        vget_run_again i s vn at_i some_refs,
        record {
          keeps =
              IsLinked-change s _ i (s.rfs_inodes i) w (place_below s i w h)
                (update_same s.rfs_inodes i) (λ y ne. update_other s.vnodes i y _ ne) (w.numbered i)
                (rw (update_self s.vnodes i _) (ground arith))
                (λ y. rw (update_self s.vnodes i _, at_i) (omega arith));
          same = λ j. refl;
          used = rw (update_self s.vnodes i _);
          kind = rw (update_self s.vnodes i _, at_i);
        },
      )
]

-- `vput` of a vnode in use, which may free its inode.
pub record IsPut (extra : Ino → ℕ) (i : Ino) (s s' : Ramfs) : Type 0 where
  pub keeps : IsLinked extra s'
  pub others : (j : Ino) → j ≢ i → s'.rfs_inodes j ≡ s.rfs_inodes j
  pub stays :
      1 < linkcount (s.rfs_inodes i) → dirents_of (s'.rfs_inodes i) ≡ dirents_of (s.rfs_inodes i)
  pub fewer :
      (j : Ino) (n : Name)
      → named n (entries (s'.rfs_inodes j)) ≤ named n (entries (s.rfs_inodes j))

vput_last :
    (i : Ino) (s : Ramfs) (vn : Vnode)
    → s.vnodes i ≡ some vn
    → vn.vn_refcount ≡ 1
    → vput i s
      ≡ done (record {
        rfs_inodes = update s.rfs_inodes i (left_inode (s.rfs_inodes i));
        vnodes = update s.vnodes i none;
      })
unfolding vput put_vnode ramfs_delete_vnode
vput_last i s vn e h = rw (e, h)

vput_again :
    (i : Ino) (s : Ramfs) (vn : Vnode)
    → s.vnodes i ≡ some vn
    → (vn.vn_refcount == 0) ≡ false
    → (vn.vn_refcount == 1) ≡ false
    → vput i s
      ≡ done (record s {
        vnodes = update s.vnodes i (some (record vn { vn_refcount = vn.vn_refcount - 1 }));
      })
unfolding vput put_vnode ramfs_delete_vnode
vput_again i s vn e h k = rw (e, h, k)

-- The inode that is left has its number, has one link less, and has its entries if it is there.
left_numbered :
    (i : Ino) (o : Option Inode) → is_numbered i o ≡ true → is_numbered i (left_inode o) ≡ true
left_numbered i none h = refl
left_numbered i (some x) h = ground (arith, h)

left_covered :
    (y : Ino) (o : Option Inode)
    → 0 < linkcount o
    → (refers y (entries (left_inode o)) ≤ refers y (entries o))
      × (linkcount o ≤ 1 + linkcount (left_inode o))
unfolding refers
left_covered y none h = (omega arith, omega arith)
left_covered y (some x) h = elim (Bool-cases (x.rf_linkcount == 1)) [
  | inl e ↦ rw e (omega arith, ground arith)
  | inr e ↦ rw e (omega arith, ground arith)
]

left_fewer : (n : Name) (o : Option Inode) → named n (entries (left_inode o)) ≤ named n (entries o)
unfolding named
left_fewer n none = omega arith
left_fewer n (some x) = elim (Bool-cases (x.rf_linkcount == 1)) [
  | inl e ↦ rw e (omega arith)
  | inr e ↦ rw e (omega arith)
]

left_stays : (o : Option Inode) → 1 < linkcount o → dirents_of (left_inode o) ≡ dirents_of o
left_stays none h = refl
left_stays (some x) h = let more : (x.rf_linkcount == 1) ≡ false = ground arith in rw more

pub vput_lem :
    {extra : Ino → ℕ} (i : Ino) (s : Ramfs)
    → IsLinked extra s
    → in_use (s.vnodes i) ≡ 1
    → (s' : Ramfs) × (vput i s ≡ done s') × IsPut extra i s s'
vput_lem {extra} i s w h = elim (Option-cases (s.vnodes i)) [
  | inl idle ↦ let zero_ : in_use none ≡ 1 = rw idle at h in absurd (omega arith)
  | inr (vn, at_i) ↦
      let some_refs : (vn.vn_refcount == 0) ≡ false = ground (arith, rw at_i at (w.referred i)) in
      let counted : 0 < linkcount (s.rfs_inodes i) = omega (arith, w.linked i) in
      let below = place_below s i w counted in
      elim (Bool-cases (vn.vn_refcount == 1)) [
        | inl one ↦ (
          _,
          vput_last i s vn at_i ((==_iff vn.vn_refcount 1).0 one),
          record {
            keeps =
                IsLinked-change s _ i (left_inode (s.rfs_inodes i)) w below refl
                  (λ y ne. update_other s.vnodes i y none ne)
                  (left_numbered i (s.rfs_inodes i) (w.numbered i))
                  (rw (update_self s.vnodes i none))
                  (λ y.
                    let c = left_covered y (s.rfs_inodes i) counted in
                    rw (update_self s.vnodes i none, h) (ground (arith, c.0, c.1)));
            others = λ j ne. update_other s.rfs_inodes i j _ ne;
            stays = λ m. rw (update_self s.rfs_inodes i _) (left_stays (s.rfs_inodes i) m);
            fewer = λ j n. elim (Bool-cases (j == i)) [
              | inl e ↦
                  let here : j ≡ i = (==_iff j i).0 e in
                  rw (e, here) (left_fewer n (s.rfs_inodes i))
              | inr e ↦ rw e (omega arith)
            ];
          },
        )
        | inr more ↦ (
          _,
          vput_again i s vn at_i some_refs more,
          record {
            keeps =
                IsLinked-change s _ i (s.rfs_inodes i) w below (update_same s.rfs_inodes i)
                  (λ y ne. update_other s.vnodes i y _ ne) (w.numbered i)
                  (rw (update_self s.vnodes i _) (ground arith))
                  (λ y. rw (update_self s.vnodes i _, at_i) (omega arith));
            others = λ j ne. refl;
            stays = λ m. refl;
            fewer = λ j n. omega arith;
          },
        )
      ]
]
