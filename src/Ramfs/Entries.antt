-- ===== src/Ramfs/Entries.antt =====
-- The entries of a directory of weenix.assign2/kernel/fs/ramfs/ramfs.c: what setting and clearing one
-- does to the lookups of names and to the links that the entries make.
use usc_homeworks.Base.{
  ℕ, zero, suc, ◌+◌, ◌≤◌, ◌<◌, ◌≡◌, Bool, true, false, not, ◌&&◌, ◌||◌, none, some, List, [], ◌∷◌,
  ◌==◌, if◌then◌else◌, length, take, set, replicate, arith, refl, subst, ap, ap₂, Bool-cases,
  Option-cases, inl, inr, ==_iff,
}
use usc_homeworks.Sched.{is_empty}
use usc_homeworks.Names.{Name, is_dot, is_dot_dot, dot}
use usc_homeworks.Ramfs.{Ino, Dirent, free_dirent}
use usc_homeworks.Ramfs.Ops.{name_match, find_entry, clear_entry, free_slot, new_dirent, dots}

pub name_match_refl : (n : Name) → name_match n n ≡ true
unfolding name_match
name_match_refl [] = refl
name_match_refl (c ∷ cs) = ground (arith, name_match_refl cs)

pub name_match_eq : (m n : Name) → name_match m n ≡ true → m ≡ n
unfolding name_match
name_match_eq [] [] h = refl
name_match_eq [] (d ∷ ds) h = cc
name_match_eq (c ∷ cs) [] h = cc
name_match_eq (c ∷ cs) (d ∷ ds) h = elim (Bool-cases (c == d)) [
  | inl e ↦
      let tail : cs ≡ ds = name_match_eq cs ds (rw e at h) in
      let head : c ≡ d = (==_iff c d).0 e in ap₂ (λ a l. a ∷ l) head tail
  | inr e ↦ cc (rw e at h)
]

-- Whether an entry of the name is a link: it is not free, and not "." or "..".
unfoldable pub is_link : Name → Bool
is_link n = not (is_empty n) && not (is_dot n || is_dot_dot n)

-- How many links to an inode the entries are.
unfoldable pub refers : Ino → List Dirent → ℕ
refers x [] = 0
refers x (d ∷ ds) =
    (if is_link d.rd_name then (if d.rd_ino == x then 1 else 0) else 0) + refers x ds

-- How many entries have the name.
unfoldable pub named : Name → List Dirent → ℕ
named n [] = 0
named n (d ∷ ds) = (if name_match d.rd_name n then 1 else 0) + named n ds

-- No two entries have the same name.
unfoldable pub IsDistinct : List Dirent → Type 0
IsDistinct ds = (n : Name) → is_empty n ≡ false → named n ds ≤ 1

is_link_free : (n : Name) → is_empty n ≡ true → is_link n ≡ false
unfolding is_link
is_link_free [] h = refl
is_link_free (c ∷ cs) h = cc

pub is_link-not_empty : (n : Name) → is_link n ≡ true → is_empty n ≡ false
unfolding is_link
is_link-not_empty [] h = cc
is_link-not_empty (c ∷ cs) h = refl

pub take-all : (n : Name) (k : ℕ) → length n ≤ k → take k n ≡ n
take-all [] zero h = refl
take-all [] (suc k) h = refl
take-all (c ∷ cs) zero h = absurd (omega arith)
take-all (c ∷ cs) (suc k) h = ap (λ l. c ∷ l) (take-all cs k (omega arith))

pub free_match : (m n : Name) → is_empty m ≡ true → is_empty n ≡ false → name_match m n ≡ false
unfolding name_match
free_match [] [] h k = cc
free_match [] (c ∷ cs) h k = refl
free_match (c ∷ cs) n h k = cc

-- The free entry that is found is set to an entry of any name.
pub refers-set :
    (x ino : Ino) (name : Name) (ds : List Dirent) (i : ℕ)
    → free_slot ds ≡ some i
    → refers x (set ds i (new_dirent ino name)) ≤ refers x ds + (if ino == x then 1 else 0)
unfolding refers free_slot new_dirent
refers-set x ino name [] i e = cc
refers-set x ino name (d ∷ ds) i e = elim (Bool-cases (is_empty d.rd_name)) [
  | inl free ↦
      let here : 0 ≡ i = cc (rw free at e) in
      rw (← here) (ground (arith, is_link_free d.rd_name free))
  | inr taken ↦ elim (Option-cases (free_slot ds)) [
    | inl full ↦ cc (rw (taken, full) at e)
    | inr (j, at_j) ↦
        let here : suc j ≡ i = cc (rw (taken, at_j) at e) in
        rw (← here) (omega (arith, refers-set x ino name ds j at_j))
  ]
]

-- What the entry of a name is cleared from.
pub refers-clear_entry :
    (x ino : Ino) (name : Name) (ds : List Dirent)
    → is_link name ≡ true
    → find_entry name ds ≡ some ino
    → refers x (clear_entry name ds) + (if ino == x then 1 else 0) ≡ refers x ds
unfolding refers clear_entry find_entry
refers-clear_entry x ino name [] l e = cc
refers-clear_entry x ino name (d ∷ ds) l e = elim (Bool-cases (name_match d.rd_name name)) [
  | inl same ↦
      let here : d.rd_ino ≡ ino = cc (rw same at e) in
      let names : d.rd_name ≡ name = name_match_eq d.rd_name name same in
      rw (same, ← here, names, l, is_link_free [] refl) (omega arith)
  | inr other ↦ rw other (omega (arith, refers-clear_entry x ino name ds l (rw other at e)))
]

pub refers-find_entry :
    (ino : Ino) (name : Name) (ds : List Dirent)
    → is_link name ≡ true
    → find_entry name ds ≡ some ino
    → 0 < refers ino ds
refers-find_entry ino name ds l e = ground (arith, refers-clear_entry ino ino name ds l e)

-- An entry of "." or "..".
refers-set_dot :
    (x : Ino) (d : Dirent) (ds : List Dirent) (i : ℕ)
    → is_link d.rd_name ≡ false
    → refers x (set ds i d) ≤ refers x ds
unfolding refers
refers-set_dot x d [] i l = omega arith
refers-set_dot x d (e ∷ ds) zero l = rw l (omega arith)
refers-set_dot x d (e ∷ ds) (suc i) l = omega (arith, refers-set_dot x d ds i l)

pub refers-dots :
    (x ino parent : Ino) (ds : List Dirent) → refers x (dots ino parent ds) ≤ refers x ds
unfolding dots is_link
refers-dots x ino parent ds =
    let one : Dirent = record { rd_ino = ino; rd_name = dot ∷ [] } in
    let two : Dirent = record { rd_ino = parent; rd_name = dot ∷ dot ∷ [] } in
    omega (arith, refers-set_dot x two (set ds 0 one) 1 refl, refers-set_dot x one ds 0 refl)

pub refers-replicate : (x : Ino) (n : ℕ) → refers x (replicate n free_dirent) ≡ 0
unfolding refers is_link
refers-replicate x zero = refl
refers-replicate x (suc n) = omega (arith, refers-replicate x n)

-- A lookup after the free entry that is found is set to a name that was missing.
pub find-set :
    (m name : Name) (ino : Ino) (ds : List Dirent) (i : ℕ)
    → is_empty m ≡ false
    → length name ≤ 27
    → free_slot ds ≡ some i
    → find_entry name ds ≡ none
    → find_entry m (set ds i (new_dirent ino name))
      ≡ (if name_match name m then some ino else find_entry m ds)
unfolding find_entry free_slot new_dirent
find-set m name ino [] i k h e f = cc
find-set m name ino (d ∷ ds) i k h e f = elim (Bool-cases (is_empty d.rd_name)) [
  | inl free ↦
      let here : 0 ≡ i = cc (rw free at e) in
      rw (← here, take-all name 27 h, free_match d.rd_name m free k)
  | inr taken ↦ elim (Option-cases (free_slot ds)) [
    | inl full ↦ cc (rw (taken, full) at e)
    | inr (j, at_j) ↦
        let here : suc j ≡ i = cc (rw (taken, at_j) at e) in
        elim (Bool-cases (name_match d.rd_name name)) [
          | inl same ↦ cc (rw same at f)
          | inr other ↦
              let rest = find-set m name ino ds j k h at_j (rw other at f) in
              rw (← here) (elim (Bool-cases (name_match d.rd_name m)) [
                | inl hit ↦
                    let this : d.rd_name ≡ m = name_match_eq d.rd_name m hit in
                    elim (Bool-cases (name_match name m)) [
                      | inl both ↦
                          let that : name ≡ m = name_match_eq name m both in
                          cc (hit, subst (λ n. name_match d.rd_name n ≡ false) that other)
                      | inr apart ↦ rw (hit, apart)
                    ]
                | inr miss ↦ rw miss rest
              ])
        ]
  ]
]

pub not_named : (n : Name) (ds : List Dirent) → named n ds ≡ 0 → find_entry n ds ≡ none
unfolding named find_entry
not_named n [] h = refl
not_named n (d ∷ ds) h = elim (Bool-cases (name_match d.rd_name n)) [
  | inl same ↦ let one : 1 + named n ds ≡ 0 = rw same at h in absurd (omega arith)
  | inr other ↦ rw other (not_named n ds (omega (arith, rw other at h)))
]

-- A lookup after the entry of a name is cleared.
pub find-clear_entry :
    (m name : Name) (ds : List Dirent)
    → is_empty m ≡ false
    → named name ds ≤ 1
    → find_entry m (clear_entry name ds) ≡ (if name_match name m then none else find_entry m ds)
unfolding find_entry clear_entry named
find-clear_entry m name [] k u = elim (Bool-cases (name_match name m)) [
  | inl e ↦ rw e
  | inr e ↦ rw e
]
find-clear_entry m name (d ∷ ds) k u = elim (Bool-cases (name_match d.rd_name name)) [
  | inl same ↦
      let this : d.rd_name ≡ name = name_match_eq d.rd_name name same in
      let alone : named name ds ≡ 0 = omega (arith, rw same at u) in
      rw (same, free_match [] m refl k, this)
        (elim (Bool-cases (name_match name m)) [
          | inl both ↦
              let that : name ≡ m = name_match_eq name m both in
              rw both (subst (λ n. find_entry n ds ≡ none) that (not_named name ds alone))
          | inr apart ↦ rw apart
        ])
  | inr other ↦
      let rest = find-clear_entry m name ds k (omega (arith, rw other at u)) in
      rw other (elim (Bool-cases (name_match d.rd_name m)) [
        | inl hit ↦ elim (Bool-cases (name_match name m)) [
          | inl both ↦
              let that : name ≡ m = name_match_eq name m both in
              cc (hit, subst (λ n. name_match d.rd_name n ≡ false) that other)
          | inr apart ↦ rw (hit, apart)
        ]
        | inr miss ↦ rw miss rest
      ])
]
