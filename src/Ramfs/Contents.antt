-- ===== src/Ramfs/Contents.antt =====
-- `ramfs_read` and `ramfs_write` of weenix.assign2/kernel/fs/ramfs/ramfs.c.
use usc_homeworks.Base.{
  ℕ, zero, suc, ◌+◌, ◌-◌, ◌≤◌, ◌<◌, ◌≡◌, min, max, true, false, some, List, [], ◌∷◌, ◌++◌, ◌==◌,
  ltb, arith, refl, ap, length, take, drop, done, ◌∙◌, length-append, lt→ltb, ◌^◌,
}
use usc_homeworks.Sched.{update}
use usc_homeworks.Ramfs.{Ino, Inode, Vnode, Ramfs, page_size, page}
use usc_homeworks.Ramfs.Ops.{ramfs_read, overwrite, write_page, ramfs_write}
use usc_homeworks.Ramfs.Steps.{update_self}

drop-append {ℓ} : {A : Type ℓ} (n : ℕ) (xs ys : List A) → length xs ≡ n → drop n (xs ++ ys) ≡ ys
drop-append zero [] ys h = refl
drop-append zero (x ∷ xs) ys h = absurd (omega arith)
drop-append (suc n) [] ys h = absurd (omega arith)
drop-append (suc n) (x ∷ xs) ys h = drop-append n xs ys (omega arith)

take-append {ℓ} : {A : Type ℓ} (n : ℕ) (xs ys : List A) → length xs ≡ n → take n (xs ++ ys) ≡ xs
take-append zero [] ys h = refl
take-append zero (x ∷ xs) ys h = absurd (omega arith)
take-append (suc n) [] ys h = absurd (omega arith)
take-append (suc n) (x ∷ xs) ys h = ap (λ l. x ∷ l) (take-append n xs ys (omega arith))

length-take {ℓ} : {A : Type ℓ} (n : ℕ) (xs : List A) → length (take n xs) ≡ min n (length xs)
length-take zero xs = omega arith
length-take (suc n) [] = omega arith
length-take (suc n) (x ∷ xs) = omega (arith, length-take n xs)

length-drop {ℓ} : {A : Type ℓ} (n : ℕ) (xs : List A) → length (drop n xs) ≡ length xs - n
length-drop zero xs = omega arith
length-drop (suc n) [] = omega arith
length-drop (suc n) (x ∷ xs) = omega (arith, length-drop n xs)

-- What is written is read back, and the page stays as long.
overwrite-read :
    (offset : ℕ) (buf bs : List ℕ)
    → offset ≤ length bs
    → take (length buf) (drop offset (overwrite offset buf bs)) ≡ buf
unfolding overwrite
overwrite-read offset buf bs h =
    let whole : length (take offset bs) ≡ offset = omega (arith, length-take offset bs) in
    rw (drop-append offset (take offset bs) (buf ++ drop (offset + length buf) bs) whole)
      (take-append (length buf) buf (drop (offset + length buf) bs) refl)

pub overwrite-length :
    (offset : ℕ) (buf bs : List ℕ)
    → offset + length buf ≤ length bs
    → length (overwrite offset buf bs) ≡ length bs
unfolding overwrite
overwrite-length offset buf bs h =
    rw
      (
        length-append (take offset bs) (buf ++ drop (offset + length buf) bs),
        length-append buf (drop (offset + length buf) bs),
      )
      (omega (arith, length-take offset bs, length-drop (offset + length buf) bs))

-- A regular file whose vnode is in use: its page, its inode, and a length that the vnode knows.
pub record IsFile (file : Ino) (bs : List ℕ) (i : Inode) (vn : Vnode) (s : Ramfs) : Type 0 where
  pub inode : s.rfs_inodes file ≡ some i
  pub bytes : i.rf_mem ≡ page bs
  pub vnode : s.vnodes file ≡ some vn
  pub known : vn.vn_len ≡ i.rf_size
  pub whole : length bs ≡ page_size
  pub inside : i.rf_size ≤ page_size

-- The file after a write of the bytes that fit.
abbrev pub new_size : ℕ → List ℕ → Vnode → ℕ
new_size offset fits vn = max vn.vn_len (offset + length fits)

abbrev pub written_inode : ℕ → List ℕ → List ℕ → Vnode → Inode → Inode
written_inode offset fits bs vn i = record i {
  rf_mem = page (overwrite offset fits bs);
  rf_size = new_size offset fits vn;
}

abbrev pub written_vnode : ℕ → List ℕ → Vnode → Vnode
written_vnode offset fits vn = record vn { vn_len = new_size offset fits vn }

abbrev pub written : Ino → ℕ → List ℕ → List ℕ → Inode → Vnode → Ramfs → Ramfs
written file offset fits bs i vn s = record s {
  rfs_inodes = update s.rfs_inodes file (some (written_inode offset fits bs vn i));
  vnodes = update s.vnodes file (some (written_vnode offset fits vn));
}

write_run :
    (file : Ino) (offset : ℕ) (buf bs : List ℕ) (i : Inode) (vn : Vnode) (s : Ramfs)
    → s.rfs_inodes file ≡ some i
    → i.rf_mem ≡ page bs
    → s.vnodes file ≡ some vn
    → vn.vn_len ≡ i.rf_size
    → ltb page_size offset ≡ false
    → ltb (length buf) (2 ^ 31) ≡ true
    → ramfs_write file offset buf s
      ≡ done (
        length (take (page_size - offset) buf),
        written file offset (take (page_size - offset) buf) bs i vn s,
      )
unfolding ramfs_write write_page
write_run file offset buf bs i vn s e f g h k small =
    let same : (i.rf_size == i.rf_size) ≡ true = ground arith in
    rw (e, ramfs_write, f, g, k, small, e, h, same)

read_run :
    (file : Ino) (offset count : ℕ) (bs : List ℕ) (i : Inode) (s : Ramfs)
    → s.rfs_inodes file ≡ some i
    → i.rf_mem ≡ page bs
    → ltb count (2 ^ 31) ≡ true
    → ramfs_read file offset count s ≡ done (take (min count (i.rf_size - offset)) (drop offset bs))
unfolding ramfs_read
read_run file offset count bs i s e f small = rw (e, ramfs_read, f, e, small)

-- The bytes that fit the page from an offset on.
abbrev pub fitting : ℕ → List ℕ → List ℕ
fitting offset buf = take (page_size - offset) buf

read_all :
    (size offset : ℕ) (fits bs : List ℕ)
    → offset ≤ length bs
    → offset + length fits ≤ size
    → take (min (length fits) (size - offset)) (drop offset (overwrite offset fits bs)) ≡ fits
read_all size offset fits bs h k =
    let all : min (length fits) (size - offset) ≡ length fits = omega arith in
    rw all (overwrite-read offset fits bs h)

-- Writing fewer than 2^31 bytes to a regular file in use, at an offset of at most a page, returns how many of the bytes fit
-- the page from there, and reading that many at the offset gives these bytes. The file goes on being
-- one of a page, whose length its vnode knows: the greater of the old one and of the end of the write.
pub read_after_write :
    (file : Ino) (offset : ℕ) (buf bs : List ℕ) (i : Inode) (vn : Vnode) (s : Ramfs)
    → IsFile file bs i vn s
    → offset ≤ page_size
    → length buf < 2 ^ 31
    → (s' : Ramfs) × (j : Inode) × (v : Vnode) × (cs : List ℕ) × (ramfs_write file offset buf s
        ≡ done (length (fitting offset buf), s'))
      × (ramfs_read file offset (length (fitting offset buf)) s' ≡ done (fitting offset buf))
      × IsFile file cs j v s'
      × (j.rf_size ≡ max i.rf_size (offset + length (fitting offset buf)))
unfolding page_size
read_after_write file offset buf bs i vn s w h small =
    let fits = fitting offset buf in
    let s' = written file offset fits bs i vn s in
    let j = written_inode offset fits bs vn i in
    let room : offset + length fits ≤ page_size =
      omega (arith, length-take (page_size - offset) buf) in
    let at_file : s'.rfs_inodes file ≡ some j = update_self s.rfs_inodes file (some j) in
    (
      s',
      j,
      written_vnode offset fits vn,
      overwrite offset fits bs,
      write_run file offset buf bs i vn s w.inode w.bytes w.vnode w.known (ground arith)
          (lt→ltb (length buf) (2 ^ 31) small),
      read_run file offset (length fits) (overwrite offset fits bs) j s' at_file refl
            (lt→ltb (length fits) (2 ^ 31) (omega (arith, room)))
          ∙ ap done (read_all j.rf_size offset fits bs (omega (arith, w.whole)) (omega arith)),
      record {
        inode = at_file;
        bytes = refl;
        vnode = update_self s.vnodes file (some (written_vnode offset fits vn));
        known = refl;
        whole = overwrite-length offset fits bs (omega (arith, w.whole)) ∙ w.whole;
        inside = omega (arith, w.known, w.inside);
      },
      rw w.known,
    )
