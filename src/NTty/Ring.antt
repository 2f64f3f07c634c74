-- ===== src/NTty/Ring.antt =====
-- The contents of the input buffer of weenix.assign2/kernel/drivers/tty/n_tty.c as two lists, and what
-- each buffer operation does to them.
use usc_homeworks.Base.{
  ℕ, zero, suc, ◌+◌, ◌-◌, ◌%◌, ◌≡◌, ◌<◌, ◌≤◌, true, false, List, [], ◌∷◌, ◌++◌, ◌==◌, arith, refl,
  ap, ◌∙◌, length, done,
}
use usc_homeworks.Sched.{update}
use usc_homeworks.NTty.{
  NTtyState, tty_buf_size, rawbuf_full, rawbuf_almost_full, rawbuf_empty, rawbuf_size,
  rawbuf_enqueue, rawbuf_remove_last, rawbuf_cook, ckdbuf_empty, ckdbuf_size, ckdbuf_dequeue,
}

-- `k` characters of the buffer from index `i` on.
unfoldable pub chars : (ℕ → ℕ) → ℕ → ℕ → List ℕ
chars buf i zero = []
chars buf i (suc k) = buf i ∷ chars buf ((i + 1) % 128) k

unfoldable pub cooked : NTtyState → List ℕ
unfolding chars
cooked n = chars n.ntty_inbuf n.ntty_rhead (ckdbuf_size n)

unfoldable pub raw : NTtyState → List ℕ
unfolding chars
raw n = chars n.ntty_inbuf n.ntty_ckdtail (rawbuf_size n)

-- The indices are in the buffer, and the two parts together leave at least one place free.
pub record IsValid (n : NTtyState) : Type 0 where
  pub rhead : n.ntty_rhead < 128
  pub rawtail : n.ntty_rawtail < 128
  pub ckdtail : n.ntty_ckdtail < 128
  pub room : rawbuf_size n + ckdbuf_size n < 128

pub chars-snoc :
    (buf : ℕ → ℕ) (i k : ℕ)
    → i < 128
    → chars buf i (suc k) ≡ chars buf i k ++ buf ((i + k) % 128) ∷ []
unfolding chars
chars-snoc buf i zero h = ap (λ j. buf j ∷ []) (omega arith)
chars-snoc buf i (suc k) h =
    ap (λ l. buf i ∷ l)
      (chars-snoc buf ((i + 1) % 128) k (omega arith)
        ∙ ap (λ j. chars buf ((i + 1) % 128) k ++ buf j ∷ []) (omega arith))

-- A write outside of the part that is read.
pub chars-update :
    (buf : ℕ → ℕ) (i k j c : ℕ)
    → i < 128
    → j < 128
    → k ≤ (j + 128 - i) % 128
    → chars (update buf j c) i k ≡ chars buf i k
unfolding chars
chars-update buf i zero j c h g f = refl
chars-update buf i (suc k) j c h g f = ground (arith, chars-update buf ((i + 1) % 128) k j c)

pub length-chars : (buf : ℕ → ℕ) (i k : ℕ) → length (chars buf i k) ≡ k
unfolding chars
length-chars buf i zero = refl
length-chars buf i (suc k) = ap suc (length-chars buf ((i + 1) % 128) k)

pub chars-append :
    (buf : ℕ → ℕ) (i k m : ℕ)
    → i < 128
    → chars buf i (k + m) ≡ chars buf i k ++ chars buf ((i + k) % 128) m
unfolding chars
chars-append buf i zero m h =
    let none_before : 0 + m ≡ m = omega arith in
    let here : (i + 0) % 128 ≡ i = omega arith in rw (none_before, here)
chars-append buf i (suc k) m h =
    let one_more : suc k + m ≡ suc (k + m) = omega arith in
    let there : (i + suc k) % 128 ≡ ((i + 1) % 128 + k) % 128 = omega arith in
    rw (one_more, there) (ap (λ l. buf i ∷ l) (chars-append buf ((i + 1) % 128) k m (omega arith)))

-- How many characters the buffer holds decides the tests for a full buffer.
pub full_iff :
    (n : NTtyState) → IsValid n → rawbuf_full n ≡ (length (cooked n) + length (raw n) == 127)
unfolding rawbuf_full cooked raw ckdbuf_size rawbuf_size
full_iff n v =
    rw
      (
        length-chars n.ntty_inbuf n.ntty_rhead (ckdbuf_size n),
        length-chars n.ntty_inbuf n.ntty_ckdtail (rawbuf_size n),
      )
      (ground (arith, v.rhead, v.rawtail, v.ckdtail, v.room))

pub almost_full_iff :
    (n : NTtyState) → IsValid n → rawbuf_almost_full n ≡ (length (cooked n) + length (raw n) == 126)
unfolding rawbuf_almost_full cooked raw ckdbuf_size rawbuf_size
almost_full_iff n v =
    rw
      (
        length-chars n.ntty_inbuf n.ntty_rhead (ckdbuf_size n),
        length-chars n.ntty_inbuf n.ntty_ckdtail (rawbuf_size n),
      )
      (ground (arith, v.rhead, v.rawtail, v.ckdtail, v.room))

pub enqueue-raw :
    (n : NTtyState) (c : ℕ)
    → IsValid n
    → rawbuf_full n ≡ false
    → (n' : NTtyState) × (rawbuf_enqueue n c ≡ done n')
      × (raw n' ≡ raw n ++ c ∷ [])
      × (cooked n' ≡ cooked n)
      × IsValid n'
      × (n'.ntty_rwaitq ≡ n.ntty_rwaitq)
unfolding rawbuf_full rawbuf_enqueue cooked raw ckdbuf_size rawbuf_size
enqueue-raw n c v e =
    let buf' = update n.ntty_inbuf n.ntty_rawtail c in
    let grown : (((n.ntty_rawtail + 1) % 128) + 128 - n.ntty_ckdtail) % 128 ≡ suc (rawbuf_size n) =
      ground (arith, v.rhead, v.rawtail, v.ckdtail, v.room) in
    let kept : chars buf' n.ntty_ckdtail (rawbuf_size n) ≡ raw n =
      chars-update n.ntty_inbuf n.ntty_ckdtail (rawbuf_size n) n.ntty_rawtail c v.ckdtail v.rawtail
        (omega arith) in
    let last : buf' ((n.ntty_ckdtail + rawbuf_size n) % 128) ≡ c =
      ground (arith, v.rhead, v.rawtail, v.ckdtail, v.room) in
    (
      record n { ntty_inbuf = buf'; ntty_rawtail = (n.ntty_rawtail + 1) % tty_buf_size },
      ground (arith, v.rawtail),
      rw (grown, chars-snoc buf' n.ntty_ckdtail (rawbuf_size n) v.ckdtail, kept, last),
      chars-update n.ntty_inbuf n.ntty_rhead (ckdbuf_size n) n.ntty_rawtail c v.rhead v.rawtail
          (ground (arith, v.rhead, v.rawtail, v.ckdtail, v.room)),
      record {
        rhead = v.rhead;
        rawtail = omega arith;
        ckdtail = v.ckdtail;
        room = ground (arith, v.rhead, v.rawtail, v.ckdtail, v.room);
      },
      refl,
    )

pub remove_last-raw :
    (n : NTtyState)
    → IsValid n
    → rawbuf_empty n ≡ false
    → (n' : NTtyState) × (rawbuf_remove_last n ≡ done n')
      × ((c : ℕ) × (raw n ≡ raw n' ++ c ∷ []))
      × (cooked n' ≡ cooked n)
      × IsValid n'
unfolding rawbuf_empty rawbuf_remove_last cooked raw ckdbuf_size rawbuf_size
remove_last-raw n v e =
    let less : rawbuf_size n
        ≡ suc ((((n.ntty_rawtail + 128 - 1) % 128) + 128 - n.ntty_ckdtail) % 128) =
      ground (arith, v.rhead, v.rawtail, v.ckdtail, v.room) in
    (
      record n { ntty_rawtail = (n.ntty_rawtail + tty_buf_size - 1) % tty_buf_size },
      ground arith,
      (
        n.ntty_inbuf (
            (n.ntty_ckdtail + (((n.ntty_rawtail + 128 - 1) % 128) + 128 - n.ntty_ckdtail) % 128)
            % 128),
        rw less (
            chars-snoc n.ntty_inbuf n.ntty_ckdtail
              ((((n.ntty_rawtail + 128 - 1) % 128) + 128 - n.ntty_ckdtail) % 128) v.ckdtail),
      ),
      refl,
      record {
        rhead = v.rhead;
        rawtail = omega arith;
        ckdtail = v.ckdtail;
        room = ground (arith, v.rhead, v.rawtail, v.ckdtail, v.room);
      },
    )

pub cook-cooked :
    (n : NTtyState)
    → IsValid n
    → (cooked (rawbuf_cook n) ≡ cooked n ++ raw n)
      × (raw (rawbuf_cook n) ≡ [])
      × IsValid (rawbuf_cook n)
unfolding rawbuf_cook cooked raw ckdbuf_size rawbuf_size
cook-cooked n v =
    let all : (n.ntty_rawtail + 128 - n.ntty_rhead) % 128 ≡ ckdbuf_size n + rawbuf_size n =
      ground (arith, v.rhead, v.rawtail, v.ckdtail, v.room) in
    let next : (n.ntty_rhead + ckdbuf_size n) % 128 ≡ n.ntty_ckdtail =
      ground (arith, v.rhead, v.rawtail, v.ckdtail, v.room) in
    let nothing : (n.ntty_rawtail + 128 - n.ntty_rawtail) % 128 ≡ 0 = omega arith in
    (
      rw all (
          chars-append n.ntty_inbuf n.ntty_rhead (ckdbuf_size n) (rawbuf_size n) v.rhead
          ∙ ap
              (λ j.
                chars n.ntty_inbuf n.ntty_rhead (ckdbuf_size n)
                ++ chars n.ntty_inbuf j (rawbuf_size n))
              next),
      ap (chars n.ntty_inbuf n.ntty_rawtail) nothing,
      record {
        rhead = v.rhead;
        rawtail = v.rawtail;
        ckdtail = v.rawtail;
        room = ground (arith, v.rhead, v.rawtail, v.ckdtail, v.room);
      },
    )

pub dequeue-cooked :
    (n : NTtyState)
    → IsValid n
    → ckdbuf_empty n ≡ false
    → let (c, n') = ckdbuf_dequeue n in (cooked n ≡ c ∷ cooked n') × (raw n' ≡ raw n) × IsValid n'
unfolding ckdbuf_dequeue ckdbuf_empty cooked raw ckdbuf_size rawbuf_size chars
dequeue-cooked n v e =
    let more : ckdbuf_size n ≡ suc ((n.ntty_ckdtail + 128 - ((n.ntty_rhead + 1) % 128)) % 128) =
      ground (arith, v.rhead, v.rawtail, v.ckdtail, v.room) in
    (
      rw more refl,
      refl,
      record {
        rhead = omega arith;
        rawtail = v.rawtail;
        ckdtail = v.ckdtail;
        room = ground (arith, v.rhead, v.rawtail, v.ckdtail, v.room);
      },
    )

pub cook_keeps_waitq : (n : NTtyState) → (rawbuf_cook n).ntty_rwaitq ≡ n.ntty_rwaitq
unfolding rawbuf_cook
cook_keeps_waitq n = refl

pub ckdbuf_empty-cooked : (n : NTtyState) → IsValid n → ckdbuf_empty n ≡ true → cooked n ≡ []
unfolding ckdbuf_empty cooked ckdbuf_size chars
ckdbuf_empty-cooked n v e =
    let nothing : (n.ntty_ckdtail + 128 - n.ntty_rhead) % 128 ≡ 0 = ground (arith, v.rhead) in
    rw nothing
