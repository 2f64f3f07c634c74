-- ===== src/NTty/Receive.antt =====
-- `n_tty_receive_char` of weenix.assign2/kernel/drivers/tty/n_tty.c against the meaning of typing.
use usc_homeworks.Base.{
  ℕ, zero, suc, ◌≡◌, ◌≢◌, Bool, true, false, ◌&&◌, List, [], ◌∷◌, ◌==◌, if◌then◌else◌, drop, take,
  ◌++◌, ap, arith, refl, sym, ◌∙◌, done, fault, Bool-cases, inl, inr, append_assoc, ==_iff,
}
use mathlib.Core.List.{reverse, reverse-append, append-nil}
use usc_homeworks.Sched.{Tid, Kernel, QueueId, kt_runq, is_empty, sched_queue_empty}
use usc_homeworks.Sched.Invariant.{IsConsistent}
use usc_homeworks.Sched.Fifo.{line, wakeup_serves_first, list_of_line}
use usc_homeworks.NTty.{
  NTtyState, bs, lf, cr, space, eot, rawbuf_full, rawbuf_almost_full, rawbuf_empty, rawbuf_size,
  rawbuf_enqueue, rawbuf_cook, assert_valid, wake_reader, n_tty_receive_char,
}
use usc_homeworks.NTty.Ring.{
  IsValid, cooked, raw, chars, full_iff, almost_full_iff, enqueue-raw, remove_last-raw, cook-cooked,
  cook_keeps_waitq,
}
use usc_homeworks.NTty.Line.{
  held, is_erase, is_newline, is_plain, typed_echo, type_char, view, drop_last-snoc, is_empty-snoc,
}

pub assert_valid-IsValid : (n : NTtyState) → IsValid n → assert_valid n ≡ true
unfolding assert_valid
assert_valid-IsValid n v = ground (arith, v.rhead, v.rawtail, v.ckdtail)

is_empty-chars : (buf : ℕ → ℕ) (i k : ℕ) → is_empty (chars buf i k) ≡ (k == 0)
unfolding chars
is_empty-chars buf i zero = refl
is_empty-chars buf i (suc k) = ground arith

rawbuf_empty-raw : (n : NTtyState) → IsValid n → rawbuf_empty n ≡ is_empty (raw n)
unfolding rawbuf_empty raw chars rawbuf_size
rawbuf_empty-raw n v =
    rw (is_empty-chars n.ntty_inbuf n.ntty_ckdtail (rawbuf_size n))
      (ground (arith, v.rawtail, v.ckdtail))

line_of_list :
    (q : QueueId) (s : Kernel) (t : Tid) (rest : List Tid)
    → line q s ≡ t ∷ rest
    → sched_queue_empty q s ≡ false
unfolding sched_queue_empty
line_of_list q s t rest e = go (s.queue q).tq_list e
  where
    go : (ts : List Tid) → reverse ts ≡ t ∷ rest → is_empty ts ≡ false
    go [] e = cc
    go (x ∷ xs) e = refl

-- A newline makes the reader that came first ready, if any waits.
pub wake_reader_lem :
    (n : NTtyState) (q : QueueId) (s : Kernel)
    → n.ntty_rwaitq ≡ q
    → IsConsistent s
    → q ≢ kt_runq
    → (s' : Kernel) × (wake_reader n s ≡ done s')
      × IsConsistent s'
      × (line q s' ≡ drop 1 (line q s))
      × (line kt_runq s' ≡ line kt_runq s ++ take 1 (line q s))
      × (s'.curthr ≡ s.curthr)
unfolding wake_reader
wake_reader_lem n q s same c ne = go (line q s) refl
  where
    go :
        (ts : List Tid)
        → line q s ≡ ts
        → (s' : Kernel) × (wake_reader n s ≡ done s')
          × IsConsistent s'
          × (line q s' ≡ drop 1 ts)
          × (line kt_runq s' ≡ line kt_runq s ++ take 1 ts)
          × (s'.curthr ≡ s.curthr)
    go [] e = (
      s,
      unfold sched_queue_empty in rw (same, list_of_line q s e),
      c,
      e,
      sym (append-nil (line kt_runq s)),
      refl,
    )
    go (t ∷ ts) e =
        let w = wakeup_serves_first q s t ts c ne e in
        let queued : line kt_runq w.0 ≡ line kt_runq s ++ (t ∷ []) =
          ap reverse w.2.on_runq ∙ reverse-append (t ∷ []) (s.queue kt_runq).tq_list in
        (w.0, rw (same, line_of_list q s t ts e, w.1), w.2.consistent, w.3, queued, w.2.same_curthr)

-- What the line discipline did with a character: what it echoed, whether a reader was woken, and that
-- all is well then.
pub record IsReceived (n : NTtyState) (c : ℕ) (s : Kernel) : Type 0 where
  pub echo : List ℕ
  pub wakes : Bool
  pub after : NTtyState
  pub kernel : Kernel
  pub run : n_tty_receive_char n c s ≡ done (echo, after, kernel)
  pub typed : type_char c (view n) ≡ (echo, wakes, view after)
  pub valid : IsValid after
  pub consistent : IsConsistent kernel
  pub readers :
      line n.ntty_rwaitq kernel
      ≡ (if wakes then drop 1 (line n.ntty_rwaitq s) else line n.ntty_rwaitq s)
  pub runq :
      line kt_runq kernel ≡ line kt_runq s ++ (if wakes then take 1 (line n.ntty_rwaitq s) else [])
  pub same_curthr : kernel.curthr ≡ s.curthr

module _ (n : NTtyState) (c : ℕ) (s : Kernel) (v : IsValid n) (ok : IsConsistent s) where
  -- A character that changes nothing.
  ignored :
      n_tty_receive_char n c s ≡ done ([], n, s)
      → type_char c (view n) ≡ ([], false, view n)
      → IsReceived n c s
  ignored run typed = record {
    echo = [];
    wakes = false;
    after = n;
    kernel = s;
    run = run;
    typed = typed;
    valid = v;
    consistent = ok;
    readers = refl;
    runq = sym (append-nil (line kt_runq s));
    same_curthr = refl;
  }

  erased : is_erase c ≡ true → IsReceived n c s
  unfolding n_tty_receive_char type_char
  erased e = elim (Bool-cases (rawbuf_empty n)) [
    | inl empty ↦
        ignored (rw (assert_valid-IsValid n v, e, empty))
          (rw (e, sym (rawbuf_empty-raw n v) ∙ empty))
    | inr some_typed ↦
        let (n', run, (x, shorter), same, valid) = remove_last-raw n v some_typed in
        record {
          echo = bs ∷ space ∷ bs ∷ [];
          wakes = false;
          after = n';
          kernel = s;
          run = rw (assert_valid-IsValid n v, e, some_typed, run);
          typed = rw (e, shorter, is_empty-snoc (raw n') x, drop_last-snoc (raw n') x, same);
          valid = valid;
          consistent = ok;
          readers = refl;
          runq = sym (append-nil (line kt_runq s));
          same_curthr = refl;
        }
  ]

  -- A character that is put on the line that is typed.
  put_on :
      is_erase c ≡ false
      → is_newline c ≡ false
      → (c == eot) ≡ false
      → rawbuf_full n ≡ false
      → IsReceived n c s
  unfolding n_tty_receive_char type_char
  put_on e nl eo room = elim (Bool-cases (rawbuf_almost_full n)) [
    | inl no_room ↦
        let last_place : (held (view n) == 126) ≡ true = sym (almost_full_iff n v) ∙ no_room in
        ignored (rw (assert_valid-IsValid n v, e, nl, eo, no_room) (ground arith))
          (rw (e, nl, eo, last_place))
    | inr free ↦
        let places : (held (view n) == 126) ≡ false = sym (almost_full_iff n v) ∙ free in
        let (n', run, longer, same, valid, queue) = enqueue-raw n c v room in
        record {
          echo = typed_echo c;
          wakes = false;
          after = n';
          kernel = s;
          run = rw (assert_valid-IsValid n v, e, nl, eo, free, run) (ground arith);
          typed = rw (e, nl, eo, places, longer, same);
          valid = valid;
          consistent = ok;
          readers = refl;
          runq = sym (append-nil (line kt_runq s));
          same_curthr = refl;
        }
  ]

  module _ (own : n.ntty_rwaitq ≢ kt_runq) where
    ended : is_erase c ≡ false → is_newline c ≡ true → IsReceived n c s
    unfolding n_tty_receive_char type_char
    ended e nl = elim (Bool-cases (rawbuf_full n)) [
      | inl full ↦
          let no_place : (held (view n) == 127) ≡ true = sym (full_iff n v) ∙ full in
          ignored (rw (assert_valid-IsValid n v, e, nl, full) (ground arith)) (rw (e, nl, no_place))
      | inr room ↦
          let place : (held (view n) == 127) ≡ false = sym (full_iff n v) ∙ room in
          let (n', run, longer, same, valid, queue) = enqueue-raw n lf v room in
          let k = cook-cooked n' valid in
          let w =
            wake_reader_lem (rawbuf_cook n') n.ntty_rwaitq s (cook_keeps_waitq n' ∙ queue) ok own in
          record {
            echo = cr ∷ lf ∷ [];
            wakes = true;
            after = rawbuf_cook n';
            kernel = w.0;
            run = rw (assert_valid-IsValid n v, e, nl, room, run, w.1) (ground arith);
            typed =
                rw
                  (e, nl, place, k.0, k.1, longer, same, append_assoc (cooked n) (raw n) (lf ∷ []));
            valid = k.2;
            consistent = w.2;
            readers = w.3;
            runq = w.4;
            same_curthr = w.5;
          }
    ]

    -- The end of the input: what is typed can be read.
    cut : is_erase c ≡ false → is_newline c ≡ false → (c == eot) ≡ true → IsReceived n c s
    unfolding n_tty_receive_char type_char
    cut e nl eo =
        let k = cook-cooked n v in
        let w = wake_reader_lem (rawbuf_cook n) n.ntty_rwaitq s (cook_keeps_waitq n) ok own in
        record {
          echo = [];
          wakes = true;
          after = rawbuf_cook n;
          kernel = w.0;
          run = rw (assert_valid-IsValid n v, e, nl, eo, w.1) (ground arith);
          typed = rw (e, nl, eo, k.0, k.1);
          valid = k.2;
          consistent = w.2;
          readers = w.3;
          runq = w.4;
          same_curthr = w.5;
        }

left_false : (a b : Bool) → (a && b) ≡ false → b ≡ true → a ≡ false
left_false true b e f = cc
left_false false b e f = refl

-- In a valid buffer and a consistent kernel, where readers wait on a queue of their own, and while
-- the buffer is not full or the character does not go on the line: the line discipline does with a
-- character what typing means on lists. It echoes what it should; at the end of a line or of the input
-- the first reader in line, if there is one, leaves it and stands last in the line of ready threads,
-- and otherwise both lines stay. The current thread stays, no assertion fails, and the buffer stays valid and the kernel
-- consistent.
pub receive_char-IsReceived :
    (n : NTtyState) (c : ℕ) (s : Kernel)
    → IsValid n
    → IsConsistent s
    → n.ntty_rwaitq ≢ kt_runq
    → ((held (view n) == 127) && is_plain c) ≡ false
    → IsReceived n c s
receive_char-IsReceived n c s v ok own room = elim (Bool-cases (is_erase c)) [
  | inl e ↦ erased n c s v ok e
  | inr e ↦ elim (Bool-cases (is_newline c)) [
    | inl nl ↦ ended n c s v ok own e nl
    | inr nl ↦ elim (Bool-cases (c == eot)) [
      | inl eo ↦ cut n c s v ok own e nl eo
      | inr eo ↦
          put_on n c s v ok e nl eo
            (full_iff n v ∙ left_false (held (view n) == 127) (is_plain c) room (rw (e, nl, eo)))
    ]
  ]
]

-- In a valid buffer that holds 127 characters, a character that would go on the line makes the
-- kernel fail an assertion.
pub receive_char_panics :
    (n : NTtyState) (c : ℕ) (s : Kernel)
    → IsValid n
    → held (view n) ≡ 127
    → is_plain c ≡ true
    → n_tty_receive_char n c s ≡ fault
unfolding n_tty_receive_char rawbuf_enqueue
receive_char_panics n c s v h p =
    let full : rawbuf_full n ≡ true = full_iff n v ∙ (==_iff (held (view n)) 127).1 h in
    let not_almost : rawbuf_almost_full n ≡ false = almost_full_iff n v ∙ rw h in
    rw (assert_valid-IsValid n v, full, not_almost) (ground arith)
