-- ===== src/NTty.antt =====
-- The line discipline of weenix.assign2/kernel/drivers/tty/n_tty.c: a ring buffer whose first part
-- holds cooked lines and whose second part holds the line that is being typed. A character is its
-- code. A read is modelled up to where its thread goes to sleep, and from where it runs again.
pub mod Ring
pub mod Line
pub mod Receive
pub mod Read
pub mod Examples
use usc_homeworks.Base.{
  ℕ, zero, suc, ◌+◌, ◌-◌, ◌%◌, Bool, true, false, not, ◌&&◌, ◌||◌, Option, none, some, List, [],
  ◌∷◌, ◌==◌, ltb, if◌then◌else◌, Run, done, fault, and_then,
}
use usc_homeworks.Sched.{
  Tid, QueueId, Kernel, update, is_none, sched_queue_init, sched_queue_empty, sched_wakeup_on,
  sched_cancellable_sleep_on, sleep_interrupted,
}
use usc_homeworks.Kmutex.{Kmutex, kmutex_init, kmutex_lock, kmutex_lock_resumed, kmutex_unlock}

abbrev pub tty_buf_size : ℕ
tty_buf_size = 128

abbrev pub bs : ℕ
bs = 8

abbrev pub del : ℕ
del = 127

abbrev pub esc : ℕ
esc = 27

abbrev pub lf : ℕ
lf = 10

abbrev pub cr : ℕ
cr = 13

abbrev pub space : ℕ
space = 32

abbrev pub eot : ℕ
eot = 4

-- `'^'`
abbrev pub caret : ℕ
caret = 94

-- `n_tty_t`; the buffer is a function from its indices.
pub record NTtyState : Type 0 where
  pub ntty_rlock : Kmutex
  pub ntty_rwaitq : QueueId
  pub ntty_inbuf : ℕ → ℕ
  pub ntty_rhead : ℕ
  pub ntty_rawtail : ℕ
  pub ntty_ckdtail : ℕ

unfoldable pub rawbuf_full : NTtyState → Bool
rawbuf_full n = n.ntty_rhead == (n.ntty_rawtail + 1) % tty_buf_size

unfoldable pub rawbuf_almost_full : NTtyState → Bool
rawbuf_almost_full n = n.ntty_rhead == (n.ntty_rawtail + 2) % tty_buf_size

unfoldable pub rawbuf_empty : NTtyState → Bool
rawbuf_empty n = n.ntty_rawtail == n.ntty_ckdtail

unfoldable pub rawbuf_size : NTtyState → ℕ
rawbuf_size n = (n.ntty_rawtail + tty_buf_size - n.ntty_ckdtail) % tty_buf_size

-- Both assertions are kept.
unfoldable pub rawbuf_enqueue : NTtyState → ℕ → Run NTtyState
rawbuf_enqueue n c =
    if rawbuf_full n
    then fault
    else if not (ltb n.ntty_rawtail tty_buf_size)
    then fault
    else done (record n {
      ntty_inbuf = update n.ntty_inbuf n.ntty_rawtail c;
      ntty_rawtail = (n.ntty_rawtail + 1) % tty_buf_size;
    })

-- `rawtail - 1 + 128` is written `rawtail + 128 - 1`, for `int` goes below 0 there.
unfoldable pub rawbuf_remove_last : NTtyState → Run NTtyState
rawbuf_remove_last n =
    if rawbuf_empty n
    then fault
    else done (record n { ntty_rawtail = (n.ntty_rawtail + tty_buf_size - 1) % tty_buf_size })

unfoldable pub rawbuf_cook : NTtyState → NTtyState
rawbuf_cook n = record n { ntty_ckdtail = n.ntty_rawtail }

unfoldable pub ckdbuf_empty : NTtyState → Bool
ckdbuf_empty n = n.ntty_ckdtail == n.ntty_rhead

unfoldable pub ckdbuf_size : NTtyState → ℕ
ckdbuf_size n = (n.ntty_ckdtail + tty_buf_size - n.ntty_rhead) % tty_buf_size

unfoldable pub ckdbuf_dequeue : NTtyState → ℕ × NTtyState
ckdbuf_dequeue n =
    (n.ntty_inbuf n.ntty_rhead, record n { ntty_rhead = (n.ntty_rhead + 1) % tty_buf_size })

-- `n_tty_attach` where `kmalloc` gives a buffer, with these contents; the queues of the mutex and of
-- the readers are given by their names.
unfoldable pub n_tty_attach : (ℕ → ℕ) → QueueId → QueueId → Kernel → Run (NTtyState × Kernel)
n_tty_attach buf lockq readq s =
    let (lock, s1) = kmutex_init lockq s in
    let s2 = sched_queue_init readq s1 in
    let n : NTtyState = record {
      ntty_rlock = lock;
      ntty_rwaitq = readq;
      ntty_inbuf = buf;
      ntty_rhead = 0;
      ntty_rawtail = 0;
      ntty_ckdtail = 0;
    } in
    if not (rawbuf_empty n)
    then fault
    else if rawbuf_full n
    then fault
    else if not (rawbuf_size n == 0)
    then fault
    else if not (ckdbuf_empty n)
    then fault
    else if not (ckdbuf_size n == 0)
    then fault
    else done (n, s2)

-- `N_TTY_ASSERT_VALID`, of what the model keeps.
unfoldable pub assert_valid : NTtyState → Bool
assert_valid n =
    ltb n.ntty_rhead tty_buf_size
    && (ltb n.ntty_rawtail tty_buf_size && ltb n.ntty_ckdtail tty_buf_size)

-- `if (!sched_queue_empty(q)) { thr = sched_wakeup_on(q); KASSERT(NULL != thr); }`
unfoldable pub wake_reader : NTtyState → Kernel → Run Kernel
wake_reader n s =
    if sched_queue_empty n.ntty_rwaitq s
    then done s
    else and_then (sched_wakeup_on n.ntty_rwaitq s) (λ r. if is_none r.0 then fault else done r.1)

-- The string of the one character, which is empty for the character 0.
abbrev pub echo_char : ℕ → List ℕ
echo_char c = if c == 0 then [] else c ∷ []

-- `n_tty_receive_char`: what is echoed, and the state then.
unfoldable pub n_tty_receive_char : NTtyState → ℕ → Kernel → Run (List ℕ × NTtyState × Kernel)
n_tty_receive_char n c s =
    if not (assert_valid n)
    then fault
    else if (c == bs) || (c == del)
    then (if not (rawbuf_empty n)
        then and_then (rawbuf_remove_last n) (λ n'. done (bs ∷ space ∷ bs ∷ [], n', s))
        else done ([], n, s))
    else if c == esc
    then (if rawbuf_almost_full n
        then done ([], n, s)
        else and_then (rawbuf_enqueue n c) (λ n'. done (caret ∷ [], n', s)))
    else if (c == cr) || (c == lf)
    then (if rawbuf_full n
        then done ([], n, s)
        else and_then (rawbuf_enqueue n lf) (λ n'.
          and_then (wake_reader (rawbuf_cook n') s)
            (λ s'. done (cr ∷ lf ∷ [], rawbuf_cook n', s'))))
    else if c == eot
    then and_then (wake_reader (rawbuf_cook n) s) (λ s'. done ([], rawbuf_cook n, s'))
    else (if rawbuf_almost_full n
        then done ([], n, s)
        else and_then (rawbuf_enqueue n c) (λ n'. done (echo_char c, n', s)))

unfoldable pub n_tty_process_char : ℕ → List ℕ
n_tty_process_char c = if (c == cr) || (c == lf) then cr ∷ lf ∷ [] else c ∷ []

-- The loop of `n_tty_read` with room for `k` characters: what is written to the buffer, by how much
-- `i` grows, and the state then.
unfoldable pub read_loop : ℕ → NTtyState → List ℕ × ℕ × NTtyState
read_loop zero n = ([], 0, n)
read_loop (suc k) n =
    let (c, n') = ckdbuf_dequeue n in
    let (cs, i, n'') = read_loop k n' in
    if ckdbuf_empty n
    then ([], 0, n)
    else if c == lf
    then (c ∷ [], 1, n')
    else if c == eot
    then (c ∷ [], 0, n')
    else (c ∷ cs, i + 1, n'')

-- How far a read got: its thread sleeps for the mutex or for characters, or it returns. `eintr` is
-- the return of `-EINTR`.
pub data ReadResult : Type 0 where
  waits_for_lock waits_for_chars : NTtyState → Kernel → ReadResult
  eintr : NTtyState → Kernel → ReadResult
  returned : List ℕ → ℕ → NTtyState → Kernel → ReadResult

-- From the loop on.
unfoldable pub finish_read : ℕ → NTtyState → Kernel → Run ReadResult
finish_read len n s =
    let (cs, i, n') = read_loop len n in
    and_then (kmutex_unlock n'.ntty_rlock s)
      λ r. done (returned cs i (record n' { ntty_rlock = r.0 }) r.1)

-- From where the mutex is held.
unfoldable pub read_locked : List QueueId → ℕ → NTtyState → Kernel → Run ReadResult
read_locked irqs len n s =
    if ckdbuf_empty n
    then and_then (sched_cancellable_sleep_on irqs n.ntty_rwaitq s) (λ r. elim r [
      | none ↦
          and_then (kmutex_unlock n.ntty_rlock s)
            λ u. done (eintr (record n { ntty_rlock = u.0 }) u.1)
      | some s' ↦ done (waits_for_chars n s')
    ])
    else finish_read len n s

-- Where a reader that was woken goes on: a cancelled one returns `-EINTR`.
unfoldable pub read_woken : ℕ → NTtyState → Kernel → Run ReadResult
read_woken len n s =
    if sleep_interrupted s
    then and_then (kmutex_unlock n.ntty_rlock s)
        (λ u. done (eintr (record n { ntty_rlock = u.0 }) u.1))
    else finish_read len n s

-- Where a reader goes on that slept for the mutex.
unfoldable pub read_got_lock : List QueueId → ℕ → NTtyState → Kernel → Run ReadResult
read_got_lock irqs len n s =
    and_then (kmutex_lock_resumed n.ntty_rlock s) λ r. read_locked irqs len n s

-- `n_tty_read`. Whether the lock made the thread sleep shows in that the mutex is held by another.
unfoldable pub n_tty_read : List QueueId → ℕ → NTtyState → Kernel → Run ReadResult
n_tty_read irqs len n s =
    if not (assert_valid n)
    then fault
    else and_then (kmutex_lock irqs n.ntty_rlock s) λ r.
      if is_none n.ntty_rlock.km_holder
      then read_locked irqs len (record n { ntty_rlock = r.0 }) r.1
      else done (waits_for_lock (record n { ntty_rlock = r.0 }) r.1)
