-- ===== src/Strings.antt =====
-- The comparison of C strings in weenix.assign2/kernel/util/string.c. Memory is a function from
-- addresses to bytes, and what the functions return in a `signed char` is given by its eight bits.
pub mod Compare
pub mod Examples
use usc_homeworks.Base.{
  ℕ, zero, suc, ◌+◌, ◌-◌, ◌%◌, Bool, not, ◌||◌, ◌==◌, if◌then◌else◌, Run, done, fault, out_of_fuel,
}

abbrev pub Bytes : Type 0
Bytes = ℕ → ℕ

-- The difference of two characters, cut to a `signed char`.
abbrev pub char_diff : ℕ → ℕ → ℕ
char_diff c d = (c + 256 - d) % 256

unfoldable pub strcmp : ℕ → Bytes → ℕ → ℕ → Run ℕ
strcmp zero m cs ct = out_of_fuel
strcmp (suc k) m cs ct =
    let res = char_diff (m cs) (m ct) in
    let rest = strcmp k m (cs + 1) (ct + 1) in
    if not (res == 0) || (m cs == 0) then done res else rest

-- `strncmp` goes by its count; when that is used up, the last difference was 0.
unfoldable pub strncmp : ℕ → Bytes → ℕ → ℕ → ℕ
strncmp zero m cs ct = 0
strncmp (suc count) m cs ct =
    let res = char_diff (m cs) (m ct) in
    let rest = strncmp count m (cs + 1) (ct + 1) in
    if not (res == 0) || (m cs == 0) then res else rest
