-- ===== src/Kshell/Tokens.antt =====
-- What `kshell_next_token` of weenix.assign2/kernel/test/kshell/tokenizer.c finds, and what it returns.
use usc_homeworks.Base.{
  ℕ, suc, ◌+◌, ◌≡◌, Bool, true, false, not, List, [], ◌∷◌, ◌++◌, ◌==◌, if◌then◌else◌, arith, refl,
  length, All,
}
use usc_homeworks.Kshell.{
  ktt_word, ktt_redirect_in, less, greater, isspace, skip_space, word_length, token_at,
  kshell_next_token,
}

abbrev pub IsBlank : List ℕ → Type 0
IsBlank cs = All (λ c. isspace c ≡ true) cs

-- Neither a space nor a redirection.
abbrev pub is_plain : ℕ → Bool
is_plain c =
    if isspace c then false else if c == less then false else if c == greater then false else true

abbrev pub IsWord : List ℕ → Type 0
IsWord cs = All (λ c. is_plain c ≡ true) cs

-- A line ends, or goes on with a character that is in no word.
abbrev pub ends : List ℕ → Bool
ends [] = true
ends (c ∷ cs) = not (is_plain c)

skip_space-blank :
    (ws cs : List ℕ) (c : ℕ)
    → IsBlank ws
    → isspace c ≡ false
    → skip_space (ws ++ c ∷ cs) ≡ (length ws, c ∷ cs)
unfolding skip_space
skip_space-blank [] cs c b e = rw e
skip_space-blank (w ∷ ws) cs c b e =
    let one_more : length ws + 1 ≡ suc (length ws) = omega arith in
    rw (b.0, skip_space-blank ws cs c b.1 e, one_more)

word_length-ends : (rest : List ℕ) → ends rest ≡ true → word_length rest ≡ 0
unfolding word_length
word_length-ends [] e = refl
word_length-ends (c ∷ cs) e = ground arith

word_length-word :
    (word rest : List ℕ) → IsWord word → ends rest ≡ true → word_length (word ++ rest) ≡ length word
unfolding word_length
word_length-word [] rest w e = word_length-ends rest e
word_length-word (c ∷ cs) rest w e = ground (arith, word_length-word cs rest w.1 e, w.0)

-- A word after any number of blanks, and before the end of the line or a character that is in no
-- word, is found where it stands and whole, and the return value counts the blanks and the word.
pub word_token :
    (ws word rest : List ℕ) (c : ℕ)
    → IsBlank ws
    → IsWord (c ∷ word)
    → ends rest ≡ true
    → kshell_next_token (ws ++ c ∷ (word ++ rest)) ≡ (
      record { kt_type = ktt_word; kt_text = length ws; kt_textlen = length (c ∷ word) },
      length ws + length (c ∷ word),
    )
unfolding kshell_next_token token_at
word_token ws word rest c b w e =
    let no_space : isspace c ≡ false = ground (arith, w.0) in
    let no_less : (c == less) ≡ false = ground (arith, w.0) in
    let no_greater : (c == greater) ≡ false = ground (arith, w.0) in
    rw (
      skip_space-blank ws (word ++ rest) c b no_space,
      no_less,
      no_greater,
      word_length-word (c ∷ word) rest w e,
    )

-- A redirection of the input after any number of blanks is found where it stands, but the return
-- value is 1, however many blanks were skipped.
pub redirect_token :
    (ws rest : List ℕ)
    → IsBlank ws
    → kshell_next_token (ws ++ less ∷ rest)
      ≡ (record { kt_type = ktt_redirect_in; kt_text = length ws; kt_textlen = 1 }, 1)
unfolding kshell_next_token token_at
redirect_token ws rest b = rw (skip_space-blank ws rest less b (unfold isspace in refl))
