-- ===== src/Kshell/Examples.antt =====
-- Runs of weenix.assign2/kernel/test/kshell/tokenizer.c.
use usc_homeworks.Base.{◌≡◌, [], ◌∷◌, refl}
use usc_homeworks.Kshell.{ktt_word, ktt_redirect_in, isspace, kshell_next_token}
use usc_homeworks.Kshell.Tokens.{word_token, redirect_token}

-- " ls <"
word_token_example :
    kshell_next_token (32 ∷ 108 ∷ 115 ∷ 32 ∷ 60 ∷ [])
    ≡ (record { kt_type = ktt_word; kt_text = 1; kt_textlen = 2 }, 3)
unfolding isspace
word_token_example =
    word_token (32 ∷ []) (115 ∷ []) (32 ∷ 60 ∷ []) 108 (refl, tt) (refl, (refl, tt)) refl

-- "  <f": the redirection stands at index 2.
redirect_token_example :
    kshell_next_token (32 ∷ 32 ∷ 60 ∷ 102 ∷ [])
    ≡ (record { kt_type = ktt_redirect_in; kt_text = 2; kt_textlen = 1 }, 1)
unfolding isspace
redirect_token_example = redirect_token (32 ∷ 32 ∷ []) (102 ∷ []) (refl, (refl, tt))
