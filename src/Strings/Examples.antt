-- ===== src/Strings/Examples.antt =====
-- Comparisons of weenix.assign2/kernel/util/string.c at concrete strings.
use usc_homeworks.Base.{ℕ, ◌≡◌, ◌↔◌, get_or, List, [], ◌∷◌, done, arith, refl}
use usc_homeworks.Strings.{Bytes, strcmp, strncmp}
use usc_homeworks.Strings.Compare.{IsString, strcmp_equal}

-- The strings "ab" at 0 and "ac" at 3.
abbrev two_strings : Bytes
two_strings a = get_or (97 ∷ 98 ∷ 0 ∷ 97 ∷ 99 ∷ 0 ∷ []) a 0

abbrev ab : List ℕ
ab = 97 ∷ 98 ∷ []

abbrev ac : List ℕ
ac = 97 ∷ 99 ∷ []

first : IsString two_strings 0 ab
unfolding IsString
first = (refl, omega arith, omega arith, (refl, omega arith, omega arith, refl))

second : IsString two_strings 3 ac
unfolding IsString
second = (refl, omega arith, omega arith, (refl, omega arith, omega arith, refl))

strcmp_equal_example : (res : ℕ) × (strcmp 3 two_strings 0 3 ≡ done res) × ((res ≡ 0) ↔ (ab ≡ ac))
strcmp_equal_example = strcmp_equal 3 two_strings 0 3 ab ac (omega arith) first second

-- The difference of 98 and 99 is -1, in eight bits 255.
strcmp_run : strcmp 3 two_strings 0 3 ≡ done 255
unfolding strcmp
strcmp_run = refl

-- One character is not enough to tell them apart.
strncmp_run : strncmp 1 two_strings 0 3 ≡ 0
unfolding strncmp
strncmp_run = refl
