-- ===== src/Scan/Words.antt =====
-- How `sscanf` takes words that were printed with a space in front of each.
use os_lab.Prelude.{
  ℕ, zero, suc, ◌≤◌, ◌≡◌, refl, true, false, List, [], ◌∷◌, ◌++◌, some, Bytes, length, All,
  All-append, arith,
}
use os_lab.Scan.{is_white, skip_white, take_word, scan_word, scan_words}

-- A word that a directive of a width takes whole.
abbrev pub IsWord : ℕ → Bytes → Type 0
IsWord width [] = ⊥
IsWord width (b ∷ word) = (length (b ∷ word) ≤ width) × All (λ c. is_white c ≡ false) (b ∷ word)

-- Where a word ends: at white space or at the end.
abbrev pub Ends : Bytes → Type 0
Ends [] = Unit
Ends (b ∷ text) = is_white b ≡ true

take_word-plain :
    (width : ℕ) (word rest : Bytes)
    → length word ≤ width
    → All (λ b. is_white b ≡ false) word
    → Ends rest
    → take_word width (word ++ rest) ≡ (word, rest)
unfolding take_word
take_word-plain zero [] rest fits solid ends = refl
take_word-plain zero (b ∷ word) rest fits solid ends = absurd (omega arith)
take_word-plain (suc width) [] [] fits solid ends = refl
take_word-plain (suc width) [] (b ∷ rest) fits solid ends = rw ends
take_word-plain (suc width) (b ∷ word) rest fits (clear, solid) ends =
    rw (clear, take_word-plain width word rest (omega arith) solid ends)

skip_white-plain :
    (b : ℕ) (text : Bytes) → is_white b ≡ false → skip_white (32 ∷ b ∷ text) ≡ b ∷ text
unfolding skip_white
skip_white-plain b text clear = rw clear

-- A word behind one space is matched, up to where it ends.
pub scan_word-IsWord :
    (width : ℕ) (word rest : Bytes)
    → IsWord width word
    → Ends rest
    → scan_word width (32 ∷ word ++ rest) ≡ some (word, rest)
unfolding scan_word
scan_word-IsWord width (b ∷ word) rest (fits, solid) ends =
    let start = skip_white-plain b (word ++ rest) solid.0 in
    let taken = take_word-plain width (b ∷ word) rest fits solid ends in rw (start, taken) refl
scan_word-IsWord width [] rest h ends = elim h [ ]

-- The words of a text that `printf` wrote with a space in front of each.
abbrev pub spaced : List Bytes → Bytes → Bytes
spaced [] rest = rest
spaced (word ∷ words) rest = 32 ∷ word ++ spaced words rest

abbrev pub AreWords : List ℕ → List Bytes → Type 0
AreWords [] [] = Unit
AreWords (width ∷ widths) (word ∷ words) = IsWord width word × AreWords widths words
AreWords _ _ = ⊥

Ends-spaced : (words : List Bytes) (rest : Bytes) → Ends rest → Ends (spaced words rest)
Ends-spaced [] rest ends = ends
Ends-spaced (word ∷ words) rest ends = refl

-- Words that fit their directives are read back as they were written.
pub scan_words-spaced :
    (widths : List ℕ) (words : List Bytes) (rest : Bytes)
    → AreWords widths words
    → Ends rest
    → scan_words widths (spaced words rest) ≡ (words, rest)
unfolding scan_words
scan_words-spaced [] [] rest fit ends = refl
scan_words-spaced (width ∷ widths) (word ∷ words) rest (fits, fit) ends =
    let one = scan_word-IsWord width word (spaced words rest) fits (Ends-spaced words rest ends) in
    let others = scan_words-spaced widths words rest fit ends in rw one (rw others refl)
scan_words-spaced [] (word ∷ words) rest fit ends = elim fit [ ]
scan_words-spaced (width ∷ widths) [] rest fit ends = elim fit [ ]

pub All-spaced :
    (P : ℕ → Type 0) (words : List Bytes) (rest : Bytes)
    → P 32
    → All (All P) words
    → All P rest
    → All P (spaced words rest)
All-spaced P [] rest space all last = last
All-spaced P (word ∷ words) rest space (first, all) last =
    (space, All-append P word (spaced words rest) first (All-spaced P words rest space all last))
