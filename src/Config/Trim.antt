-- ===== src/Config/Trim.antt =====
-- What trim_whitespace of src/config.c takes away.
use mathlib.Core.List.{append-nil}
use os_lab.Prelude.{
  ℕ, ◌≡◌, refl, sym, ap, ◌∙◌, true, false, [], ◌∷◌, ◌++◌, Bytes, All, inl, inr, Bool-cases,
}
use os_lab.Config.{
  is_blank, is_space, drop_blank, drop_spaces, cons_unless_space, keep_first, trim_whitespace,
}

record Cut (text kept : Bytes) : Type 0 where
  taken : Bytes
  same : text ≡ kept ++ taken
  all : All (λ b. is_space b ≡ true) taken

Cut-cons : (b : ℕ) (text kept : Bytes) → Cut text kept → Cut (b ∷ text) (cons_unless_space b kept)
Cut-cons b text (c ∷ kept) cut = record {
  taken = cut.taken;
  same = ap (◌∷◌ b) cut.same;
  all = cut.all;
}
Cut-cons b text [] cut = elim (Bool-cases (is_space b)) [
  | inl space ↦
      rw space
        (record { taken = b ∷ cut.taken; same = ap (◌∷◌ b) cut.same; all = (space, cut.all) })
  | inr solid ↦ rw solid (record { taken = cut.taken; same = ap (◌∷◌ b) cut.same; all = cut.all })
]

drop_spaces-Cut : (text : Bytes) → Cut text (drop_spaces text)
unfolding drop_spaces
drop_spaces-Cut [] = record { taken = []; same = refl; all = tt }
drop_spaces-Cut (b ∷ text) = Cut-cons b text (drop_spaces text) (drop_spaces-Cut text)

cons-settled :
    (b : ℕ) (kept : Bytes)
    → drop_spaces kept ≡ kept
    → drop_spaces (cons_unless_space b kept) ≡ cons_unless_space b kept
unfolding drop_spaces
cons-settled b (c ∷ kept) same = rw same refl
cons-settled b [] same = elim (Bool-cases (is_space b)) [
  | inl space ↦ rw space refl
  | inr solid ↦ rw solid (rw solid refl)
]

drop_spaces-settled : (text : Bytes) → drop_spaces (drop_spaces text) ≡ drop_spaces text
unfolding drop_spaces
drop_spaces-settled [] = refl
drop_spaces-settled (b ∷ text) = cons-settled b (drop_spaces text) (drop_spaces-settled text)

-- How the blanks in front of a text are dropped.
data Led (text : Bytes) : Bytes → Type 0 where
  all_blank : All (λ b. is_blank b ≡ true) text → Led text []
  starts :
      (front : Bytes) (b : ℕ) (rest : Bytes)
      → text ≡ front ++ b ∷ rest
      → All (λ c. is_blank c ≡ true) front
      → is_blank b ≡ false
      → Led text (b ∷ rest)

Led-cons : (b : ℕ) (text kept : Bytes) → is_blank b ≡ true → Led text kept → Led (b ∷ text) kept
Led-cons b text [] blank (all_blank all) = all_blank (blank, all)
Led-cons b text (c ∷ rest) blank (starts front _ _ same all solid) =
    starts (b ∷ front) c rest (ap (◌∷◌ b) same) (blank, all) solid

drop_blank-Led : (text : Bytes) → Led text (drop_blank text)
unfolding drop_blank
drop_blank-Led [] = all_blank tt
drop_blank-Led (b ∷ text) = elim (Bool-cases (is_blank b)) [
  | inl blank ↦ rw blank (Led-cons b text (drop_blank text) blank (drop_blank-Led text))
  | inr solid ↦ rw solid (starts [] b text refl tt solid)
]

-- The kept text stands in the string between blanks and white space, and trimming it again changes
-- nothing.
pub record Trims (str kept : Bytes) : Type 0 where
  pub front : Bytes
  pub back : Bytes
  pub same : str ≡ front ++ (kept ++ back)
  pub front_blank : All (λ b. is_blank b ≡ true) front
  pub back_space : All (λ b. is_space b ≡ true) back
  pub settled : trim_whitespace kept ≡ kept

Led-Trims : (str kept : Bytes) → Led str kept → Trims str (keep_first kept)
unfolding trim_whitespace drop_blank
Led-Trims str [] (all_blank all) = record {
  front = str;
  back = [];
  same = sym (append-nil str);
  front_blank = all;
  back_space = tt;
  settled = refl;
}
Led-Trims str (b ∷ rest) (starts front _ _ same all solid) =
    let cut = drop_spaces-Cut rest in
    record {
      front = front;
      back = cut.taken;
      same = same ∙ ap (λ x. front ++ b ∷ x) cut.same;
      front_blank = all;
      back_space = cut.all;
      settled = rw solid (ap (◌∷◌ b) (drop_spaces-settled rest));
    }

-- Trimming takes blanks from the front and white space from the end of a string, and nothing else, and
-- leaves nothing more to take.
pub trim_whitespace-Trims : (str : Bytes) → Trims str (trim_whitespace str)
unfolding trim_whitespace
trim_whitespace-Trims str = Led-Trims str (drop_blank str) (drop_blank-Led str)
