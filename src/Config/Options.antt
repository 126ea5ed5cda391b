-- ===== src/Config/Options.antt =====
-- What a line of the configuration file sets, for src/config.c.
use mathlib.Core.Path.{subst}
use os_lab.Prelude.{
  ℕ, ◌≡◌, refl, ap, ap₂, sym, ◌∙◌, Bool, true, false, [], ◌∷◌, ◌++◌, Bytes, codes, All, All-append,
  str_eq, str_eq_iff, strncpy, arith, inl, inr, Bool-cases,
}
use os_lab.Config.{
  Config, is_blank, is_space, is_equals, is_line_end, drop_blank, cons_unless_space, drop_spaces,
  set_option, skipped, keep_first, trim_whitespace, read_line,
}
use os_lab.Config.Lines.{IsPlain, shown-append, read_line-tokens}

-- Blanks and tabs around a key or a value.
abbrev pub IsPad : Bytes → Type 0
IsPad = All (λ b. is_blank b ≡ true)

abbrev StartsSharp : Bytes → Type 0
StartsSharp [] = ⊥
StartsSharp (b ∷ text) = is_blank b ≡ false

abbrev EndsSharp : Bytes → Type 0
EndsSharp [] = ⊥
EndsSharp (b ∷ []) = is_space b ≡ false
EndsSharp (b ∷ c ∷ text) = EndsSharp (c ∷ text)

-- A word: some bytes, none of them `=` or the end of a line, the first not a blank and the last not a
-- space.
pub record IsWord (text : Bytes) : Type 0 where
  pub plain : IsPlain text
  pub starts : StartsSharp text
  pub ends : EndsSharp text

-- What the configuration becomes by `key=value`.
pub data Sets (c : Config) (key value : Bytes) : Config → Type 0 where
  persistence :
      (on : Bool)
      → key ≡ codes "use_persistent_storage"
      → str_eq value (codes "1") ≡ on
      → Sets c key value (record {
        use_persistent_storage = on;
        storage_path = c.storage_path;
        database_file = c.database_file;
      })
  path :
      key ≡ codes "storage_path"
      → Sets c key value (record {
        use_persistent_storage = c.use_persistent_storage;
        storage_path = strncpy 512 value;
        database_file = c.database_file;
      })
  database :
      key ≡ codes "database_file"
      → Sets c key value (record {
        use_persistent_storage = c.use_persistent_storage;
        storage_path = c.storage_path;
        database_file = strncpy 512 value;
      })
  ignored :
      str_eq key (codes "use_persistent_storage") ≡ false
      → str_eq key (codes "storage_path") ≡ false
      → str_eq key (codes "database_file") ≡ false
      → Sets c key value c

drop_spaces-pad : (pad : Bytes) → IsPad pad → drop_spaces pad ≡ []
unfolding drop_spaces
drop_spaces-pad [] all = refl
drop_spaces-pad (b ∷ pad) (blank, all) =
    let space : is_space b ≡ true = ground arith in
    ap (cons_unless_space b) (drop_spaces-pad pad all) ∙ rw space refl

drop_spaces-word :
    (text pad : Bytes) → EndsSharp text → IsPad pad → drop_spaces (text ++ pad) ≡ text
unfolding drop_spaces
drop_spaces-word [] pad ends all = elim ends [ ]
drop_spaces-word (b ∷ []) pad ends all =
    ap (cons_unless_space b) (drop_spaces-pad pad all) ∙ rw ends refl
drop_spaces-word (b ∷ c ∷ text) pad ends all =
    ap (cons_unless_space b) (drop_spaces-word (c ∷ text) pad ends all)

drop_blank-pad : (pad text : Bytes) → IsPad pad → StartsSharp text → drop_blank (pad ++ text) ≡ text
unfolding drop_blank
drop_blank-pad [] [] all starts = elim starts [ ]
drop_blank-pad [] (b ∷ text) all starts = rw starts refl
drop_blank-pad (b ∷ pad) text (blank, all) starts = rw blank (drop_blank-pad pad text all starts)

-- The words with blanks around them are trimmed to themselves.
trim_whitespace-word :
    (front text back : Bytes)
    → IsPad front
    → IsWord text
    → IsPad back
    → trim_whitespace (front ++ (text ++ back)) ≡ text
unfolding trim_whitespace
trim_whitespace-word front [] back before word behind = elim word.starts [ ]
trim_whitespace-word front (b ∷ []) back before word behind =
    ap keep_first (drop_blank-pad front (b ∷ back) before word.starts)
    ∙ ap (◌∷◌ b) (drop_spaces-pad back behind)
trim_whitespace-word front (b ∷ c ∷ text) back before word behind =
    ap keep_first (drop_blank-pad front (b ∷ c ∷ (text ++ back)) before word.starts)
    ∙ ap (◌∷◌ b) (drop_spaces-word (c ∷ text) back word.ends behind)

-- A byte that is neither `=` nor the end of a line.
abbrev Clear : ℕ → Type 0
Clear b = (is_equals b ≡ false) × (is_line_end b ≡ false)

pad-Clear : (pad : Bytes) → IsPad pad → All Clear pad
pad-Clear [] all = tt
pad-Clear (b ∷ pad) (blank, all) = ((ground arith, ground arith), pad-Clear pad all)

plain-All : (text : Bytes) → IsPlain text → All Clear text
plain-All [] none_there = elim none_there [ ]
plain-All (b ∷ text) all = all

All-IsPlain : (b : ℕ) (text : Bytes) → All Clear (b ∷ text) → IsPlain (b ∷ text)
All-IsPlain b text all = all

padded-IsPlain :
    (front text back : Bytes)
    → IsPad front
    → IsPlain text
    → IsPad back
    → IsPlain (front ++ (text ++ back))
padded-IsPlain front [] back before plain behind = elim plain [ ]
padded-IsPlain [] (b ∷ text) back before plain behind =
    All-append Clear (b ∷ text) back plain (pad-Clear back behind)
padded-IsPlain (a ∷ front) (b ∷ text) back before plain behind =
    All-append Clear (a ∷ front) (b ∷ (text ++ back)) (pad-Clear (a ∷ front) before)
      (All-append Clear (b ∷ text) back plain (pad-Clear back behind))

padded-shown :
    (front text back : Bytes)
    → IsPad front
    → skipped text ≡ false
    → skipped (front ++ (text ++ back)) ≡ false
padded-shown [] text back before shown = shown-append text back shown
padded-shown (a ∷ front) text back (blank, before) shown = ground arith

set_option-Sets : (c : Config) (key value : Bytes) → Sets c key value (set_option c key value)
set_option-Sets c key value = elim (Bool-cases (str_eq key (codes "use_persistent_storage"))) [
  | inl hit ↦ rw hit (persistence _ ((str_eq_iff key _).0 hit) refl)
  | inr no_flag ↦ elim (Bool-cases (str_eq key (codes "storage_path"))) [
    | inl hit ↦ rw (no_flag, hit) (path ((str_eq_iff key _).0 hit))
    | inr no_path ↦ elim (Bool-cases (str_eq key (codes "database_file"))) [
      | inl hit ↦ rw (no_flag, no_path, hit) (database ((str_eq_iff key _).0 hit))
      | inr no_file ↦ rw (no_flag, no_path, no_file) (ignored no_flag no_path no_file)
    ]
  ]
]

-- A line `key=value` with any blanks and tabs around the key and around the value: a word for a key that
-- does not start a comment, and a word for a value. The key `use_persistent_storage` sets the storage
-- to be persistent exactly if the value is `1`; `storage_path` and `database_file` set that text to
-- the value, as far as it fits; each leaves the other options as they were, and any other key
-- changes nothing.
pub read_line-option :
    (c : Config) (a key b d value e : Bytes)
    → IsPad a
    → IsWord key
    → IsPad b
    → IsPad d
    → IsWord value
    → IsPad e
    → skipped key ≡ false
    → Sets c key value (read_line c (((a ++ (key ++ b)) ++ 61 ∷ (d ++ (value ++ e))) ++ 10 ∷ []))
read_line-option c a key b d value e pa wk pb pd wv pe shown =
    let cut =
      read_line-tokens c (a ++ (key ++ b)) (d ++ (value ++ e))
        (padded-IsPlain a key b pa wk.plain pb) (padded-IsPlain d value e pd wv.plain pe)
        (padded-shown a key b pa shown) in
    let trimmed =
      ap₂ (set_option c) (trim_whitespace-word a key b pa wk pb)
        (trim_whitespace-word d value e pd wv pe) in
    subst (Sets c key value) (sym (cut ∙ trimmed)) (set_option-Sets c key value)
