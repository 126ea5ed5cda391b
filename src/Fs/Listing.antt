-- ===== src/Fs/Listing.antt =====
-- fs_list of src/fs.c.
use mathlib.Core.List.{append_assoc, append-nil}
use os_lab.Prelude.{
  ℕ, ◌-◌, ◌≤◌, ◌<◌, ◌≡◌, refl, sym, ap, ◌∙◌, List, [], ◌∷◌, ◌++◌, Bytes, some, ok, codes, snprintf,
  length, length-take, length-append, take, drop, take-append-drop, str_eq, ◌||◌, leb,
  if◌then◌else◌, arith, Bool-cases, inl, inr,
}
use os_lab.Fs.{list_loop, fs_list}

-- The text of a whole listing: a line for each entry but the two dots.
pub full_listing : List Bytes → Bytes
full_listing [] = []
full_listing (name ∷ names) =
    let rest = full_listing names in
    if str_eq name (codes ".") || str_eq name (codes "..") then rest else name ++ codes "\n" ++ rest

-- What the loop makes of a buffer that has room for one more byte at least: it never writes past the
-- buffer, and the listing begins with what it wrote; where the whole listing fits, it is all of it.
pub record Lists (buflen : ℕ) (whole written : Bytes) : Type 0 where
  pub rest : Bytes
  pub begins : written ++ rest ≡ whole
  pub inside : length written < buflen
  pub all_of_it : length whole < buflen → written ≡ whole

-- The line that does not fit is cut.
cut-Lists :
    (buflen : ℕ) (buf line rest : Bytes)
    → length buf < buflen
    → buflen - length buf ≤ length line
    → Lists buflen (buf ++ (line ++ rest)) (buf ++ snprintf (buflen - length buf) line)
cut-Lists buflen buf line rest h long =
    let k = buflen - length buf - 1 in
    let size = length-append buf (take k line) in
    let whole = length-append buf (line ++ rest) in
    record {
      rest = drop k line ++ rest;
      begins =
          append_assoc buf (take k line) (drop k line ++ rest)
          ∙ ap (λ t. buf ++ t)
              (sym (append_assoc (take k line) (drop k line) rest)
                ∙ ap (λ t. t ++ rest) (take-append-drop k line));
      inside = omega (arith, size, length-take k line);
      all_of_it = λ short. absurd (omega (arith, whole, length-append line rest));
    }

list_loop-Lists :
    (buflen : ℕ) (buf : Bytes) (names : List Bytes)
    → length buf < buflen
    → Lists buflen (buf ++ full_listing names) (list_loop buflen buf names)
unfolding list_loop full_listing
list_loop-Lists buflen buf [] h =
    rw (append-nil buf)
      (record { rest = []; begins = append-nil buf; inside = h; all_of_it = λ _. refl })
list_loop-Lists buflen buf (name ∷ names) h =
    elim (Bool-cases (str_eq name (codes ".") || str_eq name (codes ".."))) [
      | inl dots ↦ rw dots (list_loop-Lists buflen buf names h)
      | inr entry ↦
          let line = name ++ codes "\n" in
          elim (Bool-cases (leb (buflen - length buf) (length line))) [
            | inl cut ↦
                rw (entry, cut) (cut-Lists buflen buf line (full_listing names) h (ground arith))
            | inr fits ↦
                rw (entry, fits)
                  (rw (append_assoc buf line (full_listing names)) at (
                    list_loop-Lists buflen (buf ++ line) names
                      (ground (arith, length-append buf line))))
          ]
    ]

-- The listing is the text of all entries but the dots, a line each, cut where the buffer ends: the
-- buffer is never overrun, what is in it begins the whole text, and a whole text that fits is there.
pub fs_list_lem :
    (entries : List Bytes) (buflen errlen : ℕ)
    → 0 < buflen
    → (written : Bytes) × (fs_list (some entries) buflen errlen ≡ ok written)
      × Lists buflen (full_listing entries) written
unfolding fs_list
fs_list_lem entries buflen errlen h =
    (list_loop buflen [] entries, refl, list_loop-Lists buflen [] entries h)
