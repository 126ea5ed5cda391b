-- ===== src/ClientProgram/Download/Loop.antt =====
-- The loop of receive_file_data in src/client_program.c over the bytes of a file.
use mathlib.Core.List.{append_assoc, append-nil}
use os_lab.Prelude.{
  ℕ, zero, suc, ◌+◌, ◌-◌, ◌≤◌, ◌<◌, ◌≡◌, refl, sym, ap, ◌∙◌, true, false, List, [], ◌∷◌, ◌++◌,
  Bytes, length, length-take, length-drop, take, drop, drop-drop, take-drop, All, arith, ltb, ◌==◌,
  if◌then◌else◌,
}
use os_lab.ClientProgram.Download.{receive_loop}

-- The number of bytes that one call asks for, or gets.
abbrev smaller : ℕ → ℕ → ℕ
smaller a b = if ltb a b then a else b

record Step (size n : ℕ) (stream : Bytes) : Type 0 where
  k : ℕ
  is : k ≡ smaller size (if ltb 8192 (suc n) then 8192 else suc n)
  long : length (take k stream) ≡ k
  some_bytes : length (take k stream) == 0 ≡ false
  fits : k ≤ suc n
  positive : 0 < k

one-Step : (size n : ℕ) (stream : Bytes) → 0 < size → suc n ≤ length stream → Step size n stream
one-Step size n stream h there =
    let k = smaller size (if ltb 8192 (suc n) then 8192 else suc n) in
    let fits : k ≤ suc n = ground arith in
    let positive : 0 < k = ground arith in
    record {
      k = k;
      is = refl;
      long = omega (arith, length-take k stream);
      some_bytes = ground (arith, length-take k stream);
      fits = fits;
      positive = positive;
    }

-- The loop gets all that it wants, in the order of the stream, if every call gets a byte at least.
pub receive_loop-all :
    (sizes : List ℕ) (stream : Bytes) (n : ℕ) (out : Bytes)
    → All (λ size. 0 < size) sizes
    → n ≤ length sizes
    → n ≤ length stream
    → ((receive_loop sizes stream n out).1 ≡ drop n stream)
      × ((receive_loop sizes stream n out).2 ≡ out ++ take n stream)
      × ((receive_loop sizes stream n out).3 ≡ true)
unfolding receive_loop
receive_loop-all sizes stream zero out sized calls there = (refl, sym (append-nil out), refl)
receive_loop-all [] stream (suc n) out sized calls there = absurd (omega arith)
receive_loop-all (size ∷ sizes) stream (suc n) out (first, sized) calls there =
    let s = one-Step size n stream first there in
    let rest = length-drop s.k stream in
    let (left, written, done) =
      receive_loop-all sizes (drop s.k stream) (suc n - s.k) (out ++ take s.k stream) sized
        (omega (arith, s.positive)) (omega (arith, s.fits)) in
    let whole : s.k + (suc n - s.k) ≡ suc n = omega (arith, s.fits) in
    rw (← s.is, s.some_bytes, s.long)
      (
        left ∙ drop-drop s.k (suc n - s.k) stream ∙ ap (λ m. drop m stream) whole,
        written
            ∙ append_assoc out (take s.k stream) (take (suc n - s.k) (drop s.k stream))
            ∙ ap (◌++◌ out) (take-drop s.k (suc n - s.k) stream ∙ ap (λ m. take m stream) whole),
        done,
      )

take-nil : (k : ℕ) → take {A = ℕ} k [] ≡ []
take-nil zero = refl
take-nil (suc k) = refl

-- A loop that gets nothing.
pub starved :
    (sizes : List ℕ) (n : ℕ)
    → 0 < n
    → ((receive_loop sizes [] n []).3 ≡ false) × ((receive_loop sizes [] n []).2 ≡ [])
unfolding receive_loop
starved [] (suc n) h = (refl, refl)
starved (size ∷ sizes) (suc n) h =
    rw (take-nil (smaller size (if ltb 8192 (suc n) then 8192 else suc n))) (refl, refl)
starved sizes zero h = absurd (omega arith)
