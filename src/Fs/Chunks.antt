-- ===== src/Fs/Chunks.antt =====
-- A file that is mapped buffer by buffer, each buffer by itself, as the copy loop of src/fs.c does.
use os_lab.Prelude.{
  ℕ, zero, suc, ◌≤◌, ◌<◌, ◌≡◌, ◌⊎◌, refl, [], ◌∷◌, ◌++◌, Bytes, AreBytes, All-take, All-drop,
  length, take, drop, length-append, length-take, length-drop, take-append-drop, drop_all,
  split_append, arith, leb, Bool-cases, inl, inr,
}

-- Every `n` bytes of `b` mapped by `f`; the fuel bounds the number of buffers.
pub chunk_map : ℕ → (Bytes → Bytes) → ℕ → Bytes → Bytes
chunk_map n f zero b = []
chunk_map n f (suc k) [] = []
chunk_map n f (suc k) (x ∷ b) = f (take n (x ∷ b)) ++ chunk_map n f k (drop n (x ∷ b))

module _ (n : ℕ) (f : Bytes → Bytes) where
  pub chunk_map-nil : (k : ℕ) → chunk_map n f k [] ≡ []
  unfolding chunk_map
  chunk_map-nil zero = refl
  chunk_map-nil (suc k) = refl

  -- One more buffer.
  pub chunk_map-step :
      (k : ℕ) (b : Bytes)
      → 0 < length b
      → chunk_map n f (suc k) b ≡ f (take n b) ++ chunk_map n f k (drop n b)
  unfolding chunk_map
  chunk_map-step k [] h = absurd (omega arith)
  chunk_map-step k (x ∷ b) h = refl

  module _ (pos : 0 < n) where
    pub chunk_map-fuel :
        (k m : ℕ) (b : Bytes) → length b ≤ k → length b ≤ m → chunk_map n f k b ≡ chunk_map n f m b
    chunk_map-fuel k m [] hk hm = rw (chunk_map-nil k, chunk_map-nil m)
    chunk_map-fuel zero m (x ∷ b) hk hm = absurd (omega arith)
    chunk_map-fuel (suc k) zero (x ∷ b) hk hm = absurd (omega arith)
    chunk_map-fuel (suc k) (suc m) (x ∷ b) hk hm =
        let left = length-drop n (x ∷ b) in
        rw (
          chunk_map-step k (x ∷ b) (omega arith),
          chunk_map-step m (x ∷ b) (omega arith),
          chunk_map-fuel k m (drop n (x ∷ b)) (omega arith) (omega arith),
        )

    module _ (same_length : (b : Bytes) → length (f b) ≡ length b) where
      pub length-chunk_map :
          (k : ℕ) (b : Bytes) → length b ≤ k → length (chunk_map n f k b) ≡ length b
      unfolding chunk_map
      length-chunk_map k [] h = rw (chunk_map-nil k)
      length-chunk_map zero (x ∷ b) h = absurd (omega arith)
      length-chunk_map (suc k) (x ∷ b) h =
          let left = length-drop n (x ∷ b) in
          rw (length-append (f (take n (x ∷ b))) (chunk_map n f k (drop n (x ∷ b)))) (
            omega (
              arith,
              left,
              length-take n (x ∷ b),
              same_length (take n (x ∷ b)),
              length-chunk_map k (drop n (x ∷ b)) (omega arith),
            ))

      -- The first buffer of the result is full, or there is no other.
      cut_cases :
          (k : ℕ) (b : Bytes)
          → (length (f (take n b)) ≡ n)
            ⊎ ((length (f (take n b)) ≤ n) × (chunk_map n f k (drop n b) ≡ []))
      cut_cases k b = elim (Bool-cases (leb n (length b))) [
        | inl full ↦ inl (ground (arith, same_length (take n b), length-take n b))
        | inr short ↦ inr (
          ground (arith, same_length (take n b), length-take n b),
          rw (drop_all n b (ground arith)) (chunk_map-nil k),
        )
      ]

-- Mapping the buffers of the result back, by a map that undoes `f` on each buffer of bytes.
module _ (n : ℕ) (f g : Bytes → Bytes) (pos : 0 < n)
    (same_length : (b : Bytes) → length (f b) ≡ length b)
    (undo : (b : Bytes) → AreBytes b → g (f b) ≡ b) where
  pub chunk_map-undone :
      (k : ℕ) (b : Bytes) → length b ≤ k → AreBytes b → chunk_map n g k (chunk_map n f k b) ≡ b
  chunk_map-undone k [] h v = rw (chunk_map-nil n f k, chunk_map-nil n g k)
  chunk_map-undone zero (x ∷ b) h v = absurd (omega arith)
  chunk_map-undone (suc k) (x ∷ b) h v =
      let t = take n (x ∷ b) in
      let d = drop n (x ∷ b) in
      let r = chunk_map n f k d in
      let (front, back) = split_append n (f t) r (cut_cases n f pos same_length k (x ∷ b)) in
      let size = length-take n (x ∷ b) in
      let left = length-drop n (x ∷ b) in
      let long : 0 < length (f t ++ r) = omega (arith, length-append (f t) r, same_length t) in
      rw
        (
          chunk_map-step n f k (x ∷ b) (omega arith),
          chunk_map-step n g k (f t ++ r) long,
          front,
          back,
          undo t (All-take _ n (x ∷ b) v),
          chunk_map-undone k d (omega arith) (All-drop _ n (x ∷ b) v),
        )
        (take-append-drop n (x ∷ b))
