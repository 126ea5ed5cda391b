-- ===== src/Fs/Copy.antt =====
-- The copy loop that fs_upload and fs_download_path of src/fs.c share.
use os_lab.Prelude.{
  ℕ, zero, suc, ◌+◌, ◌<◌, ◌≡◌, refl, sym, ap, ◌∙◌, Bool, true, false, [], ◌++◌, Option, some, Bytes,
  length, take, drop, inl, inr, length-take, length-drop, drop-drop, drop-length-take, arith, ◌==◌,
  Bool-cases, Option-cases, str_eq, str_eq_self,
}
use mathlib.Core.List.{append_assoc, append-nil}
use os_lab.Disk.{Disk, contents, contents-read, contents-cong, read, write, read-write}
use os_lab.Fs.{
  Calls, CopyEnd, copied, codec_failed, write_failed, read_failed, out_of_fuel, buffer_size,
  copy_loop, copy,
}
use os_lab.Fs.Chunks.{chunk_map, chunk_map-nil, chunk_map-step}

-- Every file but the one at `path` is the same on both disks.
abbrev pub Kept : Bytes → Disk → Disk → Type 0
Kept path d e = (q : Bytes) → str_eq path q ≡ false → read e q ≡ read d q

pub Kept-write : (d : Disk) (path b : Bytes) → Kept path d (write d path b)
Kept-write d path b q n = rw (read-write d path q b, n)

module _ (src dst : Bytes) (apart : str_eq dst src ≡ false) where
  same_contents : (d : Disk) (b : Bytes) → contents (write d dst b) src ≡ contents d src
  same_contents d b = contents-cong _ d src (Kept-write d dst b src apart)

  -- What the next round has left to read.
  moved :
      (d : Disk) (offset : ℕ) (b : Bytes)
      → drop
          (offset + length (take buffer_size (drop offset (contents d src))))
          (contents (write d dst b) src)
        ≡ drop buffer_size (drop offset (contents d src))
  moved d offset b =
      let rest = drop offset (contents d src) in
      rw (same_contents d b) (
        sym (drop-drop offset (length (take buffer_size rest)) (contents d src))
        ∙ drop-length-take buffer_size rest)

  -- It is less than this round had, if this round read something.
  shorter :
      (d : Disk) (offset fuel : ℕ) (b : Bytes)
      → length (drop offset (contents d src)) < suc fuel
      → (length (take buffer_size (drop offset (contents d src))) == 0) ≡ false
      → length (
          drop
            (offset + length (take buffer_size (drop offset (contents d src))))
            (contents (write d dst b) src))
        < fuel
  shorter d offset fuel b h more =
      let rest = drop offset (contents d src) in
      rw (moved d offset b)
        (ground (arith, length-drop buffer_size rest, length-take buffer_size rest))

-- What the loop does from a disk `d` whose target holds `w`, with `rest` left to read: it ends; the
-- other files are kept; and if it ends well the target holds `w` and the encoded rest.
abbrev pub Post : (Bytes → Bytes) → Bytes → Bytes → Bytes → Disk → ℕ → Disk × CopyEnd → Type 0
Post f dst w rest d fuel (e, copied) =
    (read e dst ≡ some (w ++ chunk_map buffer_size f fuel rest)) × Kept dst d e
Post f dst w rest d fuel (e, out_of_fuel) = ⊥
Post f dst w rest d fuel (e, _) = Kept dst d e

module _ (c : Calls) (codec : Bool → Bytes → Option Bytes) (f : Bytes → Bytes)
    (codec_gives : (a : Bool) (b b' : Bytes) → codec a b ≡ some b' → b' ≡ f b) (src dst : Bytes)
    (apart : str_eq dst src ≡ false) where
  Post-step :
      (w b rest : Bytes) (d : Disk) (fuel : ℕ) (r : Disk × CopyEnd)
      → 0 < length rest
      → b ≡ f (take buffer_size rest)
      → Post f dst (w ++ b) (drop buffer_size rest) (write d dst (w ++ b)) fuel r
      → Post f dst w rest d (suc fuel) r
  Post-step w b rest d fuel (e, copied) h same (held, kept) =
      let text : (w ++ b) ++ chunk_map buffer_size f fuel (drop buffer_size rest)
          ≡ w ++ chunk_map buffer_size f (suc fuel) rest =
        rw (chunk_map-step buffer_size f fuel rest h, same) (append_assoc w _ _) in
      (held ∙ ap some text, kept_back e kept)
    where
      kept_back : (e : Disk) → Kept dst (write d dst (w ++ b)) e → Kept dst d e
      kept_back e k q n = k q n ∙ Kept-write d dst (w ++ b) q n
  Post-step w b rest d fuel (e, out_of_fuel) h same p = p
  Post-step w b rest d fuel (e, codec_failed) h same p =
      λ q n. p q n ∙ Kept-write d dst (w ++ b) q n
  Post-step w b rest d fuel (e, write_failed) h same p =
      λ q n. p q n ∙ Kept-write d dst (w ++ b) q n
  Post-step w b rest d fuel (e, read_failed) h same p = λ q n. p q n ∙ Kept-write d dst (w ++ b) q n

  -- One round that reads, encodes and writes, and the rounds behind it.
  round-Post :
      (fuel : ℕ) (d : Disk) (offset : ℕ) (w b : Bytes)
      → 0 < length (drop offset (contents d src))
      → b ≡ f (take buffer_size (drop offset (contents d src)))
      → Post f dst
          (w ++ b)
          (drop
            (offset + length (take buffer_size (drop offset (contents d src))))
            (contents (write d dst (w ++ b)) src))
          (write d dst (w ++ b))
          fuel
          (copy_loop c codec src dst fuel
            (write d dst (w ++ b))
            (offset + length (take buffer_size (drop offset (contents d src)))))
      → Post f dst w (drop offset (contents d src)) d (suc fuel) (
          copy_loop c codec src dst fuel
            (write d dst (w ++ b))
            (offset + length (take buffer_size (drop offset (contents d src)))))
  round-Post fuel d offset w b h same p =
      let rest = drop offset (contents d src) in
      Post-step w b rest d fuel _ h same (rw (moved src dst apart d offset (w ++ b)) at p)

  written : (d : Disk) (w b : Bytes) → read (write d dst (w ++ b)) dst ≡ some (w ++ b)
  written d w b = rw (read-write d dst dst (w ++ b), str_eq_self dst)

  nothing : (rest : Bytes) → length (take buffer_size rest) ≡ 0 → rest ≡ []
  nothing rest h = grind (arith, length-take buffer_size rest)

  copy_loop-Post :
      (fuel : ℕ) (d : Disk) (offset : ℕ) (w : Bytes)
      → read d dst ≡ some w
      → length (drop offset (contents d src)) < fuel
      → Post f dst w (drop offset (contents d src)) d fuel (copy_loop c codec src dst fuel d offset)
  unfolding copy_loop
  copy_loop-Post zero d offset w held h = absurd (omega arith)
  copy_loop-Post (suc fuel) d offset w held h =
      let rest = drop offset (contents d src) in
      let chunk = take buffer_size rest in
      elim (Bool-cases (c.reads offset)) [
        | inr bad ↦ rw (bad) (λ q n. refl)
        | inl good ↦ elim (Bool-cases (length chunk == 0)) [
          | inl done ↦
              rw (good, done)
                (
                  rw
                      (
                        nothing rest (ground arith),
                        chunk_map-nil buffer_size f (suc fuel),
                        append-nil w,
                      )
                      held,
                  λ q n. refl,
                )
          | inr more ↦ elim (Option-cases (codec (c.allocates offset) chunk)) [
            | inl null ↦ rw (good, more, null) (λ q n. refl)
            | inr (b, coded) ↦ elim (Bool-cases (c.writes offset)) [
              | inr bad ↦ rw (good, more, coded, bad) (λ q n. refl)
              | inl fine ↦
                  rw (good, more, coded, fine, good, contents-read d dst w held)
                    (round-Post fuel d offset w b (ground arith) (codec_gives _ chunk b coded) (
                      copy_loop-Post fuel (write d dst (w ++ b)) (offset + length chunk) (w ++ b)
                        (written d w b) (shorter src dst apart d offset fuel (w ++ b) h more)))
            ]
          ]
        ]
      ]

  -- The whole copy into a target that was just emptied.
  pub copy-Post :
      (d : Disk)
      → read d dst ≡ some []
      → Post f dst [] (contents d src) d (length (contents d src) + 1) (copy c codec src dst d)
  unfolding copy
  copy-Post d held = copy_loop-Post (length (contents d src) + 1) d 0 [] held (omega arith)

-- The calls of the loop all succeed.
pub record Healthy (c : Calls) : Type 0 where
  pub reading : (n : ℕ) → c.reads n ≡ true
  pub allocating : (n : ℕ) → c.allocates n ≡ true
  pub writing : (n : ℕ) → c.writes n ≡ true

module _ (c : Calls) (codec : Bool → Bytes → Option Bytes) (f : Bytes → Bytes)
    (codec_works : (b : Bytes) → codec true b ≡ some (f b)) (src dst : Bytes)
    (apart : str_eq dst src ≡ false) (v : Healthy c) where
  copy_loop_healthy :
      (fuel : ℕ) (d : Disk) (offset : ℕ)
      → length (drop offset (contents d src)) < fuel
      → (copy_loop c codec src dst fuel d offset).1 ≡ copied
  unfolding copy_loop
  copy_loop_healthy zero d offset h = absurd (omega arith)
  copy_loop_healthy (suc fuel) d offset h =
      let rest = drop offset (contents d src) in
      let chunk = take buffer_size rest in
      let e = write d dst (contents d dst ++ f chunk) in
      elim (Bool-cases (length chunk == 0)) [
        | inl done ↦ rw (v.reading offset, done)
        | inr more ↦
            rw
              (
                v.reading offset,
                more,
                v.allocating offset,
                codec_works chunk,
                v.writing offset,
                v.reading offset,
              )
              (copy_loop_healthy fuel e (offset + length chunk)
                (shorter src dst apart d offset fuel (contents d dst ++ f chunk) h more))
      ]

  -- With no failing call the copy ends well.
  pub copy_healthy : (d : Disk) → (copy c codec src dst d).1 ≡ copied
  unfolding copy
  copy_healthy d = copy_loop_healthy (length (contents d src) + 1) d 0 (omega arith)
