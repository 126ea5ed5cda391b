-- ===== src/Fs/Names.antt =====
-- The paths that build_user_path of src/fs.c makes for different users and files.
use mathlib.Core.List.{append_assoc, append_cancel_left, tail-eq_of_cons-eq}
use mathlib.Core.Path.{subst}
use os_lab.Prelude.{
  ℕ, ◌+◌, ◌≤◌, ◌<◌, ◌≡◌, ◌≢◌, refl, sym, ◌∙◌, false, [], ◌∷◌, ◌++◌, some, Bytes, All, codes, length,
  length-append, take_all, arith, ◌==◌, inl, inr, Bool-cases, str_eq, str_eq→eq,
}
use os_lab.Fs.{build_user_path, temp_path, is_problematic}
use os_lab.Fs.Paths.{temp_path_flat}

-- The name has no slash.
abbrev pub IsPlain : Bytes → Type 0
IsPlain = All (λ b. (b == b'/') ≡ false)

-- What stands behind the storage root, with its slash.
abbrev relative : Bytes → Bytes → Bytes
relative user rel = user ++ b'/' ∷ rel

abbrev pub FitsPath : Bytes → Bytes → Bytes → Type 0
FitsPath root user rel = length root + length user + length rel + 2 < 512

joined :
    (root user rel : Bytes)
    → root ++ codes "/" ++ user ++ codes "/" ++ rel ≡ root ++ b'/' ∷ relative user rel
joined root user rel = simp append_assoc refl

build_user_path_whole :
    (root user rel : Bytes)
    → FitsPath root user rel
    → build_user_path root user (some rel) 512 ≡ root ++ b'/' ∷ relative user rel
unfolding build_user_path
build_user_path_whole root user rel fits =
    let whole = joined root user rel in
    let size : length (root ++ codes "/" ++ user ++ codes "/" ++ rel) ≤ 511 = rw whole (
      omega (
        arith,
        fits,
        length-append root (b'/' ∷ relative user rel),
        length-append user (b'/' ∷ rel),
      )) in
    take_all 511 _ size ∙ whole

relative-injective :
    (user user' rel rel' : Bytes)
    → IsPlain user
    → IsPlain user'
    → relative user rel ≡ relative user' rel'
    → (user ≡ user') × (rel ≡ rel')
relative-injective [] [] rel rel' p p' h = (refl, cc)
relative-injective [] (y ∷ user') rel rel' p (q, p') h = absurd (ground (arith, h))
relative-injective (x ∷ user) [] rel rel' (q, p) p' h = absurd (ground (arith, h))
relative-injective (x ∷ user) (y ∷ user') rel rel' (q, p) (q', p') h =
    let (same, same_rel) = relative-injective user user' rel rel' p p' cc in (cc, same_rel)

-- Users without a slash in their names have different files: where the paths are not cut, the same
-- path has the same user and the same file name.
pub build_user_path-injective :
    (root user user' rel rel' : Bytes)
    → IsPlain user
    → IsPlain user'
    → FitsPath root user rel
    → FitsPath root user' rel'
    → build_user_path root user (some rel) 512 ≡ build_user_path root user' (some rel') 512
    → (user ≡ user') × (rel ≡ rel')
build_user_path-injective root user user' rel rel' p p' fits fits' same =
    let whole =
      sym (build_user_path_whole root user rel fits)
      ∙ same
      ∙ build_user_path_whole root user' rel' fits' in
    relative-injective user user' rel rel' p p'
      (tail-eq_of_cons-eq (append_cancel_left root _ _ whole))

IsPlain-middle : (a b : Bytes) → ¬ IsPlain (a ++ b'/' ∷ b)
IsPlain-middle [] b (h, _) = ground (arith, h)
IsPlain-middle (x ∷ a) b (_, p) = IsPlain-middle a b p

clean-IsPlain : (b : Bytes) → All (λ x. is_problematic x ≡ false) b → IsPlain b
clean-IsPlain [] p = tt
clean-IsPlain (x ∷ b) (h, p) = (ground arith, clean-IsPlain b p)

-- The decoded copy of a download is no user's stored file, unless that path is cut.
pub temp_path-apart :
    (root user user' rel rel' : Bytes) (now : ℕ)
    → FitsPath root user' rel'
    → str_eq (temp_path user rel now) (build_user_path root user' (some rel') 512) ≡ false
temp_path-apart root user user' rel rel' now fits =
    elim (Bool-cases
      (str_eq (temp_path user rel now) (build_user_path root user' (some rel') 512))) [
        | inr other ↦ other
        | inl same ↦
            let path = str_eq→eq _ _ same ∙ build_user_path_whole root user' rel' fits in
            absurd (
              IsPlain-middle root (relative user' rel')
                (subst IsPlain path (clean-IsPlain _ (temp_path_flat user rel now).0)))
      ]

-- The same as a test: the paths of two users without a slash in their names differ.
pub build_user_path-apart :
    (root user user' rel rel' : Bytes)
    → user ≢ user'
    → IsPlain user
    → IsPlain user'
    → FitsPath root user rel
    → FitsPath root user' rel'
    → str_eq (build_user_path root user (some rel) 512) (build_user_path root user' (some rel') 512)
      ≡ false
build_user_path-apart root user user' rel rel' other p p' fits fits' =
    elim (Bool-cases (
      str_eq (build_user_path root user (some rel) 512)
        (build_user_path root user' (some rel') 512))) [
          | inr apart ↦ apart
          | inl same ↦
              let (same_user, _) =
                build_user_path-injective root user user' rel rel' p p' fits fits'
                  (str_eq→eq _ _ same) in
              absurd (other same_user)
        ]
