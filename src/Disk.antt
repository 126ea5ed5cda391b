-- ===== src/Disk.antt =====
-- The files and directories that src/fs.c and src/worker.c work on through the C library: a list of
-- paths with their contents. A path that was inserted later hides an earlier one. Paths are compared as
-- texts, so two texts of one file (by `.`, `..`, a link or the working directory) are two files here:
-- what is said of two different paths holds where they are two different files.
use os_lab.Prelude.{
  ◌≡◌, refl, List, [], ◌∷◌, Option, none, some, Bytes, str_eq, str_eq_iff, if◌then◌else◌, arith,
}

pub record Disk : Type 0 where
  pub files : List (Bytes × Bytes)
  pub dirs : List Bytes

lookup : Bytes → List (Bytes × Bytes) → Option Bytes
lookup path [] = none
lookup path ((p, contents) ∷ files) = if str_eq p path then some contents else lookup path files

erase : Bytes → List (Bytes × Bytes) → List (Bytes × Bytes)
erase path [] = []
erase path ((p, contents) ∷ files) =
    let rest = erase path files in if str_eq p path then rest else (p, contents) ∷ rest

-- The contents of a file, if there is one at the path.
unfoldable pub read : Disk → Bytes → Option Bytes
unfolding lookup
read d path = lookup path d.files

-- What reading a path gives in all, nothing where there is no file.
unfoldable pub contents : Disk → Bytes → Bytes
contents d path = elim (read d path) [ none ↦ [] | some b ↦ b ]

-- The disk with these contents at the path.
unfoldable pub write : Disk → Bytes → Bytes → Disk
write d path contents = record d { files = (path, contents) ∷ d.files }

-- The disk with no file at the path.
unfoldable pub remove : Disk → Bytes → Disk
unfolding erase
remove d path = record d { files = erase path d.files }

unfoldable pub make_dir : Disk → Bytes → Disk
make_dir d path = record d { dirs = path ∷ d.dirs }

pub read-write :
    (d : Disk) (p q contents : Bytes)
    → read (write d p contents) q ≡ (if str_eq p q then some contents else read d q)
unfolding read write
read-write d p q contents = refl

pub contents-read : (d : Disk) (path b : Bytes) → read d path ≡ some b → contents d path ≡ b
unfolding contents
contents-read d path b h = rw (h, contents)

pub contents-cong :
    (d e : Disk) (path : Bytes) → read d path ≡ read e path → contents d path ≡ contents e path
unfolding contents
contents-cong d e path h = rw (h, contents)

pub read-make_dir : (d : Disk) (p q : Bytes) → read (make_dir d p) q ≡ read d q
unfolding read make_dir
read-make_dir d p q = refl

lookup-erase :
    (p q : Bytes) (files : List (Bytes × Bytes))
    → lookup q (erase p files) ≡ (if str_eq p q then none else lookup q files)
unfolding lookup erase
lookup-erase p q [] = ground arith
lookup-erase p q ((r, contents) ∷ files) =
    ground (arith, str_eq_iff r p, str_eq_iff r q, str_eq_iff p q, lookup-erase p q files)

pub read-remove :
    (d : Disk) (p q : Bytes) → read (remove d p) q ≡ (if str_eq p q then none else read d q)
unfolding read remove
read-remove d p q = lookup-erase p q d.files
