-- ===== src/Fs/Tests.antt =====
-- The file operations of src/fs.c at one user's file.
use os_lab.Prelude.{
  ◌<◌, ◌≡◌, refl, true, false, [], ◌∷◌, some, Result, ok, Bytes, AreBytes, codes, length, str_eq,
  arith,
}
use os_lab.Disk.{Disk, read, write, remove, contents, make_dir}
use os_lab.Crypto.{xor_cipher, encode_data, decode_data}
use os_lab.Fs.{
  Calls, build_user_path, temp_path, copy, fs_upload, fs_download_path, fs_delete, fs_list,
}
use os_lab.Fs.Upload.{Uploads, fs_upload_lem, Works}
use os_lab.Fs.Download.{Downloads, fs_download_path_lem}
use os_lab.Fs.Listing.{Lists, full_listing, fs_list_lem}

abbrev pub fine : Calls
fine = record {
  mkdir_made = true;
  mkdir_exists = false;
  opens_source = true;
  opens_target = true;
  seeks = true;
  tells = true;
  reads = λ n. true;
  allocates = λ n. true;
  writes = λ n. true;
  closes = true;
  removes = true;
  removes_dir = false;
  strerror = [];
  now = 7;
}

abbrev root : Bytes
root = codes "st"

abbrev user : Bytes
user = codes "ann"

abbrev name : Bytes
name = codes "a.txt"

abbrev tmp : Bytes
tmp = codes "/tmp/u"

abbrev stored : Bytes
stored = codes "st/ann/a.txt"

abbrev disk : Disk
disk = record { files = (tmp, codes "hello") ∷ (stored, codes "old") ∷ []; dirs = [] }

path_is : build_user_path root user (some name) 512 ≡ stored
unfolding build_user_path
path_is = refl

abbrev uploaded : Disk × Result Bytes
uploaded = fs_upload fine disk (some root) (some user) (some name) (some tmp) 254

abbrev downloaded : Disk × Result Bytes
downloaded = fs_download_path fine uploaded.0 (some root) (some user) (some name) 511 254

abbrev temp : Bytes
temp = codes "_tmp_os_lab7_downloads_ann_a.txt_7.tmp"

runs :
    (uploaded.1 ≡ ok [])
    × (read uploaded.0 stored ≡ some (37 ∷ 28 ∷ 63 ∷ 9 ∷ 12 ∷ []))
    × (downloaded.1 ≡ ok temp)
    × (read downloaded.0 temp ≡ some (codes "hello"))
unfolding fs_upload fs_download_path encode_data decode_data xor_cipher str_eq read write remove
    make_dir contents temp_path build_user_path copy
runs = (refl, refl, refl, refl)

apart : str_eq (build_user_path root user (some name) 512) tmp ≡ false
unfolding build_user_path str_eq
apart = refl

apart' : str_eq (temp_path user name 7) (build_user_path root user (some name) 512) ≡ false
unfolding build_user_path temp_path str_eq
apart' = refl

pub fine-Works : Works fine
fine-Works = record {
  copying = record { reading = λ n. refl; allocating = λ n. refl; writing = λ n. refl };
  dir_ready = refl;
  opening = refl;
  creating = refl;
  closing = refl;
}

tmp_held : read disk tmp ≡ some (codes "hello")
unfolding read str_eq
tmp_held = refl

bytes : AreBytes (contents disk tmp)
unfolding contents read str_eq
bytes = omega arith

fs_upload_lem_example :
    Uploads fine.removes tmp (build_user_path root user (some name) 512) disk uploaded
fs_upload_lem_example = fs_upload_lem fine disk root user name tmp 254 apart

fs_download_path_lem_example :
    Downloads fine.removes
      (build_user_path root user (some name) 512)
      (temp_path user name 7)
      disk
      (fs_download_path fine disk (some root) (some user) (some name) 511 254)
fs_download_path_lem_example = fs_download_path_lem fine disk root user name 511 254 apart'

path_short : length (temp_path user name 7) < 511
unfolding temp_path
path_short = omega arith

fs_list_lem_example :
    (written : Bytes) × (fs_list (some (codes "." ∷ name ∷ [])) 4096 256 ≡ ok written)
    × Lists 4096 (full_listing (codes "." ∷ name ∷ [])) written
fs_list_lem_example = fs_list_lem (codes "." ∷ name ∷ []) 4096 256 (omega arith)

deleted :
    fs_delete fine disk root user name 256
    ≡ (record disk { files = (tmp, codes "hello") ∷ [] }, ok [])
unfolding fs_delete read remove str_eq
deleted = refl
