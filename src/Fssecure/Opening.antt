-- ===== src/Fssecure/Opening.antt =====
-- What holds of a file that was opened, fssecure.go.
use audistro_provider.Prelude.{◌≡◌, refl, ◌↔◌, true, Text, arith, Bool-cases, inl, inr}
use audistro_provider.Fssecure.{
  FileType, symlink, directory, regular, special, FileInfo, Answer, not_exist, failing, found,
  is_dir, is_regular, is_element, opened, Disk, on_root, on_target, on_open, on_stat,
  open_file_no_symlinks,
}

-- The directory is one, the name in it is a regular file and no link, and what was opened is that
-- same file and still regular.
pub record IsDirect (d : Disk) (filename : Text) (info : FileInfo) : Type 0 where
  pub element : is_element filename ≡ true
  pub root : (r : FileInfo) × (d.root ≡ found r) × (r.file_type ≡ directory)
  pub target :
      (t : FileInfo) × (d.target ≡ found t) × (t.file_type ≡ regular) × (t.file_id ≡ info.file_id)
  pub open_target : (f : FileInfo) × (d.open_target ≡ found f)
  pub stat : d.stat ≡ found info
  pub regular_file : info.file_type ≡ regular

regular_of : (t : FileType) → is_regular t ≡ true → t ≡ regular
regular_of regular h = refl
regular_of symlink h = cc
regular_of directory h = cc
regular_of special h = cc

directory_of : (t : FileType) → is_dir t ≡ true → t ≡ directory
directory_of directory h = refl
directory_of symlink h = cc
directory_of regular h = cc
directory_of special h = cc

on_stat-opened :
    (t : FileInfo) (a : Answer) (info : FileInfo)
    → on_stat t a ≡ opened info
    → (a ≡ found info) × (info.file_type ≡ regular) × (t.file_id ≡ info.file_id)
on_stat-opened t not_exist info e = cc
on_stat-opened t failing info e = cc
on_stat-opened t (found i) info e = ground (arith, regular_of i.file_type)

on_open-opened :
    (t : FileInfo) (file stat : Answer) (info : FileInfo)
    → on_open t file stat ≡ opened info
    → ((f : FileInfo) × (file ≡ found f)) × (on_stat t stat ≡ opened info)
on_open-opened t not_exist stat info e = cc
on_open-opened t failing stat info e = cc
on_open-opened t (found f) stat info e = ((f, refl), e)

on_target-opened :
    (target file stat : Answer) (info : FileInfo)
    → on_target target file stat ≡ opened info
    → (t : FileInfo) × (target ≡ found t)
      × (t.file_type ≡ regular)
      × (on_open t file stat ≡ opened info)
on_target-opened not_exist file stat info e = cc
on_target-opened failing file stat info e = cc
on_target-opened (found t) file stat info e =
    (t, refl, ground (arith, regular_of t.file_type), ground arith)

on_root-opened :
    (root : Answer) (d : Disk) (info : FileInfo)
    → on_root root d ≡ opened info
    → ((r : FileInfo) × (root ≡ found r) × (r.file_type ≡ directory))
      × (on_target d.target d.open_target d.stat ≡ opened info)
on_root-opened not_exist d info e = cc
on_root-opened failing d info e = cc
on_root-opened (found r) d info e =
    ((r, refl, ground (arith, directory_of r.file_type)), ground arith)

open_file_no_symlinks-IsDirect :
    (d : Disk) (filename : Text) (info : FileInfo)
    → open_file_no_symlinks d filename ≡ opened info
    → IsDirect d filename info
unfolding open_file_no_symlinks
open_file_no_symlinks-IsDirect d filename info e = elim (Bool-cases (is_element filename)) [
  | inr other ↦ absurd (ground arith)
  | inl named ↦
      let (root, on) = on_root-opened d.root d info (rw named at e) in
      let (t, hit, kind, on') = on_target-opened d.target d.open_target d.stat info on in
      let (file, on'') = on_open-opened t d.open_target d.stat info on' in
      let (stat, still, same) = on_stat-opened t d.stat info on'' in
      record {
        element = named;
        root = root;
        target = (t, hit, kind, same);
        open_target = file;
        stat = stat;
        regular_file = still;
      }
]

IsDirect-open_file_no_symlinks :
    (d : Disk) (filename : Text) (info : FileInfo)
    → IsDirect d filename info
    → open_file_no_symlinks d filename ≡ opened info
unfolding open_file_no_symlinks
IsDirect-open_file_no_symlinks d filename info h =
    let (r, at_root, is_directory) = h.root in
    let (t, at_target, kind, same) = h.target in
    let (f, at_open) = h.open_target in
    rw (h.element, at_root, is_directory, at_target, kind, at_open, h.stat, h.regular_file, same)
      (ground arith)

-- A file is opened exactly where the name is a single path element, the directory is no link, the
-- name in it is a regular file and no link, and the file that was opened is that same file and still
-- a regular one, whatever happened between the calls.
pub open_file_no_symlinks-opened_iff :
    (d : Disk) (filename : Text) (info : FileInfo)
    → (open_file_no_symlinks d filename ≡ opened info) ↔ IsDirect d filename info
open_file_no_symlinks-opened_iff d filename info =
    (open_file_no_symlinks-IsDirect d filename info, IsDirect-open_file_no_symlinks d filename info)
