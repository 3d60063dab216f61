-- ===== src/Fssecure.antt =====
-- internal/fssecure/fssecure.go: opening a file of a directory and auditing a tree, without symbolic
-- links. What the file system answers to each call is an argument; between two calls it may change.
pub mod Opening
pub mod Audit
use audistro_provider.Prelude.{
  ℕ, Bool, true, false, not, ◌&&◌, ◌||◌, Option, none, some, List, [], ◌∷◌, Text, codes, ◌==◌,
  text_eq, if◌then◌else◌,
}
use audistro_provider.Go.Int64.{ℤ}
use audistro_provider.Go.Strings.{trim_right, contains_text}

-- The type bits of a file's mode.
pub data FileType : Type 0 where
  symlink directory regular special : FileType

-- os.FileInfo; os.SameFile compares `file_id`, device and inode.
pub record FileInfo : Type 0 where
  pub file_type : FileType
  pub file_id : ℕ
  pub size : ℤ

-- An answer of the file system: os.ErrNotExist, another error, or a result.
pub data Answer : Type 0 where
  not_exist failing : Answer
  found : FileInfo → Answer

abbrev pub is_symlink : FileType → Bool
is_symlink symlink = true
is_symlink _ = false

abbrev pub is_dir : FileType → Bool
is_dir directory = true
is_dir _ = false

abbrev pub is_regular : FileType → Bool
is_regular regular = true
is_regular _ = false

abbrev after_slash_from : Text → Text → Text
after_slash_from kept [] = kept
after_slash_from kept (c ∷ s) = after_slash_from (if c == b'/' then s else kept) s

abbrev base_of : Text → Text
base_of s = if text_eq s [] then codes "/" else after_slash_from s s

-- filepath.Base.
unfoldable pub base : Text → Text
base s = if text_eq s [] then codes "." else base_of (trim_right (λ c. c == b'/') s)

pub data OpenError : Type 0 where
  missing other_error symlink_error invalid_filename not_regular : OpenError

pub data OpenResult : Type 0 where
  opened : FileInfo → OpenResult
  refused : OpenError → OpenResult

-- What the calls of one OpenFileNoSymlinks are answered: Lstat of the directory and of the file, and
-- Open with the Stat of the open file.
pub record Disk : Type 0 where
  pub root : Answer
  pub target : Answer
  pub open_target : Answer
  pub stat : Answer

abbrev pub is_element : Text → Bool
is_element filename = not (
    text_eq filename []
    || not (text_eq filename (base filename))
    || contains_text filename (codes "/")
    || contains_text filename (b'\\' ∷ []))

abbrev pub check_same : FileInfo → FileInfo → OpenResult
check_same target info =
    if not (is_regular info.file_type)
    then refused not_regular
    else if not (target.file_id == info.file_id)
    then refused symlink_error
    else opened info

abbrev pub on_stat : FileInfo → Answer → OpenResult
on_stat target not_exist = refused missing
on_stat target failing = refused other_error
on_stat target (found info) = check_same target info

abbrev pub on_open : FileInfo → Answer → Answer → OpenResult
on_open target not_exist stat = refused missing
on_open target failing stat = refused other_error
on_open target (found file) stat = on_stat target stat

abbrev pub on_target : Answer → Answer → Answer → OpenResult
on_target not_exist file stat = refused missing
on_target failing file stat = refused other_error
on_target (found target) file stat =
    if is_symlink target.file_type
    then refused symlink_error
    else if not (is_regular target.file_type)
    then refused not_regular
    else on_open target file stat

abbrev pub on_root : Answer → Disk → OpenResult
on_root not_exist d = refused missing
on_root failing d = refused other_error
on_root (found root) d =
    if is_symlink root.file_type
    then refused symlink_error
    else if not (is_dir root.file_type)
    then refused not_regular
    else on_target d.target d.open_target d.stat

unfoldable pub open_file_no_symlinks : Disk → Text → OpenResult
open_file_no_symlinks d filename =
    if not (is_element filename) then refused invalid_filename else on_root d.root d

-- A tree as filepath.WalkDir meets it, in its order: a symbolic link, another entry that is no
-- directory, a directory with its entries, and an entry or a directory that cannot be read.
mutual
  pub data Node : Type 0 where
    link leaf unreadable : Node
    dir : Nodes → Node

  pub data Nodes : Type 0 where
    empty : Nodes
    entry : Node → Nodes → Nodes

pub data Verdict : Type 0 where
  clean link_found audit_failed : Verdict

-- The walk ends with the first entry that is not clean.
abbrev pub and_then : Verdict → Verdict → Verdict
and_then clean later = later
and_then link_found later = link_found
and_then audit_failed later = audit_failed

-- `AuditNoSymlinks`; its argument `allowedExt` has no effect.
unfoldable mutual
  pub audit_no_symlinks : Node → Verdict
  audit_no_symlinks link = link_found
  audit_no_symlinks leaf = clean
  audit_no_symlinks unreadable = audit_failed
  audit_no_symlinks (dir nodes) = audit_nodes nodes

  pub audit_nodes : Nodes → Verdict
  audit_nodes empty = clean
  audit_nodes (entry node nodes) = and_then (audit_no_symlinks node) (audit_nodes nodes)
