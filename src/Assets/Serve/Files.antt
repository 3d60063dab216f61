-- ===== src/Assets/Serve/Files.antt =====
-- TryServeLocal of handler.go over OpenFileNoSymlinks of fssecure.go.
use audistro_provider.Prelude.{◌≡◌, refl, ◌⊎◌, false}
use audistro_provider.Go.Int64.{ℤ, ltb_ℤ}
use audistro_provider.Fssecure.{
  FileInfo, missing, other_error, symlink_error, OpenResult, Disk, open_file_no_symlinks,
}
use audistro_provider.Fssecure
use audistro_provider.Fssecure.Opening.{IsDirect, open_file_no_symlinks-opened_iff}
use audistro_provider.Assets.Paths.{AssetRequest}
use audistro_provider.Assets.Serve.{
  Handler, Opened, file, absent, symlink, failed, is_bounded, served, try_serve_local,
}
use audistro_provider.Assets.Serve.Sources.{try_serve_local-served}

-- The switch of TryServeLocal on the error.
unfoldable pub to_opened : OpenResult → Opened
to_opened (OpenResult.opened info) = file info.size
to_opened (OpenResult.refused missing) = absent
to_opened (OpenResult.refused other_error) = failed
to_opened (OpenResult.refused symlink_error) = symlink
to_opened (OpenResult.refused Fssecure.invalid_filename) = Opened.invalid_filename
to_opened (OpenResult.refused Fssecure.not_regular) = Opened.not_regular

to_opened-file :
    (r : OpenResult) (size : ℤ)
    → to_opened r ≡ file size
    → (info : FileInfo) × (r ≡ OpenResult.opened info) × (info.size ≡ size)
unfolding to_opened
to_opened-file (OpenResult.opened info) size e = (info, refl, cc)
to_opened-file (OpenResult.refused missing) size e = cc
to_opened-file (OpenResult.refused other_error) size e = cc
to_opened-file (OpenResult.refused symlink_error) size e = cc
to_opened-file (OpenResult.refused Fssecure.invalid_filename) size e = cc
to_opened-file (OpenResult.refused Fssecure.not_regular) size e = cc

-- A file that is served locally was opened directly: the directory is no link, the requested name in
-- it is a regular file and no link, what was opened is that same file, and its size is what is
-- served, within the bound where the request is for a segment and there is one.
pub try_serve_local-IsDirect :
    (h : Handler) (req : AssetRequest) (d : Disk) (size : ℤ)
    → try_serve_local h req (to_opened (open_file_no_symlinks d req.filename)) ≡ served size
    → (info : FileInfo) × IsDirect d req.filename info
      × (info.size ≡ size)
      × ((is_bounded h req ≡ false) ⊎ (ltb_ℤ h.max_segment_bytes size ≡ false))
try_serve_local-IsDirect h req d size e =
    let (is_file, within) = try_serve_local-served h req _ size e in
    let (info, opened, same) = to_opened-file _ size is_file in
    (info, (open_file_no_symlinks-opened_iff d req.filename info).0 opened, same, within)
