-- ===== src/CloudCompat/Notice.antt =====
-- The pages that bambu-farm-client/cpp/cloud_compat.cpp writes, and the addresses that it answers.
use bambu_farm.Base.{
  Option, none, some, [], ◌∷◌, ◌++◌, ◌≡◌, ◌∙◌, ap, subst, sym, arith, All-append, Option-cases, inl,
  inr,
}
use bambu_farm.Base.Text.{Text, codes}
use bambu_farm.PrintJob.Names.{is_forbidden, sanitize_remote_filename}
use bambu_farm.PrintJob.Names.Safe.{IsAllowed, sanitize_remote_filename-IsSafe}
use bambu_farm.LocalState.Paths.{FileSystem, Environment}
use bambu_farm.CloudCompat.{cloud_notice_root_dir, notice_page}

unfoldable pub detail_name : Text → Text
detail_name id = codes "makerworld-model-" ++ (sanitize_remote_filename id ++ codes ".html")

detail_name-IsAllowed : (id : Text) → IsAllowed (detail_name id)
unfolding detail_name IsAllowed is_forbidden
detail_name-IsAllowed id = All-append _ (codes "makerworld-model-") _ (ground arith) (
    All-append _ (sanitize_remote_filename id) (codes ".html")
      (sanitize_remote_filename-IsSafe id).allowed (ground arith))

-- `make_parents` is `create_directories` of the path's directory; `none` is an error.
module _ (fs : FileSystem) (env : Environment)
    (make_parents : Text → fs.Disk → Option fs.Disk) where
  open fs use {Disk, write, read, read-write}

  -- No name that is passed begins with a slash, and no root ends with one.
  unfoldable pub file_path : Text → Text → Text
  file_path config_dir relative_path = cloud_notice_root_dir env config_dir ++ b'/' ∷ relative_path

  -- What follows on the opened file.
  unfoldable pub written : Text → Disk → Option Disk → Text × Disk
  written path d none = ([], d)
  written path d (some d') = (codes "file://" ++ path, d')

  -- What follows on the directory.
  unfoldable pub in_directory : Text → Text → Disk → Option Disk → Text × Disk
  in_directory path page disk none = ([], disk)
  in_directory path page disk (some d) = written path d (write path page d)

  unfoldable pub ensure_cloud_notice_file : Text → Text → Text → Text → Disk → Text × Disk
  ensure_cloud_notice_file config_dir relative_path title message disk =
      in_directory (file_path config_dir relative_path) (notice_page title message) disk
        (make_parents (file_path config_dir relative_path) disk)

  unfoldable pub model_publish_notice_url : Text → Disk → Text × Disk
  model_publish_notice_url config_dir disk =
      ensure_cloud_notice_file config_dir (codes "publish.html")
        (codes "Model Publishing Not Supported")
        (codes "Publishing models from the OSS LAN plugin is currently out of scope.") disk

  unfoldable pub model_mall_home_notice_url : Text → Disk → Text × Disk
  model_mall_home_notice_url config_dir disk =
      ensure_cloud_notice_file config_dir (codes "makerworld-home.html")
        (codes "MakerWorld Not Supported")
        (codes "MakerWorld browsing is currently disabled in the OSS LAN plugin.") disk

  unfoldable pub model_mall_detail_notice_url : Text → Text → Disk → Text × Disk
  model_mall_detail_notice_url config_dir id disk =
      ensure_cloud_notice_file config_dir (detail_name id) (codes "MakerWorld Model Not Supported")
        (codes "MakerWorld model detail pages are currently disabled in the OSS LAN plugin.") disk

  -- How a request for the page of a file ends.
  pub data NoticeOutcome (path page : Text) (disk : Disk) (answer : Text × Disk) : Type 0 where
    no_directory :
        make_parents path disk ≡ none → answer ≡ ([], disk) → NoticeOutcome path page disk answer
    no_file :
        (d : Disk)
        → make_parents path disk ≡ some d
        → write path page d ≡ none
        → answer ≡ ([], d)
        → NoticeOutcome path page disk answer
    shown :
        answer.0 ≡ codes "file://" ++ path
        → read path answer.1 ≡ some page
        → NoticeOutcome path page disk answer

  written-NoticeOutcome :
      (path page : Text) (disk d : Disk)
      → make_parents path disk ≡ some d
      → NoticeOutcome path page disk (written path d (write path page d))
  unfolding written
  written-NoticeOutcome path page disk d m = elim (Option-cases (write path page d)) [
    | inl e ↦ no_file d m e (ap (written path d) e)
    | inr (d', e) ↦
        shown (ap (λ o. (written path d o).0) e)
          (ap (λ o. read path (written path d o).1) e ∙ read-write path page d d' e)
  ]

  in_directory-NoticeOutcome :
      (path page : Text) (disk : Disk)
      → NoticeOutcome path page disk (in_directory path page disk (make_parents path disk))
  unfolding in_directory
  in_directory-NoticeOutcome path page disk = elim (Option-cases (make_parents path disk)) [
    | inl e ↦ no_directory e (ap (in_directory path page disk) e)
    | inr (d, e) ↦
        subst (NoticeOutcome path page disk) (sym (ap (in_directory path page disk) e))
          (written-NoticeOutcome path page disk d e)
  ]

  -- Whatever model is asked for, its page is to be a file whose name holds no slash and no other byte
  -- that is forbidden in remote names, in the directory of the notices; and either the directory or the
  -- file cannot be made and the answer is empty, or the answer is the address of that file, which then
  -- holds the page.
  pub model_mall_detail_notice_url-NoticeOutcome :
      (config_dir id : Text) (disk : Disk)
      → IsAllowed (detail_name id)
        × NoticeOutcome
            (cloud_notice_root_dir env config_dir ++ b'/' ∷ detail_name id)
            (notice_page
              (codes "MakerWorld Model Not Supported")
              (codes "MakerWorld model detail pages are currently disabled in the OSS LAN plugin."))
            disk
            (model_mall_detail_notice_url config_dir id disk)
  unfolding model_mall_detail_notice_url ensure_cloud_notice_file file_path
  model_mall_detail_notice_url-NoticeOutcome config_dir id disk =
      (detail_name-IsAllowed id, in_directory-NoticeOutcome _ _ disk)
