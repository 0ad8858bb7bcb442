-- ===== src/CloudCompat/Tests.antt =====
-- Escaping a text with a tag in it.
use mathlib.Core.List.{flat_map}
use bambu_farm.Base.{◌≡◌, Option, some, [], ◌∷◌, ◌++◌}
use bambu_farm.Base.Dict.{Dict}
use bambu_farm.LocalState.Table.{table, env}
use bambu_farm.PrintJob.Names.Safe.{IsAllowed}
use bambu_farm.Base.Text.{Text, codes}
use bambu_farm.CloudCompat.{html_escape, notice_page, cloud_notice_root_dir}
use bambu_farm.CloudCompat.Notice.{
  detail_name, model_mall_detail_notice_url, NoticeOutcome,
  model_mall_detail_notice_url-NoticeOutcome,
}
use bambu_farm.CloudCompat.Html.{html_byte, html_escape-flat_map}

abbrev tagged : Text
tagged = codes "<b>A & B</b>"

html_escape-flat_map_example : html_escape tagged ≡ flat_map html_byte tagged
html_escape-flat_map_example = html_escape-flat_map tagged

abbrev made : Text → Dict Text → Option (Dict Text)
made path d = some d

model_mall_detail_notice_url-NoticeOutcome_example :
    IsAllowed (detail_name (codes "../7"))
    × NoticeOutcome table env made
        (cloud_notice_root_dir env (codes "/cfg") ++ b'/' ∷ detail_name (codes "../7"))
        (notice_page
          (codes "MakerWorld Model Not Supported")
          (codes "MakerWorld model detail pages are currently disabled in the OSS LAN plugin."))
        []
        (model_mall_detail_notice_url table env made (codes "/cfg") (codes "../7") [])
model_mall_detail_notice_url-NoticeOutcome_example =
    model_mall_detail_notice_url-NoticeOutcome table env made (codes "/cfg") (codes "../7") []
