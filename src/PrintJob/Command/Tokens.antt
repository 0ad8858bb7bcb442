-- ===== src/PrintJob/Command/Tokens.antt =====
-- No parameter escapes from its quotes: the string tokens of the commands of
-- bambu-farm-client/cpp/print_job.cpp.
use bambu_farm.Base.{
  ℕ, ◌++◌, ◌≡◌, ◌≢◌, refl, Bool, true, false, List, [], ◌∷◌, if◌then◌else◌, Bool-cases, inl, inr,
  append_assoc, append-nil, arith, ap, subst, ◌∙◌, ◌⊎◌,
}
use bambu_farm.Base.Text.{Text, codes, is_empty, concat}
use bambu_farm.Base.Decimal.{show_nat}
use bambu_farm.Base.Decimal.Digits.{show_nat-All}
use bambu_farm.Json.{read_text, read_byte, start, between, Holds, read_text-append}
use bambu_farm.Json.Escaped.{read_text-json_escape, read_text_unquoted, read_text_closed}
use bambu_farm.PrintJob.Escape.{json_escape}
use bambu_farm.PrintJob.Ascii.{trim_ascii, looks_like_json_value}
use bambu_farm.PrintJob.Resolve.{PrintParams, resolve_display_subtask_name}
use bambu_farm.PrintJob.Command.{
  build_logout_cmd, build_login_info, LoginState, show_bool, append_mapping, append_json_field,
  project_file_texts, project_file_flags, build_project_file_command, zero_based_plate,
}

pub read_text-show_bool :
    (b : Bool) (done : List Text) → read_text (between done) (show_bool b) ≡ between done
unfolding read_text read_byte
read_text-show_bool true done = refl
read_text-show_bool false done = refl

pub read_text-show_nat :
    (n : ℕ) (done : List Text) → read_text (between done) (show_nat n) ≡ between done
read_text-show_nat n done =
    read_text_unquoted (show_nat n) done (show_nat-All (λ c. c ≢ b'"') (λ d h. omega arith) n)

ruleset pieces = (read_text-append, read_text-json_escape, read_text-show_bool, read_text-show_nat)

-- Whatever the provider is called, the logout command holds that name as its last token.
pub logout_tokens :
    (provider : Text)
    → Holds
        (build_logout_cmd provider)
        (codes "action" ∷ codes "logout" ∷ codes "provider" ∷ provider ∷ [])
unfolding build_logout_cmd read_text read_byte
logout_tokens provider = simp pieces

abbrev pub login_info_tokens : LoginState → Text → Text → List Text
login_info_tokens state backend_url auth_url =
    codes "user_id"
    ∷ state.user_id
    ∷ codes "user_name"
    ∷ state.user_name
    ∷ codes "nickname"
    ∷ state.nickname
    ∷ codes "avatar"
    ∷ state.avatar
    ∷ codes "logged_in"
    ∷ codes "access_token"
    ∷ []
    ∷ codes "refresh_token"
    ∷ []
    ∷ codes "backend_url"
    ∷ backend_url
    ∷ codes "auth_url"
    ∷ auth_url
    ∷ []

-- The login info holds each field of the state behind its key, unchanged by the escaping, and the
-- two tokens that the LAN mode leaves empty.
pub login_info_Holds :
    (state : LoginState) (backend_url auth_url : Text)
    → Holds
        (build_login_info state backend_url auth_url)
        (login_info_tokens state backend_url auth_url)
unfolding build_login_info read_text read_byte
login_info_Holds state backend_url auth_url = simp pieces

abbrev pub text_tokens : PrintParams → Text → Text → List Text
text_tokens params remote_filename plate_path =
    codes "print"
    ∷ codes "sequence_id"
    ∷ codes "command"
    ∷ codes "project_file"
    ∷ codes "param"
    ∷ plate_path
    ∷ codes "subtask_name"
    ∷ resolve_display_subtask_name params remote_filename
    ∷ codes "url"
    ∷ (codes "ftp://" ++ remote_filename)
    ∷ []

abbrev pub flag_tokens : List Text
flag_tokens =
    codes "plate_idx"
    ∷ codes "timelapse"
    ∷ codes "bed_leveling"
    ∷ codes "flow_cali"
    ∷ codes "vibration_cali"
    ∷ codes "layer_inspect"
    ∷ codes "use_ams"
    ∷ []

project_file_texts-Holds :
    (params : PrintParams) (remote_filename plate_path : Text)
    → Holds
        (project_file_texts params remote_filename plate_path)
        (text_tokens params remote_filename plate_path)
unfolding project_file_texts read_text read_byte
project_file_texts-Holds params remote_filename plate_path = simp pieces

Holds-append :
    (s t : Text) (ss ts : List Text) → Holds s ss → Holds t ts → Holds (s ++ t) (ss ++ ts)
Holds-append s t ss ts hs ht =
    read_text-append start s t ∙ ap (λ r. read_text r t) hs ∙ read_text_closed t ts ss ht

-- A text with its tokens.
record Piece : Type 0 where
  text : Text
  tokens : List Text
  holds : Holds text tokens

abbrev nothing : Piece
unfolding read_text
nothing = record { text = []; tokens = []; holds = refl }

-- A key with a printed value behind it, in front of what follows.
abbrev field : (key name shown : Text) → Holds key (name ∷ []) → Holds shown [] → Piece → Piece
field key name shown hk hs rest = record {
  text = key ++ (shown ++ rest.text);
  tokens = name ∷ rest.tokens;
  holds =
      Holds-append key (shown ++ rest.text) (name ∷ []) rest.tokens hk
        (Holds-append shown rest.text [] rest.tokens hs rest.holds);
}

abbrev flag : (key name : Text) → Holds key (name ∷ []) → Bool → Piece → Piece
flag key name hk b = field key name (show_bool b) hk (read_text-show_bool b [])

abbrev flags : PrintParams → Piece
unfolding read_text read_byte
flags params =
    field (codes ",\"plate_idx\":") (codes "plate_idx")
      (show_nat (zero_based_plate params.plate_index)) refl
      (read_text-show_nat (zero_based_plate params.plate_index) [])
      (flag (codes ",\"timelapse\":") (codes "timelapse") refl params.task_record_timelapse (
        flag (codes ",\"bed_leveling\":") (codes "bed_leveling") refl params.task_bed_leveling (
          flag (codes ",\"flow_cali\":") (codes "flow_cali") refl params.task_flow_cali (
            flag (codes ",\"vibration_cali\":") (codes "vibration_cali") refl
              params.task_vibration_cali
              (flag (codes ",\"layer_inspect\":") (codes "layer_inspect") refl
                params.task_layer_inspect
                (flag (codes ",\"use_ams\":") (codes "use_ams") refl params.task_use_ams
                  nothing))))))

project_file_flags-Holds : (params : PrintParams) → Holds (project_file_flags params) flag_tokens
unfolding project_file_flags read_text read_byte
project_file_flags-Holds params = (flags params).holds

-- A mapping that goes into the command as it stands closes the quotes that it opens.
abbrev pub IsClosed : Text → Type 0
IsClosed value =
    (looks_like_json_value value ≡ false)
    ⊎ (read_text start (trim_ascii value) ≡ between (read_text start (trim_ascii value)).tokens)

-- The tokens that a mapping adds: none if it is blank, else its key and its own.
abbrev pub mapping_tokens : Text → Text → List Text
mapping_tokens key value =
    if is_empty (trim_ascii value)
    then []
    else key
      ∷ (if looks_like_json_value value
          then (read_text start (trim_ascii value)).tokens
          else trim_ascii value ∷ [])

-- The key of a field, with its quotes and its colon.
abbrev key_text : Text → Text
key_text key = concat (codes ",\"" ∷ key ∷ codes "\":" ∷ [])

quoted_Holds : (s : Text) → Holds (concat (codes "\"" ∷ json_escape s ∷ codes "\"" ∷ [])) (s ∷ [])
unfolding read_text read_byte
quoted_Holds s = simp pieces

append_json_field-Holds :
    (json key value : Text) (raw_json : Bool) (done ts : List Text)
    → Holds (key_text key) (key ∷ [])
    → Holds
        (if raw_json then value else concat (codes "\"" ∷ json_escape value ∷ codes "\"" ∷ []))
        ts
    → Holds json done
    → Holds (append_json_field json key value raw_json) (done ++ key ∷ ts)
unfolding append_json_field
append_json_field-Holds json key value raw_json done ts hk hv hj =
    Holds-append json _ done (key ∷ ts) hj (
      subst (λ t. Holds t (key ∷ ts)) (regroup _)
        (Holds-append (key_text key) _ (key ∷ []) ts hk hv))
  where
    regroup : (v : Text) → key_text key ++ v ≡ concat (codes ",\"" ∷ key ∷ codes "\":" ∷ v ∷ [])
    regroup v = simp (append_assoc, append-nil)

closes :
    (value : Text)
    → looks_like_json_value value ≡ true
    → IsClosed value
    → read_text start (trim_ascii value) ≡ between (read_text start (trim_ascii value)).tokens
closes value raw (inl quoted) = cc
closes value raw (inr closed) = closed

append_mapping-Holds :
    (json key value : Text) (done : List Text)
    → Holds (key_text key) (key ∷ [])
    → IsClosed value
    → Holds json done
    → Holds (append_mapping json key value) (done ++ mapping_tokens key value)
unfolding append_mapping
append_mapping-Holds json key value done hk closed hj =
    elim (Bool-cases (is_empty (trim_ascii value))) [
      | inl blank ↦ rw (blank, append-nil) hj
      | inr filled ↦ elim (Bool-cases (looks_like_json_value value)) [
        | inl raw ↦
            rw (filled, raw)
              (append_json_field-Holds json key (trim_ascii value) true done _ hk
                (closes value raw closed) hj)
        | inr quoted ↦
            rw (filled, quoted)
              (append_json_field-Holds json key (trim_ascii value) false done _ hk
                (quoted_Holds (trim_ascii value)) hj)
      ]
    ]

-- The tokens of the whole command, in order.
abbrev pub command_tokens : PrintParams → Text → Text → List Text
command_tokens params remote_filename plate_path =
    (((text_tokens params remote_filename plate_path ++ flag_tokens)
        ++ mapping_tokens (codes "ams_mapping") params.ams_mapping)
      ++ mapping_tokens (codes "ams_mapping2") params.ams_mapping2)
    ++ mapping_tokens (codes "ams_mapping_info") params.ams_mapping_info

closing_Holds : (json : Text) (done : List Text) → Holds json done → Holds (json ++ codes "}}") done
unfolding read_text read_byte
closing_Holds json done h =
    read_text-append start json (codes "}}") ∙ ap (λ r. read_text r (codes "}}")) h

-- If each mapping that goes in raw closes its own quotes, the project_file command closes every
-- quote, and its string tokens are its keys with the plate path, the display name, the remote URL
-- and the mappings behind them, each exactly as it was before the escaping.
pub project_file_Holds :
    (params : PrintParams) (remote_filename plate_path : Text)
    → IsClosed params.ams_mapping
    → IsClosed params.ams_mapping2
    → IsClosed params.ams_mapping_info
    → Holds
        (build_project_file_command params remote_filename plate_path)
        (command_tokens params remote_filename plate_path)
unfolding build_project_file_command read_text read_byte
project_file_Holds params remote_filename plate_path c c₂ c₃ =
    let texts = project_file_texts params remote_filename plate_path in
    let flagged = texts ++ project_file_flags params in
    let json₁ = append_mapping flagged (codes "ams_mapping") params.ams_mapping in
    let json₂ = append_mapping json₁ (codes "ams_mapping2") params.ams_mapping2 in
    let json₃ = append_mapping json₂ (codes "ams_mapping_info") params.ams_mapping_info in
    closing_Holds json₃ _ (
      append_mapping-Holds json₂ (codes "ams_mapping_info") params.ams_mapping_info _ refl c₃ (
        append_mapping-Holds json₁ (codes "ams_mapping2") params.ams_mapping2 _ refl c₂ (
          append_mapping-Holds flagged (codes "ams_mapping") params.ams_mapping _ refl c (
            Holds-append texts (project_file_flags params) _ _
              (project_file_texts-Holds params remote_filename plate_path)
              (project_file_flags-Holds params)))))
