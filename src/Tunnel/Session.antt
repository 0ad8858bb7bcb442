-- ===== src/Tunnel/Session.antt =====
-- bambu-farm-client/cpp/tunnel_bridge.cpp: the session behind a `Bambu_Tunnel`, from its creation to
-- its end. A null tunnel is `none`. The camera and the control requests are the Rust side's: what
-- they answer are arguments, and the calls are listed in their order. Logging is left out.
use bambu_farm.Base.{
  ℕ, ◌+◌, ◌-◌, ◌%◌, ◌^◌, Bool, true, false, ltb, ◌==◌, if◌then◌else◌, Option, none, some, List, [],
  ◌∷◌, ◌++◌, length, drop, take,
}
use bambu_farm.Base.Text.{Text, codes, is_empty, find, find_from}
use bambu_farm.Base.Int.{ℤ, pos, negsuc}

pub record CompatTunnel : Type 0 where
  pub url : Text
  pub device_id : Text
  pub logger : Option (ℕ × ℕ)
  pub opened : Bool
  pub control_stream_started : Bool
  pub video_stream_started : Bool
  pub queued_responses : List Text
  pub active_response : Text
  pub video_stream_id : ℕ
  pub active_decode_time : ℕ

-- The two globals of the file.
pub record Bridge : Type 0 where
  pub next_video_stream_id : ℕ
  pub last_tunnel_error : Text

abbrev pub bambu_success : ℤ
bambu_success = pos 0

abbrev pub bambu_stream_end : ℤ
bambu_stream_end = pos 1

abbrev pub bambu_would_block : ℤ
bambu_would_block = pos 2

abbrev pub bambu_buffer_limit : ℤ
bambu_buffer_limit = pos 3

abbrev pub failure : ℤ
failure = negsuc 0

-- The calls of the Rust side, in order.
pub data BackendCall : Type 0 where
  camera_started : ℕ → Text → Text → BackendCall
  tunnel_requested : Text → Text → Text → BackendCall
  frame_read : ℕ → BackendCall
  state_read : ℕ → BackendCall
  camera_stopped : ℕ → BackendCall

-- What a function of the bridge leaves behind.
pub record Outcome : Type 0 where
  pub bridge : Bridge
  pub tunnel : Option CompatTunnel
  pub code : ℤ
  pub calls : List BackendCall

abbrev pub succeed : Bridge → CompatTunnel → List BackendCall → Outcome
succeed b t calls = record { bridge = b; tunnel = some t; code = bambu_success; calls = calls }

-- `last_tunnel_error = message; return -1;`
abbrev pub fail_with : Bridge → Option CompatTunnel → Text → List BackendCall → Outcome
fail_with b t message calls = record {
  bridge = record b { last_tunnel_error = message };
  tunnel = t;
  code = failure;
  calls = calls;
}

-- The value of a query parameter, up to the next `&`.
unfoldable pub bambu_query_param : Text → Text → Text
bambu_query_param url key =
    let needle = key ++ codes "=" in
    let from : ℕ = elim (find (codes "?") url) [ none ↦ 0 | some q ↦ q + 1 ] in
    elim (find_from needle from url) [
      | none ↦ []
      | some p ↦ elim (find_from (codes "&") (p + length needle) url) [
        | none ↦ drop (p + length needle) url
        | some e ↦ take (e - (p + length needle)) (drop (p + length needle) url)
      ]
    ]

unfoldable pub create_tunnel : Bool → Option Text → Bridge → Outcome
create_tunnel has_target none b = fail_with b none (codes "Bambu_Create: invalid arguments") []
create_tunnel false (some path) b = fail_with b none (codes "Bambu_Create: invalid arguments") []
create_tunnel true (some path) b =
    let device_id = bambu_query_param path (codes "device") in
    if is_empty device_id
    then fail_with b none (codes "Bambu_Create: missing device in URL") []
    else succeed b
        (record {
          url = path;
          device_id = device_id;
          logger = none;
          opened = false;
          control_stream_started = false;
          video_stream_started = false;
          queued_responses = [];
          active_response = [];
          video_stream_id = 0;
          active_decode_time = 0;
        })
        []

-- A logger is its function with its context.
unfoldable pub set_tunnel_logger : Option (ℕ × ℕ) → Option CompatTunnel → Option CompatTunnel
set_tunnel_logger logger none = none
set_tunnel_logger logger (some t) = some (record t { logger = logger })

unfoldable pub open_tunnel : Option CompatTunnel → Bridge → Outcome
open_tunnel none b = fail_with b none (codes "Bambu_Open: invalid tunnel") []
open_tunnel (some t) b = succeed b (record t { opened = true }) []

-- `static_cast<int>` of a size.
unfoldable pub int_of_size : ℕ → ℤ
int_of_size n =
    let low = n % 2 ^ 32 in if ltb low (2 ^ 31) then pos low else negsuc (2 ^ 32 - low - 1)

unfoldable pub close_tunnel : Option CompatTunnel → Option CompatTunnel × List BackendCall
close_tunnel none = (none, [])
close_tunnel (some t) = (
  some (record t {
    opened = false;
    control_stream_started = false;
    video_stream_started = false;
    video_stream_id = 0;
    queued_responses = [];
    active_response = [];
    active_decode_time = 0;
  }),
  if t.video_stream_id == 0 then [] else camera_stopped t.video_stream_id ∷ [],
)

unfoldable pub destroy_tunnel : Option CompatTunnel → Option CompatTunnel × List BackendCall
destroy_tunnel t = (none, (close_tunnel t).1)
