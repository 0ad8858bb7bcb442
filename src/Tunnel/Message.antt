-- ===== src/Tunnel/Message.antt =====
-- The control messages of a session of bambu-farm-client/cpp/tunnel_bridge.cpp.
pub mod Delivery
use bambu_farm.Base.{
  ℕ, suc, ◌+◌, ◌-◌, ◌*◌, ◌%◌, ◌^◌, Bool, true, false, not, ◌&&◌, ◌||◌, ltb, ◌==◌, if◌then◌else◌,
  Option, none, some, is_some, List, [], ◌∷◌, ◌++◌, length, drop, take, ◌≡◌, refl,
}
use bambu_farm.Base.Text.{Text, codes, is_empty, find, find_from, starts_with}
use bambu_farm.Base.Int.{ℤ, pos, negsuc, int_eq}
use bambu_farm.Tunnel.Session.{
  CompatTunnel, Bridge, bambu_success, bambu_stream_end, bambu_would_block, bambu_buffer_limit,
  failure, BackendCall, camera_started, tunnel_requested, frame_read, state_read, camera_stopped,
  Outcome, succeed, fail_with, int_of_size,
}
use bambu_farm.Tunnel.Protocol.{split_file_download_response_frames}

-- What a control response adds to the queue.
unfoldable pub queued_for : Text → Text → List Text
queued_for request response =
    if is_some (find (codes "\"cmdtype\":4") request)
    then split_file_download_response_frames response
    else response ∷ []

-- `request` is `none` where the data pointer is null or the length negative; `answer` is
-- `bambu_network_rs_tunnel_request`.
unfoldable pub send_tunnel_message :
    (Text → Text → Text → Text) → ℤ → Option Text → Option CompatTunnel → Bridge → Outcome
send_tunnel_message answer ctrl request none b =
    fail_with b none (codes "Bambu_SendMessage: invalid arguments") []
send_tunnel_message answer ctrl none (some t) b =
    fail_with b (some t) (codes "Bambu_SendMessage: invalid arguments") []
send_tunnel_message answer ctrl (some request) (some t) b =
    if not (int_eq ctrl (pos 0x3001))
    then fail_with b (some t) (codes "Bambu_SendMessage: unsupported control type") []
    else (let response = answer t.url t.device_id request in
        let calls = tunnel_requested t.url t.device_id request ∷ [] in
        if is_empty response
        then fail_with b (some t) (codes "Bambu_SendMessage: empty control response") calls
        else succeed b
            (record t { queued_responses = t.queued_responses ++ queued_for request response })
            calls)

-- `a < b` on `int`.
unfoldable pub int_lt : ℤ → ℤ → Bool
int_lt (pos a) (pos b) = ltb a b
int_lt (pos a) (negsuc b) = false
int_lt (negsuc a) (pos b) = true
int_lt (negsuc a) (negsuc b) = ltb b a

-- What `recv_tunnel_message` writes through its pointers: the length, and the copied data with the
-- control type if there is a pointer for it.
pub record Received : Type 0 where
  pub len : ℤ
  pub copied : Option Text
  pub ctrl : Option ℕ

-- `room` is the value of `*len`.
unfoldable pub receive_front :
    Bool → Bool → ℤ → List Text → CompatTunnel → Bridge → Outcome × Option Received
receive_front has_ctrl has_data room [] t b =
    (record { bridge = b; tunnel = some t; code = bambu_would_block; calls = [] }, none)
receive_front has_ctrl has_data room (response ∷ rest) t b =
    let size = int_of_size (length response) in
    if not has_data || int_lt room size
    then (
      record { bridge = b; tunnel = some t; code = bambu_buffer_limit; calls = [] },
      some (record { len = size; copied = none; ctrl = none }),
    )
    else (
      succeed b (record t { queued_responses = rest }) [],
      some (record {
        len = size;
        copied = some response;
        ctrl = if has_ctrl then some 0x3001 else none;
      }),
    )

-- `len` is `none` where its pointer is null.
unfoldable pub recv_tunnel_message :
    Bool → Bool → Option ℤ → Option CompatTunnel → Bridge → Outcome × Option Received
recv_tunnel_message has_ctrl has_data len none b =
    (fail_with b none (codes "Bambu_RecvMessage: invalid arguments") [], none)
recv_tunnel_message has_ctrl has_data none (some t) b =
    (fail_with b (some t) (codes "Bambu_RecvMessage: invalid arguments") [], none)
recv_tunnel_message has_ctrl has_data (some room) (some t) b =
    receive_front has_ctrl has_data room t.queued_responses t b
