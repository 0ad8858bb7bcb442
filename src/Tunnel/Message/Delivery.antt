-- ===== src/Tunnel/Message/Delivery.antt =====
-- What was queued is received, whole and in order.
use bambu_farm.Base.{
  ℕ, zero, suc, ◌≤◌, ◌^◌, ◌<◌, true, false, Option, none, some, List, [], ◌∷◌, ◌++◌, length, ◌≡◌,
  refl, ap, ◌∙◌, arith,
}
use bambu_farm.Base.Text.{Text, codes, is_empty, find}
use bambu_farm.Base.Int.{ℤ, pos, negsuc}
use bambu_farm.Tunnel.Session.{
  CompatTunnel, Bridge, bambu_success, bambu_would_block, Outcome, int_of_size, succeed,
  tunnel_requested,
}
use bambu_farm.Tunnel.Protocol.{split_file_download_response_frames, k_tunnel_download_chunk_size}
use bambu_farm.Tunnel.Protocol.Reassembly.{frame_payload, reassembled, reassembled-split_frames}
use bambu_farm.Tunnel.Message.{
  Received, queued_for, send_tunnel_message, int_lt, receive_front, recv_tunnel_message,
}

-- A response whose size is an `int`.
abbrev pub IsSized : Text → Type 0
IsSized response = length response < 2 ^ 31

-- How Bambu Studio receives: it asks with no buffer for the length of the message in front, and asks
-- again with a buffer of that length.
pub fetch : CompatTunnel → Bridge → Outcome × Option Received
fetch t b =
    let (probe, found) = recv_tunnel_message true false (some (pos 0)) (some t) b in
    elim found [
      | none ↦ (probe, none)
      | some r ↦ recv_tunnel_message true true (some r.len) probe.tunnel probe.bridge
    ]

int_of_size_small : (n : ℕ) → n < 2 ^ 31 → int_of_size n ≡ pos n
unfolding int_of_size
int_of_size_small n h = ground arith

int_lt_irrefl : (z : ℤ) → int_lt z z ≡ false
unfolding int_lt
int_lt_irrefl (pos n) = ground arith
int_lt_irrefl (negsuc n) = ground arith

-- Fetching takes the message in front off the queue, whole.
pub fetch_front :
    (t : CompatTunnel) (b : Bridge) (response : Text) (rest : List Text)
    → t.queued_responses ≡ response ∷ rest
    → fetch t b ≡ (
      record {
        bridge = b;
        tunnel = some (record t { queued_responses = rest });
        code = bambu_success;
        calls = [];
      },
      some (record {
        len = int_of_size (length response);
        copied = some response;
        ctrl = some 0x3001;
      }),
    )
unfolding fetch recv_tunnel_message receive_front
fetch_front t b response rest e = ground (arith, int_lt_irrefl (int_of_size (length response)))

fetch_nothing :
    (t : CompatTunnel) (b : Bridge)
    → t.queued_responses ≡ []
    → fetch t b
      ≡ (record { bridge = b; tunnel = some t; code = bambu_would_block; calls = [] }, none)
unfolding fetch recv_tunnel_message receive_front
fetch_nothing t b e = ground arith

-- The message that a fetch copied out.
abbrev pub copied_by : Option Received → Option Text
copied_by none = none
copied_by (some r) = r.copied

-- Fetching at most so many messages, until there is none.
pub fetch_all : ℕ → Option CompatTunnel → Bridge → List Text
fetch_all zero t b = []
fetch_all (suc n) none b = []
fetch_all (suc n) (some t) b =
    let (o, r) = fetch t b in
    let rest = fetch_all n o.tunnel o.bridge in
    elim (copied_by r) [ none ↦ [] | some message ↦ message ∷ rest ]

fetch_all_from :
    (q : List Text) (n : ℕ) (t : CompatTunnel) (b : Bridge)
    → t.queued_responses ≡ q
    → length q ≤ n
    → fetch_all n (some t) b ≡ q
unfolding fetch_all
fetch_all_from [] zero t b e h = refl
fetch_all_from [] (suc n) t b e h = rw (fetch_nothing t b e, fetch_all)
fetch_all_from (m ∷ q) zero t b e h = absurd (omega arith)
fetch_all_from (m ∷ q) (suc n) t b e h =
    rw (fetch_front t b m q e, fetch_all)
      (rw (fetch_front t b m q e)
        (ap (◌∷◌ m) (fetch_all_from q n (record t { queued_responses = q }) b refl (omega arith))))

-- Fetched until there is none, the queued responses arrive in the order in which they were queued.
pub fetch_all-queued_responses :
    (n : ℕ) (t : CompatTunnel) (b : Bridge)
    → length t.queued_responses ≤ n
    → fetch_all n (some t) b ≡ t.queued_responses
fetch_all-queued_responses n t b h = fetch_all_from t.queued_responses n t b refl h

send_download :
    (answer : Text → Text → Text → Text) (request : Text) (t : CompatTunnel) (b : Bridge) (i : ℕ)
    → find (codes "\"cmdtype\":4") request ≡ some i
    → is_empty (answer t.url t.device_id request) ≡ false
    → send_tunnel_message answer (pos 0x3001) (some request) (some t) b
      ≡ succeed b
          (record t {
            queued_responses =
                t.queued_responses
                ++ split_file_download_response_frames (answer t.url t.device_id request);
          })
          (tunnel_requested t.url t.device_id request ∷ [])
unfolding send_tunnel_message queued_for
send_download answer request t b i found answered = rw (found, answered)

chunk_size-pos : 0 < k_tunnel_download_chunk_size
unfolding k_tunnel_download_chunk_size
chunk_size-pos = omega arith

-- A file-download request that is answered at all delivers the file: on a tunnel with nothing queued,
-- the messages fetched after it, as many as there are frames or more, are, put together as frames,
-- what stands behind the first empty line of the answer of the Rust side.
pub download_delivers :
    (answer : Text → Text → Text → Text) (request : Text) (t : CompatTunnel) (b : Bridge) (i n : ℕ)
    → find (codes "\"cmdtype\":4") request ≡ some i
    → t.queued_responses ≡ []
    → is_empty (answer t.url t.device_id request) ≡ false
    → length (split_file_download_response_frames (answer t.url t.device_id request)) ≤ n
    → let o = send_tunnel_message answer (pos 0x3001) (some request) (some t) b in
      reassembled (fetch_all n o.tunnel o.bridge) ≡ frame_payload (answer t.url t.device_id request)
download_delivers answer request t b i n found idle answered h =
    let response = answer t.url t.device_id request in
    let frames = split_file_download_response_frames response in
    rw (send_download answer request t b i found answered) (
      ap reassembled (
        fetch_all_from frames n (record t { queued_responses = t.queued_responses ++ frames }) b
          (ap (λ q. q ++ frames) idle) h)
      ∙ (unfold split_file_download_response_frames in
          reassembled-split_frames k_tunnel_download_chunk_size response chunk_size-pos))
