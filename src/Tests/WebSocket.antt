-- ===== src/Tests/WebSocket.antt =====
-- The theorems on server/src/websocket_server.c at concrete inputs.
use chatweb.Base.{◌≡◌, refl, inl, inr, true, false, [], ◌∷◌, some, arith}
use chatweb.Libc.{Bytes, bytes, IsBytes}
use chatweb.WebSocket.Frame.{
  high_first, read_header, extended_len, overrun, parsed, parse_payload, parse_frame, create_frame,
}
use chatweb.WebSocket.Frame.Masking.{Key}
use chatweb.WebSocket.Frame.RoundTrip.{IsKey, parse_frame-create_frame, parse_frame_overrun}
use chatweb.WebSocket.Receive.{Client, returns, delivered, handle_frame, process_websocket_frame}
use chatweb.WebSocket.Receive.Fragments.{
  IsValid, receive_all, continuations, counted, fragments-joined,
}
use chatweb.WebSocket.Receive.Single.{process_websocket_frame-parse_frame}
use chatweb.WebSocket.Server.{Server, new_stats, create_client, websocket_server_create}
use chatweb.WebSocket.Server.Waiting.{Steps, Waiting, Idle, websocket_server_create-Waiting}

abbrev key : Key
key = record { k₀ = 55; k₁ = 250; k₂ = 33; k₃ = 61 }

abbrev ni_hao : Bytes
ni_hao = 228 ∷ 189 ∷ 160 ∷ 229 ∷ 165 ∷ 189 ∷ []

ni_hao-IsBytes : IsBytes ni_hao
ni_hao-IsBytes =
    (omega arith, (omega arith, (omega arith, (omega arith, (omega arith, (omega arith, tt))))))

key-IsKey : IsKey (some key)
key-IsKey = (omega arith, (omega arith, (omega arith, (omega arith, tt))))

parse_frame-create_frame_example :
    parse_frame high_first (create_frame 1 ni_hao (some key)) ≡ parsed 1 true ni_hao
parse_frame-create_frame_example =
    parse_frame-create_frame 1 ni_hao (some key) (omega arith) ni_hao-IsBytes key-IsKey
      (omega arith)

-- A masked frame.
parse_frame_overrun_example :
    parse_frame high_first
      (130 ∷ 255 ∷ 255 ∷ 255 ∷ 255 ∷ 255 ∷ 255 ∷ 255 ∷ 255 ∷ 255 ∷ bytes "rest")
    ≡ overrun
unfolding read_header
parse_frame_overrun_example =
    parse_frame_overrun high_first 130 255 (bytes "rest") refl (inr (omega arith)) (omega arith)

abbrev client : Client
client = create_client 7 1000

fragments-joined_example :
    (c' : Client) × (receive_all 1000 client new_stats
        ((1, false, bytes "Hel") ∷ continuations (bytes "lo, " ∷ []) (bytes "you"))
      ≡ returns true c' (counted new_stats) (delivered 1 (bytes "Hello, you")))
    × IsValid c'
    × (c'.message_length ≡ 0)
fragments-joined_example =
    fragments-joined 1000 client new_stats 1 (bytes "Hel") (bytes "lo, " ∷ []) (bytes "you")
      (inl refl) (omega arith)

process_websocket_frame-parse_frame_example :
    process_websocket_frame high_first true 1000 65536 client new_stats (129 ∷ 2 ∷ 104 ∷ 105 ∷ [])
    ≡ handle_frame true 1000 client new_stats 1 true (104 ∷ 105 ∷ [])
unfolding parse_frame read_header extended_len parse_payload
process_websocket_frame-parse_frame_example =
    process_websocket_frame-parse_frame high_first 1000 65536 client new_stats
      (129 ∷ 2 ∷ 104 ∷ 105 ∷ []) 1 true (104 ∷ 105 ∷ []) refl (omega arith)

websocket_server_create-Waiting_example :
    (server : Server) × (websocket_server_create true true true 100 65536 60 30 ≡ some server)
    × ((server' : Server) → Steps server server' → Waiting server' × Idle server')
websocket_server_create-Waiting_example =
    websocket_server_create-Waiting 100 65536 60 30 (omega arith)
