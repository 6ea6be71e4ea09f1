-- ===== src/WebSocket/Handshake.antt =====
-- handle_handshake of server/src/websocket_server.c. SHA-1 and Base64 are OpenSSL's; the accept key
-- that they give only goes into the response.
use chatweb.Base.{
  ℕ, ◌-◌, Bool, true, false, [], ◌∷◌, Option, none, some, ltb, ◌==◌, if◌then◌else◌, length, drop,
}
use chatweb.Libc.{Bytes, bytes}
use chatweb.Utils.Strings.{strstartswith}
use chatweb.WebSocket.Receive.{Client, ConnectionState}

-- strstr: what starts with the needle, from its first occurrence on
unfoldable pub strstr : Bytes → Bytes → Option Bytes
strstr [] needle = if strstartswith [] needle then some [] else none
strstr (c ∷ s) needle =
    let rest = strstr s needle in if strstartswith (c ∷ s) needle then some (c ∷ s) else rest

unfoldable pub skip_blanks : Bytes → Bytes
skip_blanks [] = []
skip_blanks (c ∷ s) = let rest = skip_blanks s in if c == 32 then rest else c ∷ s

abbrev pub key_label : Bytes
key_label = bytes "Sec-WebSocket-Key:"

abbrev pub line_end : Bytes
line_end = 13 ∷ 10 ∷ []

-- The length of the key in the request, if it fits into its 256 bytes.
unfoldable pub handshake_key : Bytes → Option ℕ
handshake_key request = elim (strstr request key_label) [
  | none ↦ none
  | some found ↦
      let key_start = skip_blanks (drop (length key_label) found) in
      elim (strstr key_start line_end) [
        | none ↦ none
        | some key_end ↦
            let key_len = length key_start - length key_end in
            if ltb key_len 256 then some key_len else none
      ]
]

-- The request as a string of C, which ends at its first zero.
unfoldable pub c_string : Bytes → Bytes
c_string [] = []
c_string (c ∷ s) = let rest = c_string s in if c == 0 then [] else c ∷ rest

-- 0 or -1, and the client; the flag says whether the response can be sent.
unfoldable pub handle_handshake : Bool → ℕ → Client → Bytes → Bool × Client
handle_handshake send_ok now client request = elim (handshake_key (c_string request)) [
  | none ↦ (false, client)
  | some key_len ↦
      if send_ok
      then (true, record client { state = ConnectionState.opened; last_activity = now })
      else (false, client)
]
