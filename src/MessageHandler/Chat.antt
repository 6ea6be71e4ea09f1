-- ===== src/MessageHandler/Chat.antt =====
-- handle_chat_text_send of server/src/message_handler.c. What is outside the handler is a record of
-- answers: the user manager, the memory allocator, the database and the connection. `none` is a read
-- outside an object; what a send returns does not matter and is left out.
pub mod Receivers
use chatweb.Base.{
  ℕ, suc, ◌+◌, ◌≤◌, ◌<◌, ◌^◌, ◌↔◌, ◌≡◌, ◌≢◌, refl, sym, ap, ap₂, ◌∙◌, Bool, true, false, not, List,
  [], ◌∷◌, ◌++◌, Option, none, some, arith, length, take, leb, ltb, ◌==◌, Bool-cases, inl, inr,
  take-append_length, if◌then◌else◌, length-append,
}
use chatweb.Base.Memory.{sub_size}

-- The fields of message_content_t that are read before the content.
pub record Content : Type 0 where
  pub sender_id : ℕ
  pub receiver_id : ℕ
  pub content_length : ℕ

pub record Surroundings : Type 0 where
  -- user_manager_get_online_users: the ids, or no answer
  pub online_users : Option (List ℕ)
  pub is_online : ℕ → Bool
  -- whether malloc succeeds, and what then stands at an index before it is written
  pub memory : Bool
  pub uninitialised : ℕ → ℕ
  -- whether the statement for the database is prepared
  pub prepared : Bool
  -- what message_send_response returns
  pub response : ℕ

-- What the handler returns, the users it sends the message to, and whether it is put in the database.
pub record Outcome : Type 0 where
  pub code : ℕ
  pub sent_to : List ℕ
  pub stored : Bool

abbrev pub max_message_size : ℕ
max_message_size = 65536

-- The array of ids after the loop, from index i on.
unfoldable pub user_ids_from : (ℕ → ℕ) → ℕ → ℕ → List ℕ → List ℕ
user_ids_from uninitialised own i [] = []
user_ids_from uninitialised own i (user ∷ users) =
    (if user == own then uninitialised i else user) ∷ user_ids_from uninitialised own (suc i) users

unfoldable pub message_broadcast_to_users : List ℕ → ℕ → Option (List ℕ)
message_broadcast_to_users user_ids user_count =
    if leb user_count (length user_ids) then some (take user_count user_ids) else none

unfoldable pub broadcast : Surroundings → ℕ → Option (List ℕ)
broadcast around own = elim around.online_users [
  | none ↦ some []
  | some users ↦
      if around.memory
      then message_broadcast_to_users (user_ids_from around.uninitialised own 0 users)
          (sub_size (length users) 1)
      else some []
]

-- The content is read where it is put in the database.
unfoldable pub store_text : Surroundings → Content → ℕ → ℕ → List ℕ → Option Outcome
store_text around msg len header sent_to =
    if not around.prepared
    then some (record { code = around.response; sent_to = sent_to; stored = false })
    else if leb (header + msg.content_length) len
    then some (record { code = around.response; sent_to = sent_to; stored = true })
    else none

-- `own` is the user of the connection and `header` is the size of message_content_t. The signs of the
-- codes -1, -2 and -3 are left out, and the codes 1, 2 and 3 go with nothing sent.
unfoldable pub handle_chat_text_send : Surroundings → ℕ → ℕ → Content → ℕ → Option Outcome
handle_chat_text_send around own header msg len =
    if ltb len header
    then some (record { code = 1; sent_to = []; stored = false })
    else if not (msg.sender_id == own)
    then some (record { code = 2; sent_to = []; stored = false })
    else if ltb max_message_size msg.content_length
    then some (record { code = 3; sent_to = []; stored = false })
    else if msg.receiver_id == 0
    then elim (broadcast around own) [
      | none ↦ none
      | some sent_to ↦ store_text around msg len header sent_to
    ]
    else if around.is_online msg.receiver_id
    then store_text around msg len header (msg.receiver_id ∷ [])
    else store_text around msg len header []
