-- ===== src/MessageHandler/Chat/Receivers.antt =====
-- The theorems on handle_chat_text_send of server/src/message_handler.c.
use chatweb.Base.{
  ℕ, suc, ◌+◌, ◌≤◌, ◌<◌, ◌^◌, ◌↔◌, ◌≡◌, ◌≢◌, refl, sym, ap, ap₂, ◌∙◌, Bool, true, false, not, List,
  [], ◌∷◌, ◌++◌, none, some, arith, length, leb, ltb, ◌==◌, Bool-cases, inl, inr,
  take-append_length, if◌then◌else◌, length-append,
}
use chatweb.Base.Memory.{sub_size}
use chatweb.MessageHandler.Chat.{
  Content, Surroundings, Outcome, max_message_size, user_ids_from, message_broadcast_to_users,
  broadcast, store_text, handle_chat_text_send,
}

abbrev pub LacksUser : ℕ → List ℕ → Type 0
LacksUser own [] = Unit {0}
LacksUser own (user ∷ users) = (user ≢ own) × LacksUser own users

user_ids_from-LacksUser :
    (uninitialised : ℕ → ℕ) (own i : ℕ) (users : List ℕ)
    → LacksUser own users
    → user_ids_from uninitialised own i users ≡ users
unfolding user_ids_from
user_ids_from-LacksUser uninitialised own i [] l = refl
user_ids_from-LacksUser uninitialised own i (user ∷ users) (n, l) =
    let e : (user == own) ≡ false = ground (arith, n) in
    rw (e, user_ids_from, user_ids_from-LacksUser uninitialised own (suc i) users l) refl

user_ids_from-append :
    (uninitialised : ℕ → ℕ) (own i : ℕ) (xs ys : List ℕ)
    → user_ids_from uninitialised own i (xs ++ ys)
      ≡ user_ids_from uninitialised own i xs ++ user_ids_from uninitialised own (i + length xs) ys
unfolding user_ids_from
user_ids_from-append uninitialised own i [] ys =
    let e : i ≡ i + 0 = omega arith in ap (λ k. user_ids_from uninitialised own k ys) e
user_ids_from-append uninitialised own i (x ∷ xs) ys =
    let e : suc i + length xs ≡ i + suc (length xs) = omega arith in
    ap (λ rest. (if x == own then uninitialised i else x) ∷ rest)
      (user_ids_from-append uninitialised own (suc i) xs ys
        ∙ ap
            (λ k.
              user_ids_from uninitialised own (suc i) xs ++ user_ids_from uninitialised own k ys)
            e)

length-user_ids_from :
    (uninitialised : ℕ → ℕ) (own i : ℕ) (users : List ℕ)
    → length (user_ids_from uninitialised own i users) ≡ length users
unfolding user_ids_from
length-user_ids_from uninitialised own i [] = refl
length-user_ids_from uninitialised own i (user ∷ users) =
    ap suc (length-user_ids_from uninitialised own (suc i) users)

-- A broadcast with one online user at least sends to all entries but the last.
broadcast_lem :
    (around : Surroundings) (own last : ℕ) (users : List ℕ)
    → around.online_users ≡ some (users ++ (last ∷ []))
    → around.memory ≡ true
    → length users < 2 ^ 63
    → broadcast around own ≡ some (user_ids_from around.uninitialised own 0 users)
unfolding broadcast message_broadcast_to_users
broadcast_lem around own last users e m h =
    let ids = user_ids_from around.uninitialised own 0 users in
    let n : length ids ≡ length users = length-user_ids_from around.uninitialised own 0 users in
    let k : length (users ++ (last ∷ [])) ≡ suc (length users) =
      omega (arith, length-append users (last ∷ [])) in
    let c : sub_size (length (users ++ (last ∷ []))) 1 ≡ length ids = omega (arith, k, n, h) in
    let l : length (user_ids_from around.uninitialised own 0 (users ++ (last ∷ [])))
        ≡ suc (length ids) =
      length-user_ids_from around.uninitialised own 0 (users ++ (last ∷ [])) ∙ k ∙ ap suc (sym n) in
    let b : leb (length ids)
          (length (user_ids_from around.uninitialised own 0 (users ++ (last ∷ []))))
        ≡ true =
      rw l (ground arith) in
    rw (e, m, broadcast, c, message_broadcast_to_users, b)
      (ap some (
        rw (user_ids_from-append around.uninitialised own 0 users (last ∷ []))
          (take-append_length ids _)))

-- A sound text for everyone, from the user of the connection.
abbrev pub IsBroadcast : ℕ → ℕ → Content → ℕ → Type 0
IsBroadcast own header msg len =
    (msg.sender_id ≡ own)
    × (msg.receiver_id ≡ 0)
    × (msg.content_length ≤ max_message_size)
    × (header + msg.content_length ≤ len)

handle_chat_text_send-IsBroadcast :
    (around : Surroundings) (own header len : ℕ) (msg : Content) (sent_to : List ℕ)
    → IsBroadcast own header msg len
    → around.prepared ≡ true
    → broadcast around own ≡ some sent_to
    → handle_chat_text_send around own header msg len
      ≡ some (record { code = around.response; sent_to = sent_to; stored = true })
unfolding handle_chat_text_send store_text
handle_chat_text_send-IsBroadcast around own header len msg sent_to (s, r, m, f) p b =
    let long : ltb len header ≡ false = ground (arith, f) in
    let same : (msg.sender_id == own) ≡ true = ground (arith, s) in
    let small : ltb max_message_size msg.content_length ≡ false = ground (arith, m) in
    let all : (msg.receiver_id == 0) ≡ true = ground (arith, r) in
    let fits : leb (header + msg.content_length) len ≡ true = ground (arith, f) in
    rw (long, same, small, all, b, p, fits, handle_chat_text_send, store_text) refl

-- A text for everyone from the connection's user, not too large and wholly inside its message, where
-- the array for the fewer than 2^63 other users can be allocated and the statement for the database prepared, and the sender is once
-- among the online users, but not the last: the text is sent to the users before the sender, to the
-- number that stood in an element of the array that was never written, and to the users after the
-- sender but the last. The handler puts the text in the database and answers as always.
pub handle_chat_text_send-broadcast :
    (around : Surroundings) (own header len last : ℕ) (msg : Content) (before after : List ℕ)
    → around.online_users ≡ some ((before ++ (own ∷ after)) ++ (last ∷ []))
    → around.memory ≡ true
    → around.prepared ≡ true
    → LacksUser own before
    → LacksUser own after
    → length (before ++ (own ∷ after)) < 2 ^ 63
    → IsBroadcast own header msg len
    → handle_chat_text_send around own header msg len
      ≡ some (record {
        code = around.response;
        sent_to = before ++ (around.uninitialised (length before) ∷ after);
        stored = true;
      })
unfolding user_ids_from
handle_chat_text_send-broadcast around own header len last msg before after o m p lb la h i =
    let self : (own == own) ≡ true = ground arith in
    let ids : user_ids_from around.uninitialised own 0 (before ++ (own ∷ after))
        ≡ before ++ (around.uninitialised (length before) ∷ after) =
      user_ids_from-append around.uninitialised own 0 before (own ∷ after)
      ∙ ap₂ (λ xs ys. xs ++ ys) (user_ids_from-LacksUser around.uninitialised own 0 before lb)
          (ap₂ ◌∷◌ (rw self (ap around.uninitialised (omega arith))) (
            user_ids_from-LacksUser around.uninitialised own (suc (0 + length before)) after la)) in
    handle_chat_text_send-IsBroadcast around own header len msg _ i p
      (broadcast_lem around own last (before ++ (own ∷ after)) o m h ∙ ap some ids)

none_cases :
    (p l : Bool) (x y : Outcome)
    → ((if not p then some x else (if l then some y else none)) ≡ none) ↔ ((p ≡ true) × (l ≡ false))
none_cases true true x y = ((λ e. absurd (ground (arith, e))), λ c. absurd (ground (arith, c.1)))
none_cases true false x y = ((λ e. (refl, refl)), λ c. refl)
none_cases false l x y = ((λ e. absurd (ground (arith, e))), λ c. absurd (ground (arith, c.0)))

store_text-none :
    (around : Surroundings) (msg : Content) (len header : ℕ) (sent_to : List ℕ)
    → (store_text around msg len header sent_to ≡ none)
      ↔ ((around.prepared ≡ true) × (len < header + msg.content_length))
unfolding store_text
store_text-none around msg len header sent_to =
    let (to, from) =
      none_cases around.prepared (leb (header + msg.content_length) len)
        (record { code = around.response; sent_to = sent_to; stored = false })
        (record { code = around.response; sent_to = sent_to; stored = true }) in
    ((λ e. let (p, l) = to e in (p, ground (arith, l))), λ c. from (c.0, ground (arith, c.1)))

-- A text for one user, from the user of the connection, with the fixed part of the message there: the
-- handler reads outside the message if and only if the statement can be prepared and the length the
-- client wrote is allowed and goes past the end of the message.
pub handle_chat_text_send-overrun :
    (around : Surroundings) (own header len : ℕ) (msg : Content)
    → msg.sender_id ≡ own
    → msg.receiver_id ≢ 0
    → header ≤ len
    → (handle_chat_text_send around own header msg len ≡ none) ↔ (
        (around.prepared ≡ true)
        × (msg.content_length ≤ max_message_size)
        × (len < header + msg.content_length))
unfolding handle_chat_text_send store_text
handle_chat_text_send-overrun around own header len msg s r f =
    let long : ltb len header ≡ false = ground (arith, f) in
    let same : (msg.sender_id == own) ≡ true = ground (arith, s) in
    let one : (msg.receiver_id == 0) ≡ false = ground (arith, r) in
    elim (Bool-cases (ltb max_message_size msg.content_length)) [
      | inl big ↦
          rw (long, same, big, handle_chat_text_send)
            ((λ e. absurd (ground (arith, e))), λ c. absurd (ground (arith, big, c.1)))
      | inr small ↦
          let m : msg.content_length ≤ max_message_size = ground (arith, small) in
          let stored = store_text-none around msg len header in
          elim (Bool-cases (around.is_online msg.receiver_id)) [
            | inl on ↦
                rw (long, same, one, small, on, handle_chat_text_send)
                  (with_size m (stored (msg.receiver_id ∷ [])))
            | inr off ↦
                rw (long, same, one, small, off, handle_chat_text_send) (with_size m (stored []))
          ]
    ]
  where
    with_size : {A B C D : Type 0} → C → A ↔ (B × D) → A ↔ (B × C × D)
    with_size c (to, from) = ((λ a. ((to a).0, c, (to a).1)), λ d. from (d.0, d.2))
