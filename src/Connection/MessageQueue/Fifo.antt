-- ===== src/Connection/MessageQueue/Fifo.antt =====
-- The message queue is a bounded FIFO, whatever other threads do while a call waits.
use native.Mathlib.Nat.{mod-add-mod, mod-lt}
use chatweb.Base.{
  ℕ, suc, ◌+◌, ◌-◌, ◌%◌, ◌≤◌, ◌<◌, ◌≡◌, ◌≢◌, refl, sym, ap, ap₂, ◌∙◌, ◌⊎◌, inl, inr, Bool, true,
  false, List, [], ◌∷◌, ◌++◌, arith, ◌==◌, length, length-set, set, ltb→lt, Bool-cases,
}
use chatweb.Base.Memory.{set-splice}
use chatweb.Utils.RingBuffer.Window.{window, window-add, window-splice_before, window-splice_self}
use chatweb.Connection.MessageQueue.{
  MessageQueue, Wake, expired, woken, Outcome, returns, gives_up, waits, await, not_full, not_empty,
  enqueue, dequeue, PushResult, pushed, message_queue_push, message_queue_pop,
}

pub record IsValid (q : MessageQueue) : Type 0 where
  pub storage : length q.messages ≡ q.capacity
  pub nonempty : 0 < q.capacity
  pub head_in : q.head < q.capacity
  pub count_in : q.count ≤ q.capacity
  pub tail_at : q.tail ≡ (q.head + q.count) % q.capacity

-- The messages that wait, oldest first.
abbrev pub contents : MessageQueue → List ℕ
contents q = window q.messages q.capacity q.head q.count

pub enqueue-contents :
    (q : MessageQueue) (m : ℕ)
    → IsValid q
    → q.count < q.capacity
    → IsValid (enqueue q m) × (contents (enqueue q m) ≡ contents q ++ (m ∷ []))
unfolding enqueue
enqueue-contents q m v h =
    let tail_in : q.tail < q.capacity = rw v.tail_at (mod-lt (q.head + q.count) v.nonempty) in
    let e = set-splice q.messages q.tail m (rw v.storage tail_in) in
    (
      record {
        storage = length-set q.messages q.tail m ∙ v.storage;
        nonempty = v.nonempty;
        head_in = v.head_in;
        count_in = omega arith;
        tail_at =
            ap (λ t. (t + 1) % q.capacity) v.tail_at
            ∙ mod-add-mod (q.head + q.count) q.capacity 1
            ∙ ap (λ k. k % q.capacity) {x = q.head + q.count + 1} (omega arith);
      },
      window-add (set q.messages q.tail m) q.capacity q.head q.count 1 v.head_in
          ∙ rw (e, sym v.tail_at)
              (ap₂ ◌++◌
                (window-splice_before q.messages q.capacity (m ∷ []) q.tail q.head q.count v.storage
                  v.head_in (omega arith) (omega arith) v.tail_at)
                (window-splice_self q.messages q.capacity (m ∷ []) q.tail v.storage (omega arith))),
    )

pub dequeue-contents :
    (q : MessageQueue)
    → IsValid q
    → 0 < q.count
    → let (m, q') = dequeue q in IsValid q' × (contents q ≡ m ∷ contents q')
unfolding dequeue
dequeue-contents q v h = (
  record {
    storage = v.storage;
    nonempty = v.nonempty;
    head_in = mod-lt (q.head + 1) v.nonempty;
    count_in = let c = v.count_in in omega arith;
    tail_at =
        v.tail_at
        ∙ ap (λ k. k % q.capacity) {y = q.head + 1 + (q.count - 1)} (omega arith)
        ∙ sym (mod-add-mod (q.head + 1) q.capacity (q.count - 1));
  },
  ap (window q.messages q.capacity q.head) {x = q.count} {y = suc (q.count - 1)} (omega arith),
)

-- Every queue that a waiting thread may find is valid.
abbrev pub AllValid : List Wake → Type 0
AllValid [] = Unit {0}
AllValid (expired ∷ ws) = AllValid ws
AllValid (woken q ∷ ws) = IsValid q × AllValid ws

-- `q'` is the first queue that the thread finds ready: `q` itself, or one that it woke up to.
abbrev pub FirstReady : (MessageQueue → Bool) → MessageQueue → List Wake → MessageQueue → Type 0
FirstReady ready q [] q' = (ready q ≡ true) × (q' ≡ q)
FirstReady ready q (expired ∷ ws) q' = FirstReady ready q ws q'
FirstReady ready q (woken x ∷ ws) q' =
    ((ready q ≡ true) × (q' ≡ q)) ⊎ ((ready q ≡ false) × FirstReady ready x ws q')

FirstReady-self :
    (ready : MessageQueue → Bool) (q : MessageQueue) (ws : List Wake)
    → ready q ≡ true
    → FirstReady ready q ws q
FirstReady-self ready q [] r = (r, refl)
FirstReady-self ready q (expired ∷ ws) r = FirstReady-self ready q ws r
FirstReady-self ready q (woken x ∷ ws) r = inl (r, refl)

-- How a wait may end: with the first ready queue, which is valid, or, with nothing ready at the
-- start, by the deadline if there is one, or not yet.
abbrev pub Awaits :
    Bool → (MessageQueue → Bool) → MessageQueue → List Wake → Outcome MessageQueue → Type 0
Awaits timed ready q ws (returns q') = FirstReady ready q ws q' × IsValid q' × (ready q' ≡ true)
Awaits timed ready q ws gives_up = (timed ≡ true) × (ready q ≡ false)
Awaits timed ready q ws waits = ready q ≡ false

-- What a wait that woke up to `x` does, seen from before.
Awaits-woken :
    (timed : Bool) (ready : MessageQueue → Bool) (q x : MessageQueue) (ws : List Wake)
    (out : Outcome MessageQueue)
    → ready q ≡ false
    → Awaits timed ready x ws out
    → Awaits timed ready q (woken x ∷ ws) out
Awaits-woken timed ready q x ws (returns q') r h = (inr (r, h.0), h.1, h.2)
Awaits-woken timed ready q x ws gives_up r h = (h.0, r)
Awaits-woken timed ready q x ws waits r h = r

Awaits-expired :
    (timed : Bool) (ready : MessageQueue → Bool) (q : MessageQueue) (ws : List Wake)
    (out : Outcome MessageQueue)
    → Awaits timed ready q ws out
    → Awaits timed ready q (expired ∷ ws) out
Awaits-expired timed ready q ws (returns q') h = h
Awaits-expired timed ready q ws gives_up h = h
Awaits-expired timed ready q ws waits h = h

await-Awaits :
    (timed : Bool) (ready : MessageQueue → Bool) (q : MessageQueue) (ws : List Wake)
    → IsValid q
    → AllValid ws
    → Awaits timed ready q ws (await timed ready q ws)
unfolding await
await-Awaits timed ready q [] v a = elim (Bool-cases (ready q)) [
  | inl r ↦ rw (r, await) ((r, refl), v, r)
  | inr r ↦ rw (r, await) r
]
await-Awaits true ready q (expired ∷ ws) v a = elim (Bool-cases (ready q)) [
  | inl r ↦ rw (r, await) (FirstReady-self ready q ws r, v, r)
  | inr r ↦ rw (r, await) (refl, r)
]
await-Awaits false ready q (expired ∷ ws) v a = elim (Bool-cases (ready q)) [
  | inl r ↦ rw (r, await) (FirstReady-self ready q ws r, v, r)
  | inr r ↦
      rw (r, await)
        (Awaits-expired false ready q ws (await false ready q ws)
          (await-Awaits false ready q ws v a))
]
await-Awaits timed ready q (woken x ∷ ws) v a = elim (Bool-cases (ready q)) [
  | inl r ↦ rw (r, await) (inl (r, refl), v, r)
  | inr r ↦
      rw (r, await)
        (Awaits-woken timed ready q x ws (await timed ready x ws) r
          (await-Awaits timed ready x ws a.0 a.1))
]

-- What a push of the message `m` may come to.
abbrev pub Pushes :
    Bool → MessageQueue → ℕ → List Wake → Outcome (PushResult × MessageQueue) → Type 0
Pushes timed q m ws (returns (r, q')) =
    (q₀ : MessageQueue) × FirstReady not_full q ws q₀
    × (r ≡ pushed)
    × IsValid q'
    × (contents q' ≡ contents q₀ ++ (m ∷ []))
Pushes timed q m ws gives_up = (timed ≡ true) × (not_full q ≡ false)
Pushes timed q m ws waits = not_full q ≡ false

Awaits-Pushes :
    (timed : Bool) (q : MessageQueue) (m : ℕ) (ws : List Wake) (out : Outcome MessageQueue)
    → Awaits timed not_full q ws out
    → Pushes timed q m ws (elim out [
      | returns q' ↦ returns (pushed, enqueue q' m)
      | gives_up ↦ gives_up
      | waits ↦ waits
    ])
Awaits-Pushes timed q m ws (returns q') h =
    let (v, e) = enqueue-contents q' m h.1 (ltb→lt _ _ h.2) in (q', h.0, refl, v, e)
Awaits-Pushes timed q m ws gives_up h = h
Awaits-Pushes timed q m ws waits h = h

-- A push of a message to a valid queue puts it behind those that wait in the first queue it finds
-- not full, and leaves a valid queue. It gives up only with a deadline, and it gives up or waits
-- only if the queue was full when it was called.
pub message_queue_push-Pushes :
    (timed : Bool) (q : MessageQueue) (m : ℕ) (ws : List Wake)
    → IsValid q
    → AllValid ws
    → m ≢ 0
    → Pushes timed q m ws (message_queue_push timed q m ws)
message_queue_push-Pushes timed q m ws v a nz =
    let message : (m == 0) ≡ false = ground arith in
    unfold message_queue_push in
    rw message (
      Awaits-Pushes timed q m ws (await timed not_full q ws) (await-Awaits timed not_full q ws v a))

-- What a pop may come to.
abbrev pub Pops : Bool → MessageQueue → List Wake → Outcome (ℕ × MessageQueue) → Type 0
Pops timed q ws (returns (m, q')) =
    (q₀ : MessageQueue) × FirstReady not_empty q ws q₀
    × IsValid q'
    × (contents q₀ ≡ m ∷ contents q')
Pops timed q ws gives_up = (timed ≡ true) × (not_empty q ≡ false)
Pops timed q ws waits = not_empty q ≡ false

Awaits-Pops :
    (timed : Bool) (q : MessageQueue) (ws : List Wake) (out : Outcome MessageQueue)
    → Awaits timed not_empty q ws out
    → Pops timed q ws
        (elim out [ returns q' ↦ returns (dequeue q') | gives_up ↦ gives_up | waits ↦ waits ])
Awaits-Pops timed q ws (returns q') h =
    let (v, e) = dequeue-contents q' h.1 (ltb→lt _ _ h.2) in (q', h.0, v, e)
Awaits-Pops timed q ws gives_up h = h
Awaits-Pops timed q ws waits h = h

-- A pop of a valid queue takes the oldest message of the first queue it finds not empty, and leaves
-- a valid queue of the rest. It gives up only with a deadline, and it gives up or waits only if the
-- queue was empty when it was called.
pub message_queue_pop-Pops :
    (timed : Bool) (q : MessageQueue) (ws : List Wake)
    → IsValid q
    → AllValid ws
    → Pops timed q ws (message_queue_pop timed q ws)
unfolding message_queue_pop
message_queue_pop-Pops timed q ws v a =
    Awaits-Pops timed q ws (await timed not_empty q ws) (await-Awaits timed not_empty q ws v a)
