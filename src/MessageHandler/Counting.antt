-- ===== src/MessageHandler/Counting.antt =====
-- The statistics of server/src/message_handler.c over any messages.
use chatweb.Base.{
  ℕ, suc, ◌⊎◌, ◌+◌, ◌≤◌, ◌<◌, ◌^◌, ◌≡◌, ◌≢◌, refl, subst, ◌∙◌, Bool, true, false, List, [], ◌∷◌,
  length, arith, ◌==◌, inl, inr,
}
use chatweb.MessageHandler.{
  Stats, Manager, Client, Sizes, Processed, update_statistics, message_handler_process,
}
use chatweb.MessageHandler.Access.{Ended, message_handler_process-Ended}

-- A call of message_handler_process, and what each handler would return to it.
pub record Call : Type 0 where
  pub conn : Client
  pub message_type : ℕ
  pub len : ℕ
  pub returns : ℕ → ℕ

abbrev pub manager_after : Processed → Manager
manager_after (Processed.refused code mgr) = mgr
manager_after (Processed.handled entry result mgr) = mgr

unfoldable pub process_all : Sizes → Manager → List Call → Manager
process_all sizes mgr [] = mgr
process_all sizes mgr (call ∷ calls) =
    process_all sizes
      (manager_after
        (message_handler_process sizes call.returns mgr call.conn call.message_type call.len))
      calls

abbrev pub HaveBytes : List Call → Type 0
HaveBytes [] = Unit {0}
HaveBytes (call ∷ calls) = (call.len ≢ 0) × HaveBytes calls

-- Each of n messages is counted once, and each failure of authentication or encryption is counted as
-- a failure too.
abbrev pub IsCounted : ℕ → Stats → Type 0
IsCounted n stats =
    (stats.messages_processed + (stats.messages_failed + stats.invalid_messages) ≡ n)
    × (stats.authentication_failures + stats.encryption_failures ≤ stats.messages_failed)

update_statistics-IsCounted :
    (mgr : Manager) (n : ℕ) (success auth encryption : Bool)
    → (auth ≡ false) ⊎ (encryption ≡ false)
    → suc n < 2 ^ 64
    → IsCounted n mgr.stats
    → IsCounted (suc n) (update_statistics mgr success auth encryption).stats
unfolding update_statistics
update_statistics-IsCounted mgr n true auth encryption o h (e, l) =
    (omega (arith, e, h), omega (arith, e, l, h))
update_statistics-IsCounted mgr n false true true (inl o) h (e, l) = absurd (cc o)
update_statistics-IsCounted mgr n false true true (inr o) h (e, l) = absurd (cc o)
update_statistics-IsCounted mgr n false true false o h (e, l) =
    (omega (arith, e, l, h), omega (arith, e, l, h))
update_statistics-IsCounted mgr n false false true o h (e, l) =
    (omega (arith, e, l, h), omega (arith, e, l, h))
update_statistics-IsCounted mgr n false false false o h (e, l) =
    (omega (arith, e, l, h), omega (arith, e, l, h))

Ended-IsCounted :
    (mgr : Manager) (conn : Client) (message_type n : ℕ) (p : Processed)
    → suc n < 2 ^ 64
    → IsCounted n mgr.stats
    → Ended mgr conn message_type p
    → IsCounted (suc n) (manager_after p).stats
Ended-IsCounted mgr conn message_type n _ h c Ended.unknown =
    update_statistics-IsCounted mgr n false false false (inl refl) h c
Ended-IsCounted mgr conn message_type n _ h (e, l) Ended.unsound = (omega (arith, e, l, h), l)
Ended-IsCounted mgr conn message_type n _ h c Ended.unauthenticated =
    update_statistics-IsCounted mgr n false true false (inr refl) h c
Ended-IsCounted mgr conn message_type n _ h c Ended.unencrypted =
    update_statistics-IsCounted mgr n false false true (inl refl) h c
Ended-IsCounted mgr conn message_type n _ h c (Ended.done entry result e i j) =
    update_statistics-IsCounted mgr n (result == 0) false false (inl refl) h c

Ended-handlers :
    (mgr : Manager) (conn : Client) (message_type : ℕ) (p : Processed)
    → Ended mgr conn message_type p
    → (manager_after p).handlers ≡ mgr.handlers
unfolding update_statistics
Ended-handlers mgr conn message_type _ Ended.unknown = refl
Ended-handlers mgr conn message_type _ Ended.unsound = refl
Ended-handlers mgr conn message_type _ Ended.unauthenticated = refl
Ended-handlers mgr conn message_type _ Ended.unencrypted = refl
Ended-handlers mgr conn message_type _ (Ended.done entry result e i j) = refl

-- Over any messages that have bytes, with fewer than 2^64 counted in all, each message is counted
-- once, as processed, as failed or as invalid, and the failures of authentication and of encryption
-- together stay at most the failures.
pub process_all-IsCounted :
    (sizes : Sizes) (calls : List Call) (mgr : Manager) (n : ℕ)
    → HaveBytes calls
    → n + length calls < 2 ^ 64
    → IsCounted n mgr.stats
    → IsCounted (n + length calls) (process_all sizes mgr calls).stats
unfolding process_all
process_all-IsCounted sizes [] mgr n b h c =
    let e : n ≡ n + 0 = omega arith in subst (λ k. IsCounted k mgr.stats) e c
process_all-IsCounted sizes (call ∷ calls) mgr n (b, bs) h c =
    let mgr' =
      manager_after
        (message_handler_process sizes call.returns mgr call.conn call.message_type call.len) in
    let e : suc n + length calls ≡ n + suc (length calls) = omega arith in
    let ended =
      message_handler_process-Ended sizes call.returns mgr call.conn call.message_type call.len b in
    let counted = Ended-IsCounted mgr call.conn call.message_type n _ (omega (arith, h)) c ended in
    subst (λ k. IsCounted k (process_all sizes mgr' calls).stats) e
      (process_all-IsCounted sizes calls mgr' (suc n) bs (omega (arith, h)) counted)

pub process_all-handlers :
    (sizes : Sizes) (calls : List Call) (mgr : Manager)
    → HaveBytes calls
    → (process_all sizes mgr calls).handlers ≡ mgr.handlers
unfolding process_all
process_all-handlers sizes [] mgr b = refl
process_all-handlers sizes (call ∷ calls) mgr (b, bs) =
    process_all-handlers sizes calls _ bs
    ∙ Ended-handlers mgr call.conn call.message_type _ (
        message_handler_process-Ended sizes call.returns mgr call.conn call.message_type call.len b)
