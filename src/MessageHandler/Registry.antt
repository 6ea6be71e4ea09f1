-- ===== src/MessageHandler/Registry.antt =====
-- The handlers of server/src/message_handler.c as a map from types of messages.
use chatweb.Base.{
  ℕ, ◌≡◌, ◌≢◌, refl, ap, ◌∙◌, Bool, true, false, ◌&&◌, List, [], ◌∷◌, Option, none, some, arith,
  ◌==◌, if◌then◌else◌, Bool-cases, Option-cases, inl, inr,
}
use chatweb.MessageHandler.{
  Entry, Manager, find_handler, message_handler_register, remove_entry, message_handler_unregister,
}

-- No type has two entries, and each entry has a handler.
abbrev pub IsMap : List Entry → Type 0
IsMap [] = Unit {0}
IsMap (entry ∷ entries) =
    (find_handler entries entry.message_type ≡ none) × (entry.handler ≢ 0) × IsMap entries

type_eq :
    (entries : List Entry) (a t : ℕ)
    → (a == t) ≡ true
    → find_handler entries t ≡ find_handler entries a
type_eq entries a t h = let k : t ≡ a = ground arith in ap (find_handler entries) k

add_lem :
    (entries : List Entry) (entry : Entry) (t : ℕ)
    → find_handler (entry ∷ entries) t
      ≡ (if entry.message_type == t then some entry else find_handler entries t)
unfolding find_handler
add_lem entries entry t = refl

abbrev pub is_free : Option Entry → Bool
is_free none = true
is_free (some entry) = false

-- In a map, registering a handler that is not NULL, with memory at hand, returns 0 and gives the type
-- to it if the type was free, and otherwise returns -2 with the manager as it was. The handlers are a
-- map again, every other type keeps its entry, and the statistics stay.
pub message_handler_register-find_handler :
    (mgr : Manager) (message_type handler : ℕ) (auth encryption : Bool)
    → IsMap mgr.handlers
    → handler ≢ 0
    → let entry : Entry = record {
      message_type = message_type;
      handler = handler;
      require_auth = auth;
      require_encryption = encryption;
    } in
      let free = is_free (find_handler mgr.handlers message_type) in
      (mgr' : Manager) × (message_handler_register true mgr message_type handler auth encryption
        ≡ (if free then (0, mgr') else (2, mgr)))
      × IsMap mgr'.handlers
      × (mgr'.stats ≡ mgr.stats)
      × ((t : ℕ)
          → find_handler mgr'.handlers t
            ≡ (if free && (message_type == t) then some entry else find_handler mgr.handlers t))
unfolding message_handler_register
message_handler_register-find_handler mgr message_type handler auth encryption v h =
    let entry : Entry = record {
      message_type = message_type;
      handler = handler;
      require_auth = auth;
      require_encryption = encryption;
    } in
    let z : (handler == 0) ≡ false = ground (arith, h) in
    elim (Option-cases (find_handler mgr.handlers message_type)) [
      | inl e ↦ (
        record mgr { handlers = entry ∷ mgr.handlers },
        rw (z, e, message_handler_register) refl,
        (e, h, v),
        refl,
        λ t. rw e (add_lem mgr.handlers entry t),
      )
      | inr (existing, e) ↦ (mgr, rw (z, e, message_handler_register) refl, v, refl, λ t. rw e refl)
    ]

abbrev pub has_handler : ℕ → Option Entry → Bool
has_handler handler none = false
has_handler handler (some entry) = entry.handler == handler

first_lem :
    (a t : ℕ) (entry : Entry) (entries : List Entry)
    → IsMap (entry ∷ entries)
    → (entry.message_type == a) ≡ true
    → find_handler entries t ≡ (
        if a == t
        then none
        else (if entry.message_type == t then some entry else find_handler entries t))
first_lem a t entry entries v k = elim (Bool-cases (a == t)) [
  | inl h ↦
      let e : (entry.message_type == t) ≡ true = ground arith in
      rw h (type_eq entries entry.message_type t e ∙ v.0)
  | inr h ↦ let e : (entry.message_type == t) ≡ false = ground arith in rw (h, e) refl
]

skip_lem :
    (a : ℕ) (f : Bool) (entry : Entry) (entries : List Entry)
    → (entry.message_type == a) ≡ false
    → find_handler entries entry.message_type ≡ none
    → (if f && (a == entry.message_type) then none else find_handler entries entry.message_type)
      ≡ none
skip_lem a f entry entries k e =
    let h : (a == entry.message_type) ≡ false = ground arith in
    elim (Bool-cases f) [ inl g ↦ rw (g, h) e | inr g ↦ rw g e ]

later_lem :
    (a t : ℕ) (f : Bool) (entry : Entry) (entries es : List Entry)
    → (entry.message_type == a) ≡ false
    → find_handler es t ≡ (if f && (a == t) then none else find_handler entries t)
    → (if entry.message_type == t then some entry else find_handler es t) ≡ (
        if f && (a == t)
        then none
        else (if entry.message_type == t then some entry else find_handler entries t))
later_lem a t f entry entries es k m = elim (Bool-cases (entry.message_type == t)) [
  | inl e ↦
      let h : (a == t) ≡ false = ground arith in
      elim (Bool-cases f) [ inl g ↦ rw (e, g, h) refl | inr g ↦ rw (e, g) refl ]
  | inr e ↦ rw e m
]

-- What remove_entry leaves of a map.
remove_entry_lem :
    (a handler : ℕ) (entries : List Entry)
    → IsMap entries
    → let found = has_handler handler (find_handler entries a) in
      (entries' : List Entry) × (remove_entry a handler entries
        ≡ (if found then some entries' else none))
      × IsMap entries'
      × ((t : ℕ)
          → find_handler entries' t ≡ (if found && (a == t) then none else find_handler entries t))
unfolding remove_entry find_handler
remove_entry_lem a handler [] v = ([], refl, tt, λ t. refl)
remove_entry_lem a handler (entry ∷ entries) v =
    let (es, r, w, m) = remove_entry_lem a handler entries v.2 in
    elim (Bool-cases (entry.message_type == a)) [
      | inl k ↦ elim (Bool-cases (entry.handler == handler)) [
        | inl h ↦ (
          entries,
          rw (k, h, remove_entry, find_handler) refl,
          v.2,
          λ t. rw (k, h, find_handler) (first_lem a t entry entries v k),
        )
        | inr h ↦
            let e : find_handler entries a ≡ none = type_eq entries entry.message_type a k ∙ v.0 in
            let f : has_handler handler (find_handler entries a) ≡ false = rw e refl in
            (
              entry ∷ entries,
              rw (k, h, r, f, remove_entry, find_handler) refl,
              v,
              λ t. rw (k, h, find_handler) refl,
            )
      ]
      | inr k ↦
          let f = has_handler handler (find_handler entries a) in
          (
            entry ∷ es,
            elim (Bool-cases f) [
              | inl h ↦ rw (k, r, h, remove_entry, find_handler) refl
              | inr h ↦ rw (k, r, h, remove_entry, find_handler) refl
            ],
            (m entry.message_type ∙ skip_lem a f entry entries k v.0, v.1, w),
            λ t. rw (k, find_handler) (later_lem a t f entry entries es k (m t)),
          )
    ]

-- In a map, unregistering takes the entry of the type away if it has that very handler, and otherwise
-- changes nothing and returns -2; every other type keeps its entry.
pub message_handler_unregister-find_handler :
    (mgr : Manager) (message_type handler : ℕ)
    → IsMap mgr.handlers
    → handler ≢ 0
    → let found = has_handler handler (find_handler mgr.handlers message_type) in
      (mgr' : Manager) × (message_handler_unregister mgr message_type handler
        ≡ (if found then (0, mgr') else (2, mgr)))
      × IsMap mgr'.handlers
      × ((t : ℕ)
          → find_handler mgr'.handlers t
            ≡ (if found && (message_type == t) then none else find_handler mgr.handlers t))
unfolding message_handler_unregister
message_handler_unregister-find_handler mgr message_type handler v h =
    let z : (handler == 0) ≡ false = ground (arith, h) in
    let (es, r, w, m) = remove_entry_lem message_type handler mgr.handlers v in
    (
      record mgr { handlers = es },
      elim (Bool-cases (has_handler handler (find_handler mgr.handlers message_type))) [
        | inl f ↦ rw (z, r, f, message_handler_unregister) refl
        | inr f ↦ rw (z, r, f, message_handler_unregister) refl
      ],
      w,
      m,
    )
