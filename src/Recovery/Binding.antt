-- ===== src/Recovery/Binding.antt =====
-- Which addresses internal/ingest/recovery.go trusts. STUN is third-party code: `Message` is what its
-- decoder gives for a datagram, with the twelve bytes of a transaction as one number.
pub mod Trust
use Prim.Native.String
use Prim.Native.String.{String}
use text.Mathlib.Text
use text.Mathlib.TextEquality.{eq_iff}
use waga_strim.Base.{
  ℕ, Bool, true, false, not, ◌&&◌, ◌||◌, ◌≡◌, Option, none, some, List, [], ◌∷◌, ltb, leb, ◌==◌,
  if◌then◌else◌, length, ==_iff, ap, refl, ◌↔◌, arith,
}
use waga_strim.Base.Maps.{text_key, Key, Table, find, put, remove, has}
use waga_strim.Recovery.{history_size}

pub record BindingId : Type 0 where
  pub remote : String
  pub transaction : ℕ

pub data Message : Type 0 where
  -- A binding request, with its username if it has one.
  request : ℕ → Option String → Message
  success : ℕ → Message
  other : Message

-- The fields `pendingBindings`, `identities` and `active`, the last with `nil`.
pub record Bindings : Type 0 where
  pub pending : Table BindingId String
  pub identities : Table String String
  pub active : Option (Table String Bool)

abbrev pub same_binding : BindingId → BindingId → Bool
same_binding a b =
    let transactions = a.transaction == b.transaction in
    if Text.◌==◌ a.remote b.remote then transactions else false

pub same_binding_iff : (a b : BindingId) → (same_binding a b ≡ true) ↔ (a ≡ b)
same_binding_iff a b = (
  λ h.
      let texts : Text.◌==◌ a.remote b.remote ≡ true = ground arith in
      let numbers : (a.transaction == b.transaction) ≡ true = ground arith in
      λ i. record {
        remote = (eq_iff a.remote b.remote).0 texts i;
        transaction = (==_iff a.transaction b.transaction).0 numbers i;
      },
  λ h.
      let texts = (eq_iff a.remote b.remote).1 (ap (λ k. k.remote) h) in
      let numbers = (==_iff a.transaction b.transaction).1 (ap (λ k. k.transaction) h) in
      simp (texts, numbers) refl,
)

instance unfoldable pub binding_key : Key BindingId
binding_key = record { same = same_binding; same_iff = same_binding_iff }

-- `strings.CutPrefix`, and what `strings.Cut` puts before the first separator.
abbrev pub cut_prefix : String → String → Option String
cut_prefix s before =
    if Text.starts_with s before
    then some (String.slice s (String.len before) (String.len s))
    else none

abbrev pub cut : String → String → Option String
cut s separator = elim (Text.find? s separator) [ none ↦ none | some i ↦ some (String.slice s 0 i) ]

-- `activeIdentityLocked`
unfoldable pub active_identity : Bindings → String → Bool
active_identity b identity = elim b.active [
  | none ↦ true
  | some active ↦ elim (cut_prefix identity "ice:") [
    | none ↦ false
    | some username ↦ elim (cut username ":") [
      | none ↦ false
      | some ufrag ↦ elim (find ufrag active) [ none ↦ false | some state ↦ state ]
    ]
  ]
]

-- `rememberBindingLocked`
unfoldable pub remember_binding : Bindings → BindingId → Option String → Bindings
remember_binding b key none = b
remember_binding b key (some username) =
    let clears = leb history_size (length b.pending) in
    let kept = if clears then [] else b.pending in
    if ltb 513 (String.len username)
    then b
    else if has key kept
    then record b { pending = kept }
    else record b { pending = put key username kept }

-- `confirmBindingLocked`, once the pending binding is looked up.
unfoldable pub confirmed_as : Bindings → BindingId → Option String → Bindings
confirmed_as b key none = record b { pending = remove key b.pending }
confirmed_as b key (some username) =
    let b' = record b { pending = remove key b.pending } in
    let clears = leb history_size (length b.identities) in
    if Text.◌==◌ username "" || not (active_identity b (String.◌++◌ "ice:" username))
    then b'
    else record b' { identities = put key.remote username (if clears then [] else b.identities) }

unfoldable pub confirm_binding : Bindings → BindingId → Bindings
confirm_binding b key = confirmed_as b key (find key b.pending)

-- `observeBinding`, of a datagram that came from an address, or went to one.
unfoldable pub observe_binding : Bindings → Message → String → Bool → Bindings
observe_binding b (success t) remote true =
    confirm_binding b (record { remote = remote; transaction = t })
observe_binding b (request t username) remote false =
    remember_binding b (record { remote = remote; transaction = t }) username
observe_binding b (success t) remote false = b
observe_binding b (request t username) remote true = b
observe_binding b other remote outgoing = b

-- `authenticatedIdentity`
unfoldable pub authenticated_identity : Bindings → String → String
authenticated_identity b remote = elim (find remote b.identities) [
  | none ↦ ""
  | some identity ↦ if Text.◌==◌ identity "" then "" else String.◌++◌ "ice:" identity
]
