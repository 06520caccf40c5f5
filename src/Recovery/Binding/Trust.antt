-- ===== src/Recovery/Binding/Trust.antt =====
-- The datagrams behind the identities of internal/ingest/recovery.go (`observeBinding`).
use Prim.Native.String
use Prim.Native.String.{String}
use text.Mathlib.Text
use waga_strim.Base.{
  ℕ, Bool, true, false, not, ◌||◌, ◌≡◌, refl, sym, ap, subst, ◌∙◌, inl, inr, ◌⊎◌, Option, none,
  some, List, [], ◌∷◌, ltb, leb, if◌then◌else◌, length, arith, Bool-cases,
}
use waga_strim.Base.Maps.{text_key, Table, find, remove, has, found-put, found-remove, found-kept}
use waga_strim.Recovery.{history_size}
use waga_strim.Recovery.Binding.{
  BindingId, Message, request, success, other, Bindings, binding_key, active_identity,
  remember_binding, confirmed_as, confirm_binding, observe_binding,
}

-- A datagram that came from an address, or went to it (`outgoing`).
pub record Event : Type 0 where
  pub message : Message
  pub remote : String
  pub outgoing : Bool

-- The connection after some datagrams, the newest first.
abbrev pub run : Bindings → List Event → Bindings
run b [] = b
run b (e ∷ es) = observe_binding (run b es) e.message e.remote e.outgoing

-- Among the datagrams is a request of this transaction from this address, with this username.
pub data Asked (remote : String) (t : ℕ) (username : String) : List Event → Type 0 where
  here :
      (es : List Event)
      → Asked remote t username
          (record { message = request t (some username); remote = remote; outgoing = false } ∷ es)
  there :
      (e : Event) (es : List Event) → Asked remote t username es → Asked remote t username (e ∷ es)

-- An answer went to this address, after a request of its transaction with this username from it.
pub data Confirmed (remote username : String) : List Event → Type 0 where
  here :
      (t : ℕ) (es : List Event)
      → Asked remote t username es
      → Confirmed remote username
          (record { message = success t; remote = remote; outgoing = true } ∷ es)
  there :
      (e : Event) (es : List Event)
      → Confirmed remote username es
      → Confirmed remote username (e ∷ es)

-- What the two maps hold comes from the datagrams.
record Explained (b : Bindings) (es : List Event) : Type 0 where
  asked :
      (remote : String) (t : ℕ) (username : String)
      → find (record { remote = remote; transaction = t }) b.pending ≡ some username
      → Asked remote t username es
  confirmed :
      (remote username : String)
      → find remote b.identities ≡ some username
      → Confirmed remote username es

-- A pending binding after a request is an old one or that of the request.
remember-pending :
    (b : Bindings) (key k : BindingId) (name : Option String) (username : String)
    → find k (remember_binding b key name).pending ≡ some username
    → ((k ≡ key) × (name ≡ some username)) ⊎ (find k b.pending ≡ some username)
unfolding remember_binding
remember-pending b key k none username h = inr h
remember-pending b key k (some name) username h =
    let clears = leb history_size (length b.pending) in
    let kept : Table BindingId String = if clears then [] else b.pending in
    elim (Bool-cases (ltb 513 (String.len name))) [
      | inl long ↦ inr (simp long at h)
      | inr short ↦ elim (Bool-cases (has key kept)) [
        | inl old ↦ inr (found-kept clears k username b.pending (simp (short, old) at h))
        | inr new ↦ elim (found-put clears k key name username b.pending (simp (short, new) at h)) [
          | inl (same, e) ↦ inl (same, ap some e)
          | inr found ↦ inr found
        ]
      ]
    ]

remember-identities :
    (b : Bindings) (key : BindingId) (name : Option String)
    → (remember_binding b key name).identities ≡ b.identities
unfolding remember_binding
remember-identities b key none = refl
remember-identities b key (some name) = ground arith

-- An identity after an answer is an old one or that of the pending binding.
confirm-identities :
    (b : Bindings) (key : BindingId) (pending : Option String) (remote username : String)
    → find remote (confirmed_as b key pending).identities ≡ some username
    → ((remote ≡ key.remote) × (pending ≡ some username))
      ⊎ (find remote b.identities ≡ some username)
unfolding confirmed_as
confirm-identities b key none remote username h = inr h
confirm-identities b key (some name) remote username h =
    let clears = leb history_size (length b.identities) in
    elim (Bool-cases (Text.◌==◌ name "" || not (active_identity b (String.◌++◌ "ice:" name)))) [
      | inl refused ↦ inr (simp refused at h)
      | inr granted ↦
          elim (found-put clears remote key.remote name username b.identities (simp granted at h)) [
            | inl (same, n) ↦ inl (same, ap some n)
            | inr found ↦ inr found
          ]
    ]

confirmed_as-pending :
    (b : Bindings) (key : BindingId) (pending : Option String)
    → (confirmed_as b key pending).pending ≡ remove key b.pending
unfolding confirmed_as
confirmed_as-pending b key none = refl
confirmed_as-pending b key (some name) = ground arith

ask-Explained :
    (b : Bindings) (es : List Event) (t : ℕ) (name : Option String) (from : String)
    → Explained b es
    → Explained
        (remember_binding b (record { remote = from; transaction = t }) name)
        (record { message = request t name; remote = from; outgoing = false } ∷ es)
ask-Explained b es t name from x = record {
  asked = λ remote k username h.
      elim (remember-pending b (record { remote = from; transaction = t }) _ name username h) [
        | inl (same, e) ↦
            subst (λ ev. Asked remote k username (ev ∷ es))
              (λ i. record {
                message = request (same i).transaction (sym e i);
                remote = (same i).remote;
                outgoing = false;
              })
              (here es)
        | inr found ↦ there _ es (x.asked remote k username found)
      ];
  confirmed = λ remote username h.
      there _ es
        (x.confirmed remote username (ap (find remote) (sym (remember-identities b _ name)) ∙ h));
}

answer-Explained :
    (b : Bindings) (es : List Event) (t : ℕ) (to : String)
    → Explained b es
    → Explained
        (confirm_binding b (record { remote = to; transaction = t }))
        (record { message = success t; remote = to; outgoing = true } ∷ es)
unfolding confirm_binding
answer-Explained b es t to x =
    let key : BindingId = record { remote = to; transaction = t } in
    let pending = find key b.pending in
    record {
      asked = λ remote k username h. there _ es (
          x.asked remote k username (
            found-remove _ key username b.pending
              (ap (find _) (sym (confirmed_as-pending b key pending)) ∙ h)));
      confirmed = λ remote username h. elim (confirm-identities b key pending remote username h) [
        | inl (same, found) ↦
            subst
              (λ r.
                Confirmed r username
                  (record { message = success t; remote = to; outgoing = true } ∷ es))
              (sym same) (here t es (x.asked to t username found))
        | inr found ↦ there _ es (x.confirmed remote username found)
      ];
    }

more-Explained :
    (b : Bindings) (e : Event) (es : List Event) → Explained b es → Explained b (e ∷ es)
more-Explained b e es x = record {
  asked = λ remote t username h. there e es (x.asked remote t username h);
  confirmed = λ remote username h. there e es (x.confirmed remote username h);
}

observe-Explained :
    (b : Bindings) (es : List Event) (message : Message) (remote : String) (outgoing : Bool)
    → Explained b es
    → Explained
        (observe_binding b message remote outgoing)
        (record { message = message; remote = remote; outgoing = outgoing } ∷ es)
unfolding observe_binding
observe-Explained b es (success t) remote true x = answer-Explained b es t remote x
observe-Explained b es (request t name) remote false x = ask-Explained b es t name remote x
observe-Explained b es (success t) remote false x = more-Explained b _ es x
observe-Explained b es (request t name) remote true x = more-Explained b _ es x
observe-Explained b es other remote true x = more-Explained b _ es x
observe-Explained b es other remote false x = more-Explained b _ es x

nothing_found : (username : String) → ◌≡◌ {A = Option String} none (some username) → ⊥
nothing_found username h = cc

run-Explained :
    (b : Bindings) (es : List Event) → b.pending ≡ [] → b.identities ≡ [] → Explained (run b es) es
run-Explained b [] p q = record {
  asked = λ remote t username h. absurd (
      nothing_found username (ap (find (record { remote = remote; transaction = t })) (sym p) ∙ h));
  confirmed = λ remote username h. absurd (nothing_found username (ap (find remote) (sym q) ∙ h));
}
run-Explained b (e ∷ es) p q =
    observe-Explained (run b es) es e.message e.remote e.outgoing (run-Explained b es p q)

-- Of a connection that starts with nothing pending and nobody identified, an address is identified only
-- after an answer to a request of its own: whatever datagrams come and go, an identity that is found for
-- an address is the username of a request that came from that address, and an answer to that request's
-- transaction went to it later.
pub identity-Confirmed :
    (b : Bindings) (es : List Event) (remote username : String)
    → b.pending ≡ []
    → b.identities ≡ []
    → find remote (run b es).identities ≡ some username
    → Confirmed remote username es
identity-Confirmed b es remote username p q h = (run-Explained b es p q).confirmed remote username h
