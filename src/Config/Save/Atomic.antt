-- ===== src/Config/Save/Atomic.antt =====
-- What an operation of internal/config leaves in memory and in the file, on each of its branches.
use Prim.Native.String.{String}
use text.Mathlib.Text
use text.Mathlib.TextEquality.{eq_iff}
use waga_strim.Base.{
  ℕ, zero, suc, ◌-◌, ◌≡◌, refl, sym, ap, ◌∙◌, ◌⊎◌, inl, inr, Bool, Option, none, some, List, [],
  ◌∷◌, ◌++◌, map, arith, get_or, set, take, length, Bool-cases, length-append,
}
use waga_strim.Config.{Ingest, Config, Error, write_config}
use waga_strim.Config.Ingests.{normalise_ingest}
use waga_strim.Config.Keys.{validate_ingests}
use waga_strim.Config.Save.{
  Attempt, Daemon, save_locked, settle, saving, set_public_host, set_autostart, set_control_access,
  create_control_token, new_ingest, add_ingest, replace_unless, replace_ingests, index_of,
  remove_at, remove_ingest, update_at, reset_at, no_ingest, removed, update, Change, changed,
  set_ingest, reset_sender_key,
}

-- Nothing has changed; or there is no error, and the file holds the settings in memory, which are as `P`
-- says.
abbrev pub Settles : (Config → Type 0) → Daemon → Daemon × Option Error → Type 0
Settles P d (d', e) = (d' ≡ d) ⊎ ((e ≡ none) × (d'.file ≡ some d'.config) × P d'.config)

pub save_locked-cases :
    (a : Attempt) (c : Config) (file : Option Config)
    → (save_locked a c file ≡ (file, some write_config)) ⊎ (save_locked a c file ≡ (some c, none))
unfolding save_locked
save_locked-cases a c file = ground arith

saving-Settles :
    (P : Config → Type 0) (a : Attempt) (d : Daemon) (c : Config) (undo : Config → Config)
    → undo c ≡ d.config
    → P c
    → Settles P d (saving a d c undo)
unfolding settle
saving-Settles P a d c undo back h = elim (save_locked-cases a c d.file) [
  | inl e ↦ simp e (inl (λ i. record { config = back i; file = d.file }))
  | inr e ↦ simp e (inr (refl, refl, h))
]

module _ {ℓ} {A : Type ℓ} where
  -- What was written at an index, and is written back there.
  set-set_back :
      (f : A → A) (l : List A) (n : ℕ) (v d : A)
      → f v ≡ get_or l n d
      → set (set l n v) n (f (get_or (set l n v) n d)) ≡ l
  set-set_back f [] n v d h = refl
  set-set_back f (x ∷ l) zero v d h = ap (λ y. y ∷ l) h
  set-set_back f (x ∷ l) (suc n) v d h = ap (◌∷◌ x) (set-set_back f l n v d h)

  take-append_one : (l : List A) (x : A) → take (length (l ++ (x ∷ [])) - 1) (l ++ (x ∷ [])) ≡ l
  take-append_one l x =
      let count : length (l ++ (x ∷ [])) - 1 ≡ length l = omega (arith, length-append l (x ∷ [])) in
      ap (λ n. take n (l ++ (x ∷ []))) count ∙ front l
    where
      front : (l : List A) → take (length l) (l ++ (x ∷ [])) ≡ l
      front [] = refl
      front (y ∷ l) = ap (◌∷◌ y) (front l)

with_ingests : Config → List Ingest → Config
with_ingests c l = record c { ingests = l }

-- The operations, each with the result of its calls.
pub data Op : Type 0 where
  public_host : String → Op
  autostart : Bool → Op
  control_access : String → Bool → Op
  control_token : Option String → Op
  add : String → Option (String × String × String) → Op
  replace : List Ingest → Op
  remove : String → Op
  change : String → Change → Op
  reset : String → Option String → Op

unfoldable pub perform : Attempt → Daemon → Op → Daemon × Option Error
perform a d (public_host host) = set_public_host a d host
perform a d (autostart on) = set_autostart a d on
perform a d (control_access scope on) = set_control_access a d scope on
perform a d (control_token secret) = create_control_token a d secret
perform a d (add label keys) = add_ingest a d label keys
perform a d (replace next) = replace_ingests a d next
perform a d (remove id) = remove_ingest a d id
perform a d (change id c) = set_ingest a d id c
perform a d (reset id key) = reset_sender_key a d id key

-- The settings that an operation is to leave, where it changes them, are as `P` says.
abbrev pub Intends : (Config → Type 0) → Config → Op → Type 0
Intends P c (public_host host) = P (record c { public_host = host })
Intends P c (autostart on) = P (record c { autostart = on })
Intends P c (control_access scope on) =
    P (record c { control_lan = some on }) × P (record c { control_remote = some on })
Intends P c (control_token none) = Unit
Intends P c (control_token (some secret)) = P (record c { control_token = secret })
Intends P c (add label none) = Unit
Intends P c (add label (some (s, r, id))) =
    P (record c { ingests = c.ingests ++ (new_ingest c.floor_ms id label s r ∷ []) })
Intends P c (replace next) = P (record c { ingests = map (normalise_ingest c.floor_ms) next })
Intends P c (remove id) = (n : ℕ) → P (record c { ingests = removed n c.ingests })
Intends P c (change id how) =
    (n : ℕ)
    → P (record c {
      ingests = set c.ingests n (changed c.floor_ms how (get_or c.ingests n no_ingest));
    })
Intends P c (reset id none) = Unit
Intends P c (reset id (some fresh)) =
    (n : ℕ)
    → P (record c {
      ingests = set c.ingests n (record (get_or c.ingests n no_ingest) { sender_key = fresh });
    })

module _ (P : Config → Type 0) (a : Attempt) (d : Daemon) where
  add-Settles :
      (label : String) (keys : Option (String × String × String))
      → Intends P d.config (add label keys)
      → Settles P d (add_ingest a d label keys)
  unfolding add_ingest with_ingests
  add-Settles label none h = inl refl
  add-Settles label (some (s, r, id)) h =
      saving-Settles P a d _ _
        (ap (with_ingests d.config)
          (take-append_one d.config.ingests (new_ingest d.config.floor_ms id label s r)))
        h

  token-Settles :
      (secret : Option String)
      → Intends P d.config (control_token secret)
      → Settles P d (create_control_token a d secret)
  unfolding create_control_token
  token-Settles none h = elim (Bool-cases (Text.◌==◌ d.config.control_token "")) [
    | inl e ↦ simp e (inl refl)
    | inr e ↦ simp e (inl refl)
  ]
  token-Settles (some secret) h = elim (Bool-cases (Text.◌==◌ d.config.control_token "")) [
    | inl e ↦ simp e (
        saving-Settles P a d _ _
          (λ i. record d.config { control_token = sym ((eq_iff d.config.control_token "").0 e) i })
          h)
    | inr e ↦ simp e (inl refl)
  ]

  access-Settles :
      (scope : String) (on : Bool)
      → Intends P d.config (control_access scope on)
      → Settles P d (set_control_access a d scope on)
  unfolding set_control_access
  access-Settles scope on h = elim (Bool-cases (Text.◌==◌ scope "lan")) [
    | inl e ↦ simp e (saving-Settles P a d _ _ refl h.0)
    | inr e ↦ elim (Bool-cases (Text.◌==◌ scope "remote")) [
      | inl f ↦ simp (e, f) (saving-Settles P a d _ _ refl h.1)
      | inr f ↦ simp (e, f) (inl refl)
    ]
  ]

  update_at-Settles :
      (n : Option ℕ) (id : String) (how : Change)
      → Intends P d.config (change id how)
      → Settles P d (update_at n a d (changed d.config.floor_ms how))
  unfolding update_at with_ingests
  update_at-Settles none id how h = inl refl
  update_at-Settles (some n) id how h =
      let previous = get_or d.config.ingests n no_ingest in
      saving-Settles P a d _ _
        (ap (with_ingests d.config) (
          set-set_back (λ x. previous) d.config.ingests n (changed d.config.floor_ms how previous)
            no_ingest refl))
        (h n)

  reset_at-Settles :
      (n : Option ℕ) (id : String) (key : Option String)
      → Intends P d.config (reset id key)
      → Settles P d (reset_at n key a d)
  unfolding reset_at with_ingests
  reset_at-Settles none id key h = inl refl
  reset_at-Settles (some n) id none h = inl refl
  reset_at-Settles (some n) id (some fresh) h =
      let previous = get_or d.config.ingests n no_ingest in
      saving-Settles P a d _ _
        (ap (with_ingests d.config) (
          set-set_back (λ x. record x { sender_key = previous.sender_key }) d.config.ingests n
            (record previous { sender_key = fresh }) no_ingest refl))
        (h n)

  remove_at-Settles :
      (n : Option ℕ) (id : String) → Intends P d.config (remove id) → Settles P d (remove_at n a d)
  unfolding remove_at
  remove_at-Settles none id h = inl refl
  remove_at-Settles (some n) id h = saving-Settles P a d _ _ refl (h n)

  replace_unless-Settles :
      (e : Option Error) (next : List Ingest)
      → Intends P d.config (replace next)
      → Settles P d (replace_unless e a d next)
  unfolding replace_unless
  replace_unless-Settles (some e) next h = inl refl
  replace_unless-Settles none next h = saving-Settles P a d _ _ refl h

  pub perform-Settles : (op : Op) → Intends P d.config op → Settles P d (perform a d op)
  unfolding perform set_public_host set_autostart replace_ingests remove_ingest set_ingest update
      reset_sender_key
  perform-Settles (public_host host) h = elim (Bool-cases (Text.◌==◌ d.config.public_host host)) [
    | inl e ↦ simp e (inl refl)
    | inr e ↦ simp e (saving-Settles P a d _ _ refl h)
  ]
  perform-Settles (autostart on) h = saving-Settles P a d _ _ refl h
  perform-Settles (control_access scope on) h = access-Settles scope on h
  perform-Settles (control_token secret) h = token-Settles secret h
  perform-Settles (add label keys) h = add-Settles label keys h
  perform-Settles (replace next) h = replace_unless-Settles (validate_ingests next) next h
  perform-Settles (remove id) h = remove_at-Settles (index_of d.config.ingests id) id h
  perform-Settles (change id how) h = update_at-Settles (index_of d.config.ingests id) id how h
  perform-Settles (reset id key) h = reset_at-Settles (index_of d.config.ingests id) id key h

Intends-any : (c : Config) (op : Op) → Intends (λ c. Unit) c op
Intends-any c (public_host host) = tt
Intends-any c (autostart on) = tt
Intends-any c (control_access scope on) = (tt, tt)
Intends-any c (control_token none) = tt
Intends-any c (control_token (some secret)) = tt
Intends-any c (add label none) = tt
Intends-any c (add label (some keys)) = tt
Intends-any c (replace next) = tt
Intends-any c (remove id) = λ n. tt
Intends-any c (change id how) = λ n. tt
Intends-any c (reset id none) = tt
Intends-any c (reset id (some fresh)) = λ n. tt

-- Whichever calls of the operating system fail, an operation either leaves the settings and the file as
-- they were, or reports no error and leaves the new settings in memory and in the file alike. So an
-- operation that reports an error has changed nothing.
pub perform_atomic :
    (a : Attempt) (d : Daemon) (op : Op)
    → let (d', e) = perform a d op in (d' ≡ d) ⊎ ((e ≡ none) × (d'.file ≡ some d'.config))
perform_atomic a d op = elim (perform-Settles (λ c. Unit) a d op (Intends-any d.config op)) [
  | inl same ↦ inl same
  | inr (ok, saved, _) ↦ inr (ok, saved)
]
