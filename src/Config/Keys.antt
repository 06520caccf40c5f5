-- ===== src/Config/Keys.antt =====
-- The keys of internal/config: their shape, and the checks on a list of cameras that is installed. A
-- text's characters are its code points: a key with others than ASCII is refused on either view.
pub mod Resolve
use Prim.Native.Char.{code}
use Prim.Native.String
use Prim.Native.String.{String}
use text.Mathlib.Text
use waga_strim.Base.{
  ℕ, ◌+◌, Bool, true, false, not, ◌&&◌, ◌||◌, ◌==◌, leb, Option, none, some, List, [], ◌∷◌, ◌++◌,
  map, if◌then◌else◌, drop, length,
}
use waga_strim.Config.{Ingest, Error, bad_ingest, bad_key, duplicate_key}
use waga_strim.Config.Ingests.{contains, keep_codecs, find_ingest}

abbrev pub codes : String → List ℕ
codes String.[] = []
codes (String.◌∷◌ c s) = code c ∷ codes s

abbrev pub sender_prefix : String
sender_prefix = "s_"

abbrev pub receiver_prefix : String
receiver_prefix = "r_"

-- `strings.ToLower`, on a character of ASCII.
abbrev pub to_lower : ℕ → ℕ
to_lower c = if leb b'A' c && leb c b'Z' then c + 32 else c

-- What `hex.DecodeString` takes, but for an odd length.
abbrev pub is_hex : ℕ → Bool
is_hex c = (leb b'0' c && leb c b'9') || ((leb b'a' c && leb c b'f') || (leb b'A' c && leb c b'F'))

abbrev pub all_hex : List ℕ → Bool
all_hex [] = true
all_hex (c ∷ cs) = let rest = all_hex cs in if is_hex c then rest else false

abbrev pub same_codes : List ℕ → List ℕ → Bool
same_codes [] [] = true
same_codes [] (d ∷ ds) = false
same_codes (c ∷ cs) [] = false
same_codes (c ∷ cs) (d ∷ ds) = let rest = same_codes cs ds in if c == d then rest else false

-- `validKey`
unfoldable pub valid_key : String → String → Bool
valid_key before key =
    let rest = map to_lower (drop (length (codes before)) (codes key)) in
    if not (String.len key == String.len before + 32)
    then false
    else if not (Text.starts_with key before)
    then false
    else all_hex rest && same_codes (codes key) (map to_lower (codes key))

-- The loop of `validateIngests`, with what it has seen.
unfoldable pub validate_from : List String → List Ingest → Option Error
validate_from seen [] = none
validate_from seen (ing ∷ rest) =
    let named = ing.id ∷ seen in
    let sent = ing.sender_key ∷ named in
    let more = validate_from (ing.receiver_key ∷ sent) rest in
    if Text.◌==◌ ing.id "" || contains seen ing.id
    then some bad_ingest
    else if not (valid_key sender_prefix ing.sender_key)
        || not (valid_key receiver_prefix ing.receiver_key)
    then some bad_key
    else if contains named ing.sender_key || contains sent ing.receiver_key
    then some duplicate_key
    else more

-- `validateIngests`
unfoldable pub validate_ingests : List Ingest → Option Error
validate_ingests list = validate_from [] list

abbrev pub same_texts : List String → List String → Bool
same_texts [] [] = true
same_texts [] (t ∷ ts) = false
same_texts (s ∷ ss) [] = false
same_texts (s ∷ ss) (t ∷ ts) = let rest = same_texts ss ts in if Text.◌==◌ s t then rest else false

-- Whether a camera that was there is gone, or changed so that its sessions must close.
unfoldable pub is_stale : Ingest → Option Ingest → Bool
is_stale was none = true
is_stale was (some now) =
    not (Text.◌==◌ now.sender_key was.sender_key)
    || (not (Text.◌==◌ now.receiver_key was.receiver_key)
        || not (same_texts (keep_codecs now.codecs) was.codecs))

-- `staleIngests`
unfoldable pub stale_ingests : List Ingest → List Ingest → List String
stale_ingests [] next = []
stale_ingests (was ∷ current) next =
    let rest = stale_ingests current next in
    if is_stale was (find_ingest next was.id) then was.id ∷ rest else rest
