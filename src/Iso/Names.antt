-- ===== src/Iso/Names.antt =====
-- internal/api/iso_handlers.go: which names a file may have, and the name that a URL gives it.
use kvm_switcher.Prelude.{
  none, not, nat_eq, some, string_eq, [], ◌==◌, ◌+◌, ◌||◌, ◌&&◌, leb, ◌∷◌, true, code, ltb, Option,
  false, List, Bool, if◌then◌else◌, String, ℕ,
}
use Prim.Native.Char.{Char}

-- Bytes of a character in UTF-8.
abbrev width : ℕ → ℕ
width c = if ltb c 128 then 1 else if ltb c 2048 then 2 else if ltb c 65_536 then 3 else 4

unfoldable pub bytes_in : String → ℕ
bytes_in String.[] = 0
bytes_in (String.◌∷◌ c s) = width (code c) + bytes_in s

abbrev dotted : String → Bool
dotted String.[] = false
dotted (String.◌∷◌ c s) = code c == b'.'

unfoldable pub has_dots : String → Bool
has_dots String.[] = false
has_dots (String.◌∷◌ c s) = code c == b'.' && dotted s || has_dots s

-- `[a-zA-Z0-9._-]`
abbrev pub is_plain : ℕ → Bool
is_plain c =
    leb b'a' c && leb c b'z'
    || (leb b'A' c && leb c b'Z'
        || (leb b'0' c && leb c b'9' || (c == b'.' || (c == b'_' || c == b'-'))))

unfoldable pub all_plain : String → Bool
all_plain String.[] = true
all_plain (String.◌∷◌ c s) = is_plain (code c) && all_plain s

abbrev lower : ℕ → ℕ
lower c = if leb b'A' c && leb c b'Z' then c + 32 else c

-- The second text in lower case is the first one.
unfoldable pub lowers_to : String → String → Bool
lowers_to String.[] String.[] = true
lowers_to String.[] (String.◌∷◌ d s) = false
lowers_to (String.◌∷◌ c p) String.[] = false
lowers_to (String.◌∷◌ c p) (String.◌∷◌ d s) = code c == lower (code d) && lowers_to p s

unfoldable pub ends_in_iso : String → Bool
ends_in_iso String.[] = false
ends_in_iso (String.◌∷◌ c s) = lowers_to ".iso" (String.◌∷◌ c s) || ends_in_iso s

-- The error, if the name is none that a file may have.
unfoldable pub sanitize_iso_filename : String → Option String
sanitize_iso_filename name =
    if name == ""
    then some "filename is required"
    else if ltb 255 (bytes_in name)
    then some "filename too long (max 255 characters)"
    else if has_dots name
    then some "filename must not contain '..'"
    else if not (all_plain name)
    then some "filename contains invalid characters (only a-z, A-Z, 0-9, '.', '_', '-' allowed)"
    else if not (ends_in_iso name)
    then some "filename must end with .iso"
    else none

abbrev longer_first : Char → List String → List String
longer_first c [] = []
longer_first c (s ∷ ss) = String.◌∷◌ c s ∷ ss

unfoldable pub split_slashes : String → List String
split_slashes String.[] = "" ∷ []
split_slashes (String.◌∷◌ c s) =
    let rest = split_slashes s in if code c == b'/' then "" ∷ rest else longer_first c rest

-- The last that is not empty, which is the last one once the slashes at the end are trimmed.
unfoldable pub last_filled : List String → String
last_filled [] = ""
last_filled (s ∷ ss) = let rest = last_filled ss in if rest == "" then s else rest

unfoldable pub name_from_url : String → String
name_from_url path = last_filled (split_slashes path)
