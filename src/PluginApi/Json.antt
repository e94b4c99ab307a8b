-- ===== src/PluginApi/Json.antt =====
-- packages/plugin-api/src/loader/canonicalize.ts and digest.ts: canonical JSON and its digest.
-- A number is kept as the text that `JSON.stringify` prints for it.
use appspine_packages.Base.{
  ℕ, ◌+◌, ◌/◌, ◌%◌, Bool, true, false, ◌&&◌, List, [], ◌∷◌, ◌++◌, if◌then◌else◌, ◌==◌, ltb, leb,
  Text, text, sort_by, by_key,
}

mutual
  pub data Json : Type 0 where
    null : Json
    bool : Bool → Json
    num : Text → Json
    str : Text → Json
    arr : Items → Json
    obj : Fields → Json

  pub data Items : Type 0 where
    nil : Items
    cons : Json → Items → Items

  pub data Fields : Type 0 where
    end : Fields
    field : Text → Json → Fields → Fields

-- The array of a list, and an object from its entries.
unfoldable pub items : List Json → Items
items [] = nil
items (v ∷ vs) = cons v (items vs)

unfoldable pub fields : List (Text × Json) → Fields
fields [] = end
fields ((k, v) ∷ rest) = field k v (fields rest)

unfoldable pub entries : Fields → List (Text × Json)
entries end = []
entries (field k v rest) = (k, v) ∷ entries rest

-- `for (const key of Object.keys(source).sort())`
unfoldable pub sort_fields : Fields → Fields
unfolding fields entries
sort_fields fs = fields (sort_by (by_key (λ e. e.0)) (entries fs))

unfoldable mutual
  unfolding sort_fields

  pub canonicalize : Json → Json
  canonicalize null = null
  canonicalize (bool b) = bool b
  canonicalize (num n) = num n
  canonicalize (str s) = str s
  canonicalize (arr vs) = arr (canonicalize_items vs)
  canonicalize (obj fs) = obj (sort_fields (canonicalize_fields fs))

  pub canonicalize_items : Items → Items
  canonicalize_items nil = nil
  canonicalize_items (cons v vs) = cons (canonicalize v) (canonicalize_items vs)

  pub canonicalize_fields : Fields → Fields
  canonicalize_fields end = end
  canonicalize_fields (field k v rest) = field k (canonicalize v) (canonicalize_fields rest)

-- `JSON.stringify` of a string: the escapes, and lone surrogates by their code.
hex_digit : ℕ → ℕ
hex_digit n = if ltb n 10 then n + 48 else n + 87

escape_code : ℕ → Text
escape_code c =
    text "\\u"
    ++ hex_digit (c / 4096)
      ∷ hex_digit (c / 256 % 16)
      ∷ hex_digit (c / 16 % 16)
      ∷ hex_digit (c % 16)
      ∷ []

abbrev is_high : ℕ → Bool
is_high c = leb 0xD800 c && leb c 0xDBFF

abbrev is_low : ℕ → Bool
is_low c = leb 0xDC00 c && leb c 0xDFFF

abbrev starts_low : Text → Bool
starts_low [] = false
starts_low (c ∷ s) = is_low c

-- `paired` says that the code unit before was the first half of a pair.
escape_unit : Bool → ℕ → Text → Text
escape_unit paired c rest =
    if c == 34
    then text "\\\""
    else if c == 92
    then text "\\\\"
    else if c == 8
    then text "\\b"
    else if c == 9
    then text "\\t"
    else if c == 10
    then text "\\n"
    else if c == 12
    then text "\\f"
    else if c == 13
    then text "\\r"
    else if ltb c 32
    then escape_code c
    else if is_high c
    then (if starts_low rest then c ∷ [] else escape_code c)
    else if is_low c
    then (if paired then c ∷ [] else escape_code c)
    else c ∷ []

escape : Bool → Text → Text
escape paired [] = []
escape paired (c ∷ rest) = escape_unit paired c rest ++ escape (is_high c && starts_low rest) rest

unfoldable pub quote : Text → Text
unfolding escape escape_unit escape_code hex_digit text
quote s = 34 ∷ (escape false s ++ 34 ∷ [])

-- `JSON.stringify` without white space.
unfoldable mutual
  unfolding text

  pub stringify : Json → Text
  stringify null = text "null"
  stringify (bool true) = text "true"
  stringify (bool false) = text "false"
  stringify (num n) = n
  stringify (str s) = quote s
  stringify (arr vs) = text "[" ++ (stringify_items vs ++ text "]")
  stringify (obj fs) = text "{" ++ (stringify_fields fs ++ text "}")

  pub stringify_items : Items → Text
  stringify_items nil = []
  stringify_items (cons v nil) = stringify v
  stringify_items (cons v vs) = stringify v ++ (text "," ++ stringify_items vs)

  pub stringify_fields : Fields → Text
  stringify_fields end = []
  stringify_fields (field k v end) = quote k ++ (text ":" ++ stringify v)
  stringify_fields (field k v rest) =
      quote k ++ (text ":" ++ (stringify v ++ (text "," ++ stringify_fields rest)))

unfoldable pub canonical_json_string : Json → Text
canonical_json_string v = stringify (canonicalize v)

-- `sha256_hex` is node:crypto's digest of the UTF-8 bytes, in hexadecimal.
unfoldable pub manifest_digest : (sha256_hex : Text → Text) → Json → Text
manifest_digest sha256_hex v = text "sha256:" ++ sha256_hex (canonical_json_string v)
