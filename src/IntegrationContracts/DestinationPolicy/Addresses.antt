-- ===== src/IntegrationContracts/DestinationPolicy/Addresses.antt =====
-- packages/integration-contracts/src/destination-policy.ts: the text of addresses, and the ranges that
-- are blocked. Bits are written out: `value >>> n` is `/ 2 ^ n`, a mask of high bits drops a remainder.
use Prim.Native.Nat.{◌-◌}
use appspine_packages.Base.{
  ℕ, zero, suc, ◌+◌, ◌*◌, ◌/◌, ◌%◌, Bool, true, false, ◌&&◌, ◌||◌, not, Option, none, some, List,
  [], ◌∷◌, ◌++◌, map, reverse, if◌then◌else◌, any, all, is_empty, length, ltb, leb, ◌==◌, Text,
  split_on, cut,
}

unfoldable pub to_lower : Text → Text
to_lower [] = []
to_lower (c ∷ s) = (if leb 65 c && leb c 90 then c + 32 else c) ∷ to_lower s

strip_first : ℕ → Text → Text
strip_first b [] = []
strip_first b (c ∷ s) = if c == b then s else c ∷ s

strip_last : ℕ → Text → Text
strip_last b s = reverse (strip_first b (reverse s))

-- `.replace(/^\[|\]$/gu, '')` and `.replace(/\.$/u, '')`
unfoldable pub strip_brackets : Text → Text
unfolding strip_first strip_last
strip_brackets s = strip_last 93 (strip_first 91 s)

unfoldable pub strip_dot : Text → Text
unfolding strip_first strip_last
strip_dot s = strip_last 46 s

abbrev pub in_range : ℕ → ℕ → ℕ → Bool
in_range value from to = leb from value && leb value to

-- `isBlockedIpv4Value`
unfoldable pub is_blocked_ipv4_value : ℕ → Bool
is_blocked_ipv4_value value =
    let a = value / 16777216 % 256 in
    let b = value / 65536 % 256 in
    a == 0
    || (a == 10
        || (a == 127
            || ((a == 169 && b == 254)
                || ((a == 100 && (leb 64 b && leb b 127))
                    || ((a == 172 && (leb 16 b && leb b 31))
                        || ((a == 192 && b == 168)
                            || (in_range value 3221225472 3221225727
                                || (in_range value 3221225984 3221226239
                                    || (in_range value 3227017984 3227018239
                                        || (in_range value 3323068416 3323199487
                                            || (in_range value 3325256704 3325256959
                                                || (in_range value 3405803776 3405804031
                                                    || leb 224 a))))))))))))

-- `Number(digits)` on decimal digits.
decimal_value_from : ℕ → Text → ℕ
decimal_value_from n [] = n
decimal_value_from n (c ∷ s) = decimal_value_from (n * 10 + (c - 48)) s

unfoldable pub decimal_value : Text → ℕ
unfolding decimal_value_from
decimal_value s = decimal_value_from 0 s

unfoldable pub ipv4_value : List ℕ → ℕ
ipv4_value (a ∷ b ∷ c ∷ d ∷ _) = ((a * 256 + b) * 256 + c) * 256 + d
ipv4_value _ = 0

unfoldable pub is_blocked_ipv4_text : Text → Bool
is_blocked_ipv4_text address =
    is_blocked_ipv4_value (ipv4_value (map decimal_value (split_on 46 address)))

-- What `expandIpv6` comes to; `Array(n)` throws for a negative length.
pub data Expansion : Type 0 where
  groups : List ℕ → Expansion
  undefined range_error : Expansion

abbrev is_digit : ℕ → Bool
is_digit c = leb 48 c && leb c 57

abbrev hex_value : ℕ → Option ℕ
hex_value c =
    if is_digit c
    then some (c - 48)
    else if leb 97 c && leb c 102
    then some (c - 87)
    else if leb 65 c && leb c 70
    then some (c - 55)
    else none

-- `parseInt(g, 16)`: the digits up to the first other character; `NaN` is none.
parse_hex_from : Option ℕ → Text → Option ℕ
parse_hex_from n [] = n
parse_hex_from n (c ∷ s) = elim (hex_value c) [
  | none ↦ n
  | some v ↦ parse_hex_from (some ((elim n [ none ↦ 0 | some k ↦ k ]) * 16 + v)) s
]

parse_hex : Text → Option ℕ
parse_hex s = parse_hex_from none s

hex_unit : ℕ → ℕ
hex_unit d = if ltb d 10 then d + 48 else d + 87

-- `n.toString(16)` of a number of at most four digits.
to_hex : ℕ → Text
to_hex n =
    if ltb n 16
    then hex_unit n ∷ []
    else if ltb n 256
    then hex_unit (n / 16) ∷ hex_unit (n % 16) ∷ []
    else if ltb n 4096
    then hex_unit (n / 256) ∷ hex_unit (n / 16 % 16) ∷ hex_unit (n % 16) ∷ []
    else hex_unit (n / 4096)
      ∷ hex_unit (n / 256 % 16)
      ∷ hex_unit (n / 16 % 16)
      ∷ hex_unit (n % 16)
      ∷ []

-- The text up to the last colon, reversed, and the text behind it, from the reversed text.
cut_last_colon : Text → Text → Option (Text × Text)
cut_last_colon tail [] = none
cut_last_colon tail (c ∷ front) =
    if c == 58 then some (c ∷ front, tail) else cut_last_colon (c ∷ tail) front

is_number : Text → Bool
is_number s = not (is_empty s) && all is_digit s

-- Whether the part behind the last colon is a dotted quad: its octets.
octets_of : Text → Option (List ℕ)
octets_of tail = elim (split_on 46 tail) [
  | a ∷ b ∷ c ∷ d ∷ [] ↦
      if all is_number (a ∷ b ∷ c ∷ d ∷ [])
      then some (map decimal_value (a ∷ b ∷ c ∷ d ∷ []))
      else none
  | _ ↦ none
]

-- The address with a dotted quad at its end folded into two groups; none if an octet is too large.
fold_octets : Text → Text → Option (List ℕ) → Option Text
fold_octets value front none = some value
fold_octets value front (some octets) = elim octets [
  | a ∷ b ∷ c ∷ d ∷ [] ↦
      if any (λ o. ltb 255 o) (a ∷ b ∷ c ∷ d ∷ [])
      then none
      else some (reverse front ++ (to_hex (a * 256 + b) ++ (58 ∷ to_hex (c * 256 + d))))
  | _ ↦ some value
]

fold_dotted : Text → Option Text
fold_dotted value = elim (cut_last_colon [] (reverse value)) [
  | none ↦ some value
  | some (front, tail) ↦ fold_octets value front (octets_of tail)
]

-- `text.split('::')`
split_double : Text → List Text
split_double [] = [] ∷ []
split_double (c ∷ []) = (c ∷ []) ∷ []
split_double (c ∷ d ∷ s) =
    let behind = split_double s in
    elim (c == 58 && d == 58) [
      | true ↦ [] ∷ behind
      | false ↦ elim (split_double (d ∷ s)) [ [] ↦ (c ∷ []) ∷ [] | part ∷ rest ↦ (c ∷ part) ∷ rest ]
    ]

parse_groups : Text → List (Option ℕ)
parse_groups [] = []
parse_groups (c ∷ s) = map parse_hex (split_on 58 (c ∷ s))

zeros : ℕ → List (Option ℕ)
zeros zero = []
zeros (suc n) = some 0 ∷ zeros n

-- `Number.isInteger(g) && g >= 0 && g <= 0xffff` for every group.
valid_groups : List (Option ℕ) → Option (List ℕ)
valid_groups [] = some []
valid_groups (none ∷ gs) = none
valid_groups (some g ∷ gs) = elim (valid_groups gs) [
  | none ↦ none
  | some rest ↦ if leb g 65535 then some (g ∷ rest) else none
]

eight_groups : List (Option ℕ) → Expansion
eight_groups gs =
    if length gs == 8
    then (elim (valid_groups gs) [ none ↦ undefined | some v ↦ groups v ])
    else undefined

expand_parts : List Text → Expansion
expand_parts [] = undefined
expand_parts (left ∷ []) = eight_groups (parse_groups left)
expand_parts (left ∷ right ∷ []) =
    let given = length (parse_groups left) + length (parse_groups right) in
    if ltb 8 given
    then range_error
    else eight_groups (parse_groups left ++ (zeros (8 - given) ++ parse_groups right))
expand_parts _ = undefined

expand_text : Option Text → Expansion
expand_text none = undefined
expand_text (some t) = expand_parts (split_double (cut 37 t).0)

unfoldable pub expand_ipv6 : Text → Expansion
unfolding expand_text expand_parts eight_groups valid_groups zeros parse_groups split_double
    fold_dotted fold_octets octets_of is_number cut_last_colon to_hex hex_unit parse_hex
    parse_hex_from
expand_ipv6 value = expand_text (fold_dotted value)

abbrev embedded_ipv4 : ℕ → ℕ → ℕ
embedded_ipv4 high low = high * 65536 + low

-- `(head & mask) === prefix`, where the mask clears the bits below `n`.
abbrev has_prefix : ℕ → ℕ → ℕ → Bool
has_prefix head n prefix = head - head % n == prefix

-- The rest of `isBlockedAddress` for the eight groups of an IPv6 address.
unfoldable pub is_blocked_groups : List ℕ → Bool
is_blocked_groups (g0 ∷ g1 ∷ g2 ∷ g3 ∷ g4 ∷ g5 ∷ g6 ∷ g7 ∷ []) =
    let first_5_all_zero = all (λ g. g == 0) (g0 ∷ g1 ∷ g2 ∷ g3 ∷ g4 ∷ []) in
    let value = embedded_ipv4 g6 g7 in
    if first_5_all_zero && g5 == 65535
    then is_blocked_ipv4_value value
    else if first_5_all_zero && g5 == 0
    then leb value 1 || is_blocked_ipv4_value value
    else if g0 == 100 && g1 == 65435
    then true
    else has_prefix g0 512 64512
      || (has_prefix g0 64 65152
          || (has_prefix g0 256 65280
              || (g0 == 8194 || ((g0 == 8193 && g1 == 0) || (g0 == 8193 && g1 == 3512)))))
is_blocked_groups _ = true
