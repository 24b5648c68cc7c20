-- ===== src/Gnosis/Destination.antt =====
-- backend/src/gnosis/destination.ts: a withdrawal's destination, made storable. A string is the list of
-- its Unicode code points; the reason, a text for people, is left out.
use wbob_bridge.Prelude.{
  ℕ, zero, suc, ◌+◌, ◌-◌, ◌/◌, ◌%◌, Bool, true, false, ◌&&◌, not, Option, none, some, List, [], ◌∷◌,
  ◌++◌, ltb, leb, if◌then◌else◌, length, take,
}
use wbob_bridge.Prelude.Text.{Text, codes, starts_with}

abbrev pub sentinel : Text
sentinel = codes "INVALID:"

abbrev pub is_printable : ℕ → Bool
is_printable c = leb 33 c && leb c 126

abbrev pub all_printable : Text → Bool
all_printable [] = true
all_printable (c ∷ s) = is_printable c && all_printable s

-- /^[\x21-\x7e]{1,128}$/
unfoldable pub is_plausible : Text → Bool
is_plausible s = all_printable s && (leb 1 (length s) && leb (length s) 128)

-- Buffer.from(raw, 'utf8').
unfoldable pub utf8_char : ℕ → List ℕ
utf8_char c =
    if ltb c 128
    then c ∷ []
    else if ltb c 2048
    then (192 + c / 64) ∷ (128 + c % 64) ∷ []
    else if ltb c 65536
    then (224 + c / 4096) ∷ (128 + (c / 64) % 64) ∷ (128 + c % 64) ∷ []
    else (240 + c / 262144) ∷ (128 + (c / 4096) % 64) ∷ (128 + (c / 64) % 64) ∷ (128 + c % 64) ∷ []

unfoldable pub utf8 : Text → List ℕ
unfolding utf8_char
utf8 [] = []
utf8 (c ∷ s) = utf8_char c ++ utf8 s

abbrev pub hex_digit : ℕ → ℕ
hex_digit d = if ltb d 10 then b'0' + d else b'a' + (d - 10)

unfoldable pub to_hex : List ℕ → Text
to_hex [] = []
to_hex (b ∷ bs) = hex_digit (b / 16 % 16) ∷ hex_digit (b % 16) ∷ to_hex bs

-- A number in decimal; `fuel` bounds its digits.
unfoldable pub digits_from : ℕ → ℕ → Text → Text
digits_from zero n acc = acc
digits_from (suc fuel) n acc =
    let more = digits_from fuel (n / 10) ((b'0' + n % 10) ∷ acc) in
    if ltb n 10 then (b'0' + n) ∷ acc else more

unfoldable pub to_decimal : ℕ → Text
unfolding digits_from
to_decimal n = digits_from (suc n) n []

pub record SanitizedDestination : Type 0 where
  pub value : Text
  pub invalid : Bool

abbrev pub max_hex_bytes : ℕ
max_hex_bytes = 64

-- `none` is a value that is not a string.
unfoldable pub sanitize_dobbscoin_destination : Option Text → SanitizedDestination
unfolding is_plausible
sanitize_dobbscoin_destination none = record {
  value = codes "INVALID:not-a-string";
  invalid = true;
}
sanitize_dobbscoin_destination (some raw) =
    let bytes = utf8 raw in
    let more =
      if ltb max_hex_bytes (length bytes)
      then codes "..(+" ++ (to_decimal (length bytes - max_hex_bytes) ++ codes "B)")
      else [] in
    if is_plausible raw && not (starts_with sentinel raw)
    then record { value = raw; invalid = false }
    else record { value = sentinel ++ (to_hex (take max_hex_bytes bytes) ++ more); invalid = true }

-- `unpayableDestinationReason(stored) !== null`.
unfoldable pub is_unpayable_destination : Text → Bool
unfolding starts_with
is_unpayable_destination stored = starts_with sentinel stored
