-- ===== src/Gnosis/DestinationLaws.antt =====
-- What can be stored as a destination, and what can be paid (backend/src/gnosis/destination.ts).
use wbob_bridge.Prelude.{
  ℕ, zero, suc, ◌+◌, ◌-◌, ◌/◌, ◌%◌, ◌≡◌, refl, true, false, ◌&&◌, not, Option, none, some, List, [],
  ◌∷◌, ◌++◌, arith, ltb, if◌then◌else◌, length, take, Bool-cases, inl, inr,
}
use wbob_bridge.Prelude.Text.{Text, codes, starts_with}
use wbob_bridge.Gnosis.Destination.{
  sentinel, all_printable, is_plausible, utf8, to_hex, digits_from, to_decimal, max_hex_bytes,
  sanitize_dobbscoin_destination, is_unpayable_destination,
}

printable-append :
    (s t : Text) → all_printable s ≡ true → all_printable t ≡ true → all_printable (s ++ t) ≡ true
printable-append [] t hs ht = ht
printable-append (c ∷ s) t hs ht = ground (arith, printable-append s t)

printable-to_hex : (bs : List ℕ) → all_printable (to_hex bs) ≡ true
unfolding to_hex
printable-to_hex [] = refl
printable-to_hex (b ∷ bs) = ground (arith, printable-to_hex bs)

printable-digits :
    (fuel n : ℕ) (acc : Text)
    → all_printable acc ≡ true
    → all_printable (digits_from fuel n acc) ≡ true
unfolding digits_from
printable-digits zero n acc h = h
printable-digits (suc fuel) n acc h =
    ground (arith, printable-digits fuel (n / 10) ((b'0' + n % 10) ∷ acc))

abbrev more_text : List ℕ → Text
more_text bytes =
    if ltb max_hex_bytes (length bytes)
    then codes "..(+" ++ (to_decimal (length bytes - max_hex_bytes) ++ codes "B)")
    else []

printable-more : (bytes : List ℕ) → all_printable (more_text bytes) ≡ true
unfolding to_decimal
printable-more bytes = elim (Bool-cases (ltb max_hex_bytes (length bytes))) [
  | inr short ↦ rw short refl
  | inl long ↦ rw long (
      printable-append (codes "..(+") (to_decimal (length bytes - max_hex_bytes) ++ codes "B)") refl
        (printable-append (to_decimal (length bytes - max_hex_bytes)) (codes "B)")
          (printable-digits (suc (length bytes - max_hex_bytes)) (length bytes - max_hex_bytes) []
            refl)
          refl))
]

-- Whatever an event says, what is stored is printable ASCII without spaces; and the payout step takes
-- a stored destination for unpayable exactly when it was marked as invalid.
pub sanitize_storable :
    (raw : Option Text)
    → (all_printable (sanitize_dobbscoin_destination raw).value ≡ true)
      × (is_unpayable_destination (sanitize_dobbscoin_destination raw).value
          ≡ (sanitize_dobbscoin_destination raw).invalid)
unfolding sanitize_dobbscoin_destination is_unpayable_destination is_plausible starts_with
sanitize_storable none = (refl, refl)
sanitize_storable (some raw) =
    elim (Bool-cases (is_plausible raw && not (starts_with sentinel raw))) [
      | inl kept ↦ rw kept (plain kept, fine kept)
      | inr marked ↦ rw marked (
        printable-append sentinel (to_hex (take max_hex_bytes (utf8 raw)) ++ more) refl (
            printable-append (to_hex (take max_hex_bytes (utf8 raw))) more
              (printable-to_hex (take max_hex_bytes (utf8 raw))) (printable-more (utf8 raw))),
        refl,
      )
    ]
  where
    more : Text
    more = more_text (utf8 raw)

    plain : (is_plausible raw && not (starts_with sentinel raw)) ≡ true → all_printable raw ≡ true
    plain kept = ground arith

    fine :
        (is_plausible raw && not (starts_with sentinel raw)) ≡ true
        → starts_with sentinel raw ≡ false
    fine kept = ground arith
