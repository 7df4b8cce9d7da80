-- ===== src/Utf8/Tests.antt =====
-- Texts with wide code points, and bytes that are no text.
use quik.Base.{none, some, [], ◌∷◌, ◌++◌, as_bytes, codes, decimal, ◌≡◌, refl}
use quik.Effect.{ok, err}
use quik.Utf8.{lead, follow, scan, text_of, from_utf8, utf8_message}

read_back : from_utf8 (as_bytes "a£€😀") ≡ ok "a£€😀"
unfolding from_utf8 scan lead follow text_of as_bytes
read_back = refl

-- A surrogate.
surrogate :
    from_utf8 (0x61 ∷ 0xED ∷ 0xA0 ∷ 0x80 ∷ [])
    ≡ err (record { valid_up_to = 1; error_len = some 1 })
unfolding from_utf8 scan lead follow text_of
surrogate = refl

cut_short : from_utf8 (0xE2 ∷ 0x82 ∷ []) ≡ err (record { valid_up_to = 0; error_len = none })
unfolding from_utf8 scan lead follow text_of
cut_short = refl

third_byte :
    from_utf8 (codes "ok" ++ (0xE2 ∷ 0x82 ∷ 0x41 ∷ []))
    ≡ err (record { valid_up_to = 2; error_len = some 2 })
unfolding from_utf8 scan lead follow text_of
third_byte = refl

message :
    utf8_message (record { valid_up_to = 12; error_len = some 2 })
    ≡ "invalid utf-8 sequence of 2 bytes from index 12"
unfolding utf8_message decimal
message = refl
