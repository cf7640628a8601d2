-- ===== src/Discover/Tests.antt =====
-- bjnp/src/discover.rs: runs at concrete inputs.
use scanner_button.Prelude.{some, arith, ℕ, ◌≡◌, refl, [], ◌∷◌, ◌++◌, ◌⊎◌}
use scanner_button.Rust.Outcome.{ok, err, ◌>>=◌}
use scanner_button.Serdes.Traits.{serialize_to_vec}
use scanner_button.Discover.Address.{eui48, v4, mac_bytes, mac_size, ip_bytes, ip_size}
use scanner_button.Discover.Wire.{Response, response_serialize, response_from_bytes}
use scanner_button.Serdes.Error.{ParseError}
use scanner_button.Rust.Word.{IsBytes}
use scanner_button.Rust.Format.{shown}
use scanner_button.Discover.Shown.{response_display}
use scanner_button.Discover.Texts.{response_read, response_read-shown}
use scanner_button.Discover.Errors.{IsAccepted, response_from_bytes-IsAccepted}
use scanner_button.Discover.RoundTrip.{IsResponse, response_round_trip}

abbrev pub scanner : Response
scanner = record {
  mac_addr = eui48 (record { octets = 0xc8 ∷ 0xb5 ∷ 0xad ∷ 0xce ∷ 0xaa ∷ 0x01 ∷ [] });
  ip_addr = v4 (record { octets = 192 ∷ 168 ∷ 1 ∷ 20 ∷ [] });
}

pub scanner-IsResponse : IsResponse scanner
unfolding mac_bytes mac_size ip_bytes ip_size
scanner-IsResponse = record { mac_array = refl; ip_array = refl }

response_round_trip_example :
    (do bytes ← serialize_to_vec scanner; response_from_bytes (bytes ++ (1 ∷ 2 ∷ [])))
    ≡ ok (scanner, response_serialize.size scanner)
response_round_trip_example = response_round_trip scanner (1 ∷ 2 ∷ []) scanner-IsResponse

response_from_bytes-IsAccepted_example :
    ((r : Response) × (n : ℕ) × (response_from_bytes (1 ∷ 2 ∷ 3 ∷ []) ≡ ok (r, n))
      × IsAccepted (1 ∷ 2 ∷ 3 ∷ []) r n)
    ⊎ ((e : ParseError) × (response_from_bytes (1 ∷ 2 ∷ 3 ∷ []) ≡ err e))
response_from_bytes-IsAccepted_example = response_from_bytes-IsAccepted (1 ∷ 2 ∷ 3 ∷ [])

scanner_octets : IsBytes (mac_bytes scanner.mac_addr)
unfolding mac_bytes
scanner_octets =
    (omega arith, (omega arith, (omega arith, (omega arith, (omega arith, (omega arith, tt))))))

response_read-shown_example : response_read (shown scanner) ≡ some scanner
response_read-shown_example =
    response_read-shown scanner.mac_addr (record { octets = 192 ∷ 168 ∷ 1 ∷ 20 ∷ [] })
      scanner-IsResponse scanner_octets
      (omega arith, (omega arith, (omega arith, (omega arith, tt))))
