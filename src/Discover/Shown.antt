-- ===== src/Discover/Shown.antt =====
-- bjnp/src/discover.rs: `Display` of the addresses and of `Response`.
use scanner_button.Prelude.{ℕ, List, [], ◌∷◌, ◌++◌}
use scanner_button.Rust.Format.{Display, codes, hex_padded}
use scanner_button.Rust.Net.{joined, ipv4_shown, ipv6_shown}
use scanner_button.Discover.Address.{Eui48, Eui64, MacAddr, IpAddr, eui48, eui64, v4, v6}
use scanner_button.Discover.Wire.{Response}

unfoldable pub octets_shown : List ℕ → List (List ℕ)
octets_shown [] = []
octets_shown (x ∷ xs) = hex_padded 2 x ∷ octets_shown xs

unfoldable pub eui48_shown : Eui48 → List ℕ
eui48_shown a = joined (b':' ∷ []) (octets_shown a.octets)

unfoldable pub eui64_shown : Eui64 → List ℕ
eui64_shown a = joined (b':' ∷ []) (octets_shown a.octets)

unfoldable pub mac_shown : MacAddr → List ℕ
mac_shown (eui48 a) = eui48_shown a
mac_shown (eui64 a) = eui64_shown a

-- `Display for std::net::IpAddr`
unfoldable pub ip_shown : IpAddr → List ℕ
ip_shown (v4 a) = ipv4_shown a.octets
ip_shown (v6 a) = ipv6_shown a.octets

instance abbrev pub response_display : Display Response
response_display = record {
  fmt = λ r f. codes "mac=" ++ (mac_shown r.mac_addr ++ (codes " ip=" ++ ip_shown r.ip_addr));
}
