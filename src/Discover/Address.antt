-- ===== src/Discover/Address.antt =====
-- bjnp/src/discover.rs: hardware and network addresses.
use scanner_button.Prelude.{ℕ, List, ◌++◌}
use scanner_button.Rust.Outcome.{Outcome, ok, ◌>>=◌}
use scanner_button.Rust.Slice.{slice_to, array_of}
use scanner_button.Serdes.Error.{FormatError}
use scanner_button.Serdes.Traits.{Serialize, SizedDeserialize}

pub record Eui48 : Type 0 where
  pub octets : List ℕ

pub record Eui64 : Type 0 where
  pub octets : List ℕ

-- `std::net::Ipv4Addr` and `Ipv6Addr`
pub record Ipv4Addr : Type 0 where
  pub octets : List ℕ

pub record Ipv6Addr : Type 0 where
  pub octets : List ℕ

pub data MacAddr : Type 0 where
  eui48 : Eui48 → MacAddr
  eui64 : Eui64 → MacAddr

pub data IpAddr : Type 0 where
  v4 : Ipv4Addr → IpAddr
  v6 : Ipv6Addr → IpAddr

-- `buffer[..SIZE].try_into().unwrap()`
unfoldable pub octets_exact : ℕ → List ℕ → Outcome (List ℕ) FormatError
octets_exact size buffer = do front ← slice_to buffer size; array_of size front

abbrev pub eui48_sized : SizedDeserialize Eui48
eui48_sized = record {
  size_of = 6;
  deserialize_exact = λ buffer. do
    octets ← octets_exact 6 buffer
    ok (record { octets = octets });
}

abbrev pub eui64_sized : SizedDeserialize Eui64
eui64_sized = record {
  size_of = 8;
  deserialize_exact = λ buffer. do
    octets ← octets_exact 8 buffer
    ok (record { octets = octets });
}

abbrev pub ipv4_sized : SizedDeserialize Ipv4Addr
ipv4_sized = record {
  size_of = 4;
  deserialize_exact = λ buffer. do
    octets ← octets_exact 4 buffer
    ok (record { octets = octets });
}

abbrev pub ipv6_sized : SizedDeserialize Ipv6Addr
ipv6_sized = record {
  size_of = 16;
  deserialize_exact = λ buffer. do
    octets ← octets_exact 16 buffer
    ok (record { octets = octets });
}

unfoldable pub mac_bytes : MacAddr → List ℕ
mac_bytes (eui48 a) = a.octets
mac_bytes (eui64 a) = a.octets

unfoldable pub mac_size : MacAddr → ℕ
mac_size (eui48 a) = 6
mac_size (eui64 a) = 8

abbrev pub mac_serialize : Serialize MacAddr
mac_serialize = record { serialize = λ a out. ok (out ++ mac_bytes a); size = mac_size }

unfoldable pub ip_bytes : IpAddr → List ℕ
ip_bytes (v4 a) = a.octets
ip_bytes (v6 a) = a.octets

unfoldable pub ip_size : IpAddr → ℕ
ip_size (v4 a) = 4
ip_size (v6 a) = 16

abbrev pub ip_serialize : Serialize IpAddr
ip_serialize = record { serialize = λ a out. ok (out ++ ip_bytes a); size = ip_size }
