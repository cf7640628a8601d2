-- ===== src/Discover/RoundTrip.antt =====
-- bjnp/src/discover.rs: a response is read back from what it is written as.
use scanner_button.Prelude.{ℕ, ◌+◌, ◌%◌, ◌≡◌, refl, ap, List, ◌++◌, arith, append_assoc}
use scanner_button.Prelude.{
  length, length-append, take-append_exact, drop-append_exact, le→leb, ==_refl,
}
use scanner_button.Rust.Outcome.{ok, ◌>>=◌}
use scanner_button.Rust.Slice.{slice_from}
use scanner_button.Serdes.Error.{ParseError}
use scanner_button.Serdes.Traits.{
  deserialize_sized, IsCodec, deserialize_sized_enough, serialize_to_vec, round_trip,
}
use scanner_button.Discover.Address.{
  Eui48, Eui64, Ipv4Addr, Ipv6Addr, MacAddr, IpAddr, eui48, eui64, v4, v6, octets_exact, mac_bytes,
  mac_size, ip_bytes, ip_size, eui48_sized, eui64_sized, ipv4_sized, ipv6_sized,
}
use scanner_button.Discover.Wire.{
  Response, raw_response_header, raw_response_header_of, raw_response_header_sized,
}
use scanner_button.Discover.Wire.{
  mac_from_bytes, ip_from_bytes, response_from_bytes, response_serialize, response_deserialize,
}

-- The arrays of the Rust types.
abbrev pub IsMacAddr : MacAddr → Type 0
IsMacAddr a = length (mac_bytes a) ≡ mac_size a

abbrev pub IsIpAddr : IpAddr → Type 0
IsIpAddr a = length (ip_bytes a) ≡ ip_size a

pub record IsResponse (r : Response) : Type 0 where
  pub mac_array : IsMacAddr r.mac_addr
  pub ip_array : IsIpAddr r.ip_addr

octets_exact-append :
    (n : ℕ) (xs rest : List ℕ) → length xs ≡ n → octets_exact n (xs ++ rest) ≡ ok xs
unfolding octets_exact
octets_exact-append n xs rest e = rw (
  le→leb n (length (xs ++ rest)) (omega (arith, length-append xs rest)),
  take-append_exact n xs rest e,
  e,
  ==_refl n,
)

eui48-append :
    (a : Eui48) (rest : List ℕ)
    → length a.octets ≡ 6
    → deserialize_sized eui48_sized (a.octets ++ rest) ≡ ok (a, 6)
eui48-append a rest e =
    deserialize_sized_enough eui48_sized (a.octets ++ rest) {x = a}
      (omega (arith, length-append a.octets rest)) (rw (octets_exact-append 6 a.octets rest e))

eui64-append :
    (a : Eui64) (rest : List ℕ)
    → length a.octets ≡ 8
    → deserialize_sized eui64_sized (a.octets ++ rest) ≡ ok (a, 8)
eui64-append a rest e =
    deserialize_sized_enough eui64_sized (a.octets ++ rest) {x = a}
      (omega (arith, length-append a.octets rest)) (rw (octets_exact-append 8 a.octets rest e))

ipv4-append :
    (a : Ipv4Addr) (rest : List ℕ)
    → length a.octets ≡ 4
    → deserialize_sized ipv4_sized (a.octets ++ rest) ≡ ok (a, 4)
ipv4-append a rest e =
    deserialize_sized_enough ipv4_sized (a.octets ++ rest) {x = a}
      (omega (arith, length-append a.octets rest)) (rw (octets_exact-append 4 a.octets rest e))

ipv6-append :
    (a : Ipv6Addr) (rest : List ℕ)
    → length a.octets ≡ 16
    → deserialize_sized ipv6_sized (a.octets ++ rest) ≡ ok (a, 16)
ipv6-append a rest e =
    deserialize_sized_enough ipv6_sized (a.octets ++ rest) {x = a}
      (omega (arith, length-append a.octets rest)) (rw (octets_exact-append 16 a.octets rest e))

mac_from_bytes-mac_bytes :
    (a : MacAddr) (size : ℕ) (rest : List ℕ)
    → IsMacAddr a
    → mac_from_bytes (mac_size a) size (mac_bytes a ++ rest) ≡ ok (a, mac_size a)
unfolding mac_from_bytes mac_size mac_bytes
mac_from_bytes-mac_bytes (eui48 a) size rest e = rw (eui48-append a rest e)
mac_from_bytes-mac_bytes (eui64 a) size rest e = rw (eui64-append a rest e)

ip_from_bytes-ip_bytes :
    (a : IpAddr) (size : ℕ) (rest : List ℕ)
    → IsIpAddr a
    → ip_from_bytes (ip_size a) size (ip_bytes a ++ rest) ≡ ok (a, ip_size a)
unfolding ip_from_bytes ip_size ip_bytes
ip_from_bytes-ip_bytes (v4 a) size rest e = rw (ipv4-append a rest e)
ip_from_bytes-ip_bytes (v6 a) size rest e = rw (ipv6-append a rest e)

pub response_bytes : Response → List ℕ
response_bytes r =
    raw_response_header.bytes (raw_response_header_of r)
    ++ (mac_bytes r.mac_addr ++ ip_bytes r.ip_addr)

mac_size-mod : (a : MacAddr) → mac_size a % 256 ≡ mac_size a
unfolding mac_size
mac_size-mod (eui48 a) = refl
mac_size-mod (eui64 a) = refl

ip_size-mod : (a : IpAddr) → ip_size a % 256 ≡ ip_size a
unfolding ip_size
ip_size-mod (v4 a) = refl
ip_size-mod (v6 a) = refl

slice_from-append :
    {E : Type 0} (xs rest : List ℕ) (n : ℕ)
    → length xs ≡ n
    → slice_from {E = E} (xs ++ rest) n ≡ ok rest
slice_from-append xs rest n e = rw (
  le→leb n (length (xs ++ rest)) (omega (arith, length-append xs rest)),
  drop-append_exact n xs rest e,
)

abbrev header_bytes : Response → List ℕ
header_bytes r = raw_response_header.bytes (raw_response_header_of r)

length-header_bytes : (r : Response) → length (header_bytes r) ≡ 6
unfolding raw_response_header_of
length-header_bytes r = refl

response_header-bytes :
    (r : Response) (rest : List ℕ)
    → deserialize_sized raw_response_header_sized (header_bytes r ++ rest)
      ≡ ok (raw_response_header_of r, 6)
unfolding raw_response_header_of
response_header-bytes r rest =
    deserialize_sized_enough raw_response_header_sized _ {x = raw_response_header_of r}
      (omega arith) refl

mac_from_bytes-header :
    (r : Response) (rest : List ℕ)
    → IsMacAddr r.mac_addr
    → mac_from_bytes (raw_response_header_of r).mac_len 6 (mac_bytes r.mac_addr ++ rest)
      ≡ ok (r.mac_addr, mac_size r.mac_addr)
unfolding raw_response_header_of
mac_from_bytes-header r rest e =
    rw (mac_size-mod r.mac_addr) (mac_from_bytes-mac_bytes r.mac_addr 6 rest e)

ip_from_bytes-header :
    (r : Response) (size : ℕ) (rest : List ℕ)
    → IsIpAddr r.ip_addr
    → ip_from_bytes (raw_response_header_of r).ip_len size (ip_bytes r.ip_addr ++ rest)
      ≡ ok (r.ip_addr, ip_size r.ip_addr)
unfolding raw_response_header_of
ip_from_bytes-header r size rest e =
    rw (ip_size-mod r.ip_addr) (ip_from_bytes-ip_bytes r.ip_addr size rest e)

response_from_bytes-parts :
    (r : Response) (rest : List ℕ)
    → IsResponse r
    → response_from_bytes (header_bytes r ++ (mac_bytes r.mac_addr ++ (ip_bytes r.ip_addr ++ rest)))
      ≡ ok (r, 6 + mac_size r.mac_addr + ip_size r.ip_addr)
unfolding response_from_bytes
response_from_bytes-parts r rest v =
    let ip : List ℕ = ip_bytes r.ip_addr ++ rest in
    rw (
      response_header-bytes r (mac_bytes r.mac_addr ++ ip),
      slice_from-append {E = ParseError} (header_bytes r) (mac_bytes r.mac_addr ++ ip) 6
          (length-header_bytes r),
      mac_from_bytes-header r ip v.mac_array,
      slice_from-append {E = ParseError} (mac_bytes r.mac_addr) ip (mac_size r.mac_addr)
          v.mac_array,
      ip_from_bytes-header r (6 + mac_size r.mac_addr) rest v.ip_array,
    )

response_bytes-append :
    (r : Response) (rest : List ℕ)
    → response_bytes r ++ rest
      ≡ header_bytes r ++ (mac_bytes r.mac_addr ++ (ip_bytes r.ip_addr ++ rest))
unfolding response_bytes raw_response_header_of
response_bytes-append r rest =
    ap (λ (k : List ℕ). header_bytes r ++ k)
      (append_assoc (mac_bytes r.mac_addr) (ip_bytes r.ip_addr) rest)

length-response_bytes :
    (r : Response)
    → IsResponse r
    → length (response_bytes r) ≡ 6 + mac_size r.mac_addr + ip_size r.ip_addr
unfolding response_bytes raw_response_header_of
length-response_bytes r v =
    omega
      (arith, v.mac_array, v.ip_array, length-append (mac_bytes r.mac_addr) (ip_bytes r.ip_addr))

-- A discover response is written as its six byte header and the two addresses, and reading those
-- bytes, whatever follows, gives it back.
pub Response-IsCodec : IsCodec {T = Response} IsResponse
unfolding response_bytes
Response-IsCodec = record {
  encode = response_bytes;
  serialize-encode = λ x out _. rw (append_assoc, append_assoc);
  length-encode = length-response_bytes;
  deserialize-encode =
      λ x rest v. rw (response_bytes-append x rest) (response_from_bytes-parts x rest v);
}

-- A discover response whose addresses have the lengths of their Rust types is written, anything is
-- put behind, and what is read is that response, with the size of what was written.
pub response_round_trip :
    (r : Response) (rest : List ℕ)
    → IsResponse r
    → (do bytes ← serialize_to_vec r; response_from_bytes (bytes ++ rest))
      ≡ ok (r, response_serialize.size r)
response_round_trip r rest v = round_trip Response-IsCodec r rest v
