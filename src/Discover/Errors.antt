-- ===== src/Discover/Errors.antt =====
-- bjnp/src/discover.rs: what an accepted response holds; reading one never panics.
use scanner_button.Prelude.{
  ℕ, ◌≢◌, ◌≡◌, ◌≤◌, List, arith, length, take, refl, ◌⊎◌, ltb, not_ltb→le, le→leb, inl, inr,
  Bool-cases, ◌==◌, ==_refl, length-take, length-drop, drop, get_or, ◌+◌,
}
use scanner_button.Rust.Outcome.{Outcome, ok, err, panic, map_ok}
use scanner_button.Serdes.Error.{ParseError, result_offset_by}
use scanner_button.Serdes.Traits.{SizedDeserialize, deserialize_sized}
use scanner_button.Discover.Address.{
  eui48, eui64, v4, v6, mac_bytes, mac_size, ip_bytes, ip_size, octets_exact, eui48_sized,
  eui64_sized, ipv4_sized, ipv6_sized,
}
use scanner_button.Discover.Wire.{Response, mac_from_bytes, ip_from_bytes, response_from_bytes}

octets_exact_enough :
    (n : ℕ) (buffer : List ℕ) → n ≤ length buffer → octets_exact n buffer ≡ ok (take n buffer)
unfolding octets_exact
octets_exact_enough n buffer enough =
    let size : length (take n buffer) ≡ n = omega (arith, length-take n buffer) in
    rw (le→leb n (length buffer) enough, size, ==_refl n)

-- Either an address that takes its bytes from the buffer, or an error.
abbrev Reads : {A : Type 0} → (A → List ℕ) → (A → ℕ) → List ℕ → Outcome (A × ℕ) ParseError → Type 0
Reads {A} octets size buffer r =
    ((a : A) × (r ≡ ok (a, size a)) × (size a ≤ length buffer) × (octets a ≡ take (size a) buffer))
    ⊎ ((e : ParseError) × (r ≡ err e))

module _ {T A : Type 0} (octets : A → List ℕ) (size : A → ℕ) (s : SizedDeserialize T)
    (into : T → A) where
  sized-Reads :
      ((buffer : List ℕ)
        → s.size_of ≤ length buffer
        → (x : T) × (s.deserialize_exact buffer ≡ ok x)
          × (size (into x) ≡ s.size_of)
          × (octets (into x) ≡ take s.size_of buffer))
      → (buffer : List ℕ) (by : ℕ)
      → Reads octets size buffer
          (map_ok (λ (x, n). (into x, n)) (result_offset_by (deserialize_sized s buffer) by))
  unfolding deserialize_sized
  sized-Reads exact buffer by = elim (Bool-cases (ltb (length buffer) s.size_of)) [
    | inl short ↦ rw short (inr (_, refl))
    | inr enough ↦
        let fits : s.size_of ≤ length buffer = not_ltb→le _ _ enough in
        let (x, found, same, held) = exact buffer fits in
        inl (into x, rw (enough, found, same), rw same fits, rw same held)
  ]

mac_from_bytes-Reads :
    (mac_len size : ℕ) (buffer : List ℕ)
    → Reads mac_bytes mac_size buffer (mac_from_bytes mac_len size buffer)
unfolding mac_from_bytes mac_bytes mac_size
mac_from_bytes-Reads mac_len size buffer = elim (Bool-cases (mac_len == 6)) [
  | inl six ↦ rw six (
      sized-Reads mac_bytes mac_size eui48_sized eui48
        (λ b h. (record { octets = take 6 b }, rw (octets_exact_enough 6 b h), refl, refl)) buffer
        size)
  | inr not_six ↦ elim (Bool-cases (mac_len == 8)) [
    | inl eight ↦
        rw (not_six, eight)
          (sized-Reads mac_bytes mac_size eui64_sized eui64
            (λ b h. (record { octets = take 8 b }, rw (octets_exact_enough 8 b h), refl, refl))
            buffer size)
    | inr neither ↦ rw (not_six, neither) (inr (_, refl))
  ]
]

ip_from_bytes-Reads :
    (ip_len size : ℕ) (buffer : List ℕ)
    → Reads ip_bytes ip_size buffer (ip_from_bytes ip_len size buffer)
unfolding ip_from_bytes ip_bytes ip_size
ip_from_bytes-Reads ip_len size buffer = elim (Bool-cases (ip_len == 4)) [
  | inl four ↦ rw four (
      sized-Reads ip_bytes ip_size ipv4_sized v4
        (λ b h. (record { octets = take 4 b }, rw (octets_exact_enough 4 b h), refl, refl)) buffer
        size)
  | inr not_four ↦ elim (Bool-cases (ip_len == 16)) [
    | inl sixteen ↦
        rw (not_four, sixteen)
          (sized-Reads ip_bytes ip_size ipv6_sized v6
            (λ b h. (record { octets = take 16 b }, rw (octets_exact_enough 16 b h), refl, refl))
            buffer size)
    | inr neither ↦ rw (not_four, neither) (inr (_, refl))
  ]
]

-- The addresses stand behind the header of six bytes, the hardware address first.
pub record IsAccepted (buffer : List ℕ) (r : Response) (n : ℕ) : Type 0 where
  pub taken : n ≡ 6 + mac_size r.mac_addr + ip_size r.ip_addr
  pub enough : n ≤ length buffer
  pub mac_held : mac_bytes r.mac_addr ≡ take (mac_size r.mac_addr) (drop 6 buffer)
  pub ip_held :
      ip_bytes r.ip_addr ≡ take (ip_size r.ip_addr) (drop (mac_size r.mac_addr) (drop 6 buffer))

-- Any bytes make an error or an accepted response, never a panic.
pub response_from_bytes-IsAccepted :
    (buffer : List ℕ)
    → ((r : Response) × (n : ℕ) × (response_from_bytes buffer ≡ ok (r, n)) × IsAccepted buffer r n)
      ⊎ ((e : ParseError) × (response_from_bytes buffer ≡ err e))
unfolding response_from_bytes deserialize_sized
response_from_bytes-IsAccepted buffer = elim (Bool-cases (ltb (length buffer) 6)) [
  | inl short ↦ rw short (inr (_, refl))
  | inr long ↦
      let six : 6 ≤ length buffer = not_ltb→le _ _ long in
      let back : List ℕ = drop 6 buffer in
      elim (mac_from_bytes-Reads (get_or buffer 4 0) 6 (drop 6 buffer)) [
        | inr (e, failed) ↦ rw (long, le→leb 6 (length buffer) six, failed) (inr (e, refl))
        | inl (mac, found, fits, held) ↦
            elim (ip_from_bytes-Reads (get_or buffer 5 0) (6 + mac_size mac)
              (drop (mac_size mac) (drop 6 buffer))) [
                | inr (e, failed) ↦
                    rw
                      (
                        long,
                        le→leb 6 (length buffer) six,
                        found,
                        le→leb (mac_size mac) (length (drop 6 buffer)) fits,
                        failed,
                      )
                      (inr (e, refl))
                | inl (ip, found', fits', held') ↦
                    rw
                      (
                        long,
                        le→leb 6 (length buffer) six,
                        found,
                        le→leb (mac_size mac) (length (drop 6 buffer)) fits,
                        found',
                      )
                      (inl (
                        record { mac_addr = mac; ip_addr = ip },
                        _,
                        refl,
                        record {
                          taken = refl;
                          enough = omega (
                            arith,
                            length-drop 6 buffer,
                            length-drop (mac_size mac) (drop 6 buffer),
                          );
                          mac_held = held;
                          ip_held = held';
                        },
                      ))
              ]
      ]
]

pub response_from_bytes-ne-panic : (buffer : List ℕ) → response_from_bytes buffer ≢ panic
response_from_bytes-ne-panic buffer h = elim (response_from_bytes-IsAccepted buffer) [
  | inl (r, n, e, _) ↦ cc (e, h)
  | inr (x, e) ↦ cc (e, h)
]
