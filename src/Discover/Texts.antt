-- ===== src/Discover/Texts.antt =====
-- bjnp/src/discover.rs: the text of a response of a scanner.
use scanner_button.Prelude.{
  ℕ, ◌+◌, ◌-◌, ◌*◌, ◌/◌, ◌%◌, ◌<◌, ◌≤◌, ◌≡◌, refl, List, [], ◌∷◌, ◌++◌, arith, length, ltb, lt→ltb,
  ltb→lt, inl, inr, Bool-cases, if◌then◌else◌, Option, none, some, false, ◌==◌, true, append-nil,
  drop, ap, sym, ◌∙◌,
}
use scanner_button.Rust.Format.{decimal, digits, digit, shown, codes}
use scanner_button.Rust.Net.{joined, ipv4_shown}
use scanner_button.Rust.Word.{IsByte, IsBytes}
use scanner_button.Discover.Address.{
  MacAddr, eui48, eui64, Ipv4Addr, v4, mac_bytes, mac_size, ip_bytes, ip_size,
}
use scanner_button.Discover.Wire.{Response}
use scanner_button.Discover.Shown.{
  mac_shown, octets_shown, eui48_shown, eui64_shown, ip_shown, response_display,
}
use scanner_button.Discover.RoundTrip.{IsMacAddr, IsIpAddr, IsResponse}
use scanner_button.Discover.Names.{octets_read, octets_read-octets_shown, mac_of}

-- Numbers with a full stop between two of them.
abbrev pub numbers_read : ℕ → List ℕ → List ℕ
numbers_read n [] = n ∷ []
numbers_read n (c ∷ rest) =
    let next = numbers_read 0 rest in
    let more = numbers_read (10 * n + (c - b'0')) rest in if c == b'.' then n ∷ next else more

digit_read :
    (n d : ℕ) (rest : List ℕ)
    → d < 10
    → numbers_read n (digit d ∷ rest) ≡ numbers_read (10 * n + d) rest
unfolding digit
digit_read n d rest h =
    let small : ltb d 10 ≡ true = lt→ltb _ _ h in
    let no_stop : (b'0' + d == b'.') ≡ false = ground arith in
    let value : b'0' + d - b'0' ≡ d = omega arith in rw (small, no_stop, value) refl

first_digit_read :
    (d : ℕ) (rest : List ℕ) → d < 10 → numbers_read 0 (digit d ∷ rest) ≡ numbers_read d rest
first_digit_read d rest h =
    let alone : 10 * 0 + d ≡ d = omega arith in
    digit_read 0 d rest h ∙ ap (λ (n : ℕ). numbers_read n rest) alone

decimal_read :
    (n : ℕ) (rest : List ℕ) → IsByte n → numbers_read 0 (decimal n ++ rest) ≡ numbers_read n rest
unfolding decimal digits
decimal_read n rest h = elim (Bool-cases (ltb n 10)) [
  | inl one ↦ rw (one, first_digit_read n rest (ltb→lt _ _ one)) refl
  | inr more ↦ elim (Bool-cases (ltb (n / 10) 10)) [
    | inl two ↦
        let whole : 10 * (n / 10) + n % 10 ≡ n = omega arith in
        rw
          (
            more,
            two,
            first_digit_read (n / 10) (digit (n % 10) ∷ rest) (ltb→lt _ _ two),
            digit_read (n / 10) (n % 10) rest (omega arith),
            whole,
          )
          refl
    | inr three ↦
        let small : ltb (n / 10 / 10) 10 ≡ true = lt→ltb _ _ (omega arith) in
        let whole : 10 * (10 * (n / 10 / 10) + n / 10 % 10) + n % 10 ≡ n = omega arith in
        rw
          (
            more,
            three,
            small,
            first_digit_read (n / 10 / 10) (digit (n / 10 % 10) ∷ digit (n % 10) ∷ rest)
                (omega arith),
            digit_read (n / 10 / 10) (n / 10 % 10) (digit (n % 10) ∷ rest) (omega arith),
            digit_read (10 * (n / 10 / 10) + n / 10 % 10) (n % 10) rest (omega arith),
            whole,
          )
          refl
  ]
]

numbers_read-ipv4_shown :
    (x : ℕ) (xs : List ℕ) → IsBytes (x ∷ xs) → numbers_read 0 (ipv4_shown (x ∷ xs)) ≡ x ∷ xs
unfolding ipv4_shown
numbers_read-ipv4_shown x [] (h, _) =
    ap (numbers_read 0) (sym (append-nil (decimal x))) ∙ decimal_read x [] h
numbers_read-ipv4_shown x (y ∷ rest) (h, hs) =
    rw (decimal_read x _ h) (rw (numbers_read-ipv4_shown y rest hs) refl)

octets_text :
    (xs rest : List ℕ)
    → 1 ≤ length xs
    → IsBytes xs
    → octets_read (joined (b':' ∷ []) (octets_shown xs) ++ (b' ' ∷ rest)) ≡ (xs, rest)
octets_text [] rest some_left bytes = absurd (omega arith)
octets_text (x ∷ xs) rest some_left bytes = octets_read-octets_shown x xs rest bytes

octets_read-mac_shown :
    (a : MacAddr) (rest : List ℕ)
    → IsMacAddr a
    → IsBytes (mac_bytes a)
    → octets_read (mac_shown a ++ (b' ' ∷ rest)) ≡ (mac_bytes a, rest)
unfolding mac_shown eui48_shown eui64_shown mac_bytes mac_size
octets_read-mac_shown (eui48 a) rest e bytes = octets_text a.octets rest (omega (arith, e)) bytes
octets_read-mac_shown (eui64 a) rest e bytes = octets_text a.octets rest (omega (arith, e)) bytes

mac_of-mac_bytes : (a : MacAddr) → IsMacAddr a → mac_of (mac_bytes a) ≡ some a
unfolding mac_bytes mac_size
mac_of-mac_bytes (eui48 a) e = rw e refl
mac_of-mac_bytes (eui64 a) e = rw e refl

numbers_text : (xs : List ℕ) → 1 ≤ length xs → IsBytes xs → numbers_read 0 (ipv4_shown xs) ≡ xs
numbers_text [] some_left bytes = absurd (omega arith)
numbers_text (x ∷ xs) some_left bytes = numbers_read-ipv4_shown x xs bytes

ip_read :
    (ip : Ipv4Addr)
    → IsIpAddr (v4 ip)
    → IsBytes ip.octets
    → numbers_read 0 (ip_shown (v4 ip)) ≡ ip.octets
unfolding ip_shown ip_bytes ip_size
ip_read ip e bytes = numbers_text ip.octets (omega (arith, e)) bytes

abbrev pub response_of : Option MacAddr → List ℕ → Option Response
response_of none octets = none
response_of (some mac) octets =
    some (record { mac_addr = mac; ip_addr = v4 (record { octets = octets }) })

-- A reader of the text of a response with an address of the fourth version.
abbrev pub response_read : List ℕ → Option Response
response_read text =
    let (octets, behind) = octets_read (drop 4 text) in
    response_of (mac_of octets) (numbers_read 0 (drop 3 behind))

-- A response whose network address is of the fourth version is read back from its text: it names
-- the hardware address, of six bytes or of eight, and the network address.
pub response_read-shown :
    (mac : MacAddr) (ip : Ipv4Addr)
    → IsResponse (record { mac_addr = mac; ip_addr = v4 ip })
    → IsBytes (mac_bytes mac)
    → IsBytes ip.octets
    → response_read (shown {T = Response} (record { mac_addr = mac; ip_addr = v4 ip }))
      ≡ some (record { mac_addr = mac; ip_addr = v4 ip })
response_read-shown mac ip valid mac_octets ip_octets =
    let behind : List ℕ = codes "ip=" ++ ip_shown (v4 ip) in
    rw (octets_read-mac_shown mac behind valid.mac_array mac_octets)
      (rw (mac_of-mac_bytes mac valid.mac_array, ip_read ip valid.ip_array ip_octets) refl)
