-- ===== src/Rust/Net.antt =====
-- `std::net`: socket addresses, and how an address is shown. The addresses themselves are lists of
-- octets (Discover.Address).
use scanner_button.Prelude.{
  ℕ, ◌+◌, ◌*◌, ◌==◌, ltb, ◌&&◌, List, [], ◌∷◌, ◌++◌, take, drop, replicate, get_or, if◌then◌else◌,
  Bool, ◌≡◌, refl,
}
use scanner_button.Rust.Format.{decimal, hex, codes, digits, digit}

-- `join`
abbrev pub joined : List ℕ → List (List ℕ) → List ℕ
joined separator [] = []
joined separator (x ∷ []) = x
joined separator (x ∷ y ∷ rest) = x ++ (separator ++ joined separator (y ∷ rest))

abbrev each : (ℕ → List ℕ) → List ℕ → List (List ℕ)
each f [] = []
each f (x ∷ xs) = f x ∷ each f xs

-- `Display for Ipv4Addr`
unfoldable pub ipv4_shown : List ℕ → List ℕ
ipv4_shown octets = joined (b'.' ∷ []) (each decimal octets)

-- `Ipv6Addr::segments`
abbrev segments : List ℕ → List ℕ
segments (high ∷ low ∷ rest) = (256 * high + low) ∷ segments rest
segments _ = []

-- A run of zeros: where it starts and its length.
abbrev pub Run : Type 0
Run = ℕ × ℕ

abbrev pub longer : Run → Run → Run
longer (start, size) (start', size') = if ltb size size' then (start', size') else (start, size)

-- The first one of the longest runs of zeros, where `current` ends in front of `position`.
unfoldable pub longest_run : List ℕ → ℕ → Run → Run → Run
longest_run [] position current longest = longest
longest_run (x ∷ xs) position (start, size) longest =
    let zeros : Run = (if size == 0 then position else start, size + 1) in
    if x == 0
    then longest_run xs (position + 1) zeros (longer longest zeros)
    else longest_run xs (position + 1) (0, 0) longest

colons : List ℕ → List ℕ
colons xs = joined (b':' ∷ []) (each hex xs)

compressed : List ℕ → Run → List ℕ
unfolding colons
compressed xs (start, size) =
    if ltb 1 size
    then colons (take start xs) ++ (codes "::" ++ colons (drop (start + size) xs))
    else colons xs

is_mapped : List ℕ → Bool
is_mapped xs =
    (get_or xs 0 0 == 0)
    && (get_or xs 1 0 == 0)
    && (get_or xs 2 0 == 0)
    && (get_or xs 3 0 == 0)
    && (get_or xs 4 0 == 0)
    && (get_or xs 5 0 == 0xffff)

-- `Display for Ipv6Addr`: an address of the fourth version inside is shown as one.
unfoldable pub ipv6_shown : List ℕ → List ℕ
unfolding is_mapped compressed
ipv6_shown octets =
    let xs = segments octets in
    if is_mapped xs
    then codes "::ffff:" ++ ipv4_shown (drop 12 octets)
    else compressed xs (longest_run xs 0 (0, 0) (0, 0))

v4_run : ipv4_shown (192 ∷ 168 ∷ 0 ∷ 7 ∷ []) ≡ codes "192.168.0.7"
unfolding ipv4_shown decimal digits digit
v4_run = refl

v6_run : ipv6_shown (0xfe ∷ 0x80 ∷ (replicate 12 0 ++ (0x0a ∷ 1 ∷ []))) ≡ codes "fe80::a01"
unfolding ipv6_shown longest_run hex digits digit
v6_run = refl

v6_runs :
    (ipv6_shown (replicate 16 0) ≡ codes "::")
    × (ipv6_shown (replicate 10 0 ++ (255 ∷ 255 ∷ 10 ∷ 0 ∷ 0 ∷ 1 ∷ [])) ≡ codes "::ffff:10.0.0.1")
    × (ipv6_shown (replicate 3 0 ++ (1 ∷ (replicate 5 0 ++ (1 ∷ replicate 6 0))))
        ≡ codes "0:1:0:0:1::")
unfolding ipv6_shown ipv4_shown longest_run hex decimal digits digit
v6_runs = (refl, refl, refl)
