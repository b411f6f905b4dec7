-- ===== src/Webhook/Addresses.antt =====
-- The addresses that `is_private_ip` of crates/core/seidrum-eventbus/src/delivery/webhook.rs lets pass.
use seidrum.Base.{
  ◌+◌, ◌/◌, ◌%◌, ◌==◌, leb, ℕ, ◌<◌, Bool, true, false, ◌||◌, ◌&&◌, ◌≡◌, ◌≢◌, ◌⊎◌, arith,
}
use seidrum.Webhook.{
  high_bits, segments, is_mapped, is_loopback_v6, is_unspecified_v6, octets, IpAddr, v4, v6,
  is_private_v4, is_private_ip,
}

-- Outside the ranges of RFC 1918, RFC 3927, RFC 6598, loopback, multicast, the
-- unspecified address and the broadcast address.
abbrev pub PublicOctets : ℕ → ℕ → ℕ → ℕ → Type 0
PublicOctets a b c d =
    ((a ≢ 10) × (a ≢ 127))
    × ((((a ≢ 172) ⊎ (b < 16)) ⊎ (31 < b))
        × (((a ≢ 192) ⊎ (b ≢ 168))
            × (((a ≢ 169) ⊎ (b ≢ 254))
                × (((((a ≢ 100) ⊎ (b < 64)) ⊎ (127 < b)))
                    × (((a < 224) ⊎ (239 < a))
                        × ((0 < a + b + c + d)
                            × (((a ≢ 255) ⊎ (b ≢ 255)) ⊎ ((c ≢ 255) ⊎ (d ≢ 255)))))))))

or_false : (x y : Bool) → (x || y) ≡ false → (x ≡ false) × (y ≡ false)
or_false x y h = ground arith

not_private :
    (a b : ℕ)
    → ((a == 10) || (((a == 172) && (leb 16 b && leb b 31)) || ((a == 192) && (b == 168)))) ≡ false
    → (a ≢ 10) × ((((a ≢ 172) ⊎ (b < 16)) ⊎ (31 < b)) × ((a ≢ 192) ⊎ (b ≢ 168)))
not_private a b h = ground arith

not_both : (a b m n : ℕ) → ((a == m) && (b == n)) ≡ false → (a ≢ m) ⊎ (b ≢ n)
not_both a b m n h = ground arith

not_shared :
    (a b : ℕ) → ((a == 100) && (high_bits 64 b == 64)) ≡ false → ((a ≢ 100) ⊎ (b < 64)) ⊎ (127 < b)
not_shared a b h = ground arith

not_multicast : (a : ℕ) → (leb 224 a && leb a 239) ≡ false → (a < 224) ⊎ (239 < a)
not_multicast a h = ground arith

not_unspecified :
    (a b c d : ℕ) → ((a == 0) && ((b == 0) && ((c == 0) && (d == 0)))) ≡ false → 0 < a + b + c + d
not_unspecified a b c d h = ground arith

not_broadcast :
    (a b c d : ℕ)
    → ((a == 255) && ((b == 255) && ((c == 255) && (d == 255)))) ≡ false
    → ((a ≢ 255) ⊎ (b ≢ 255)) ⊎ ((c ≢ 255) ⊎ (d ≢ 255))
not_broadcast a b c d h = ground arith

not_loopback : (a : ℕ) → (a == 127) ≡ false → a ≢ 127
not_loopback a h = ground arith

public_octets : (a b c d : ℕ) → is_private_v4 (octets a b c d) ≡ false → PublicOctets a b c d
public_octets a b c d h =
    let (loop, h₁) = or_false _ _ h in
    let (range, h₂) = or_false _ _ h₁ in
    let (link, h₃) = or_false _ _ h₂ in
    let (zeros, h₄) = or_false _ _ h₃ in
    let (multi, h₅) = or_false _ _ h₄ in
    let (ten, in_between) = not_private a b range in
    (
      (ten, not_loopback a loop),
      (
        in_between.0,
        (
          in_between.1,
          (
            not_both a b 169 254 link,
            (
              not_shared a b (or_false _ _ h₅).1,
              (
                not_multicast a multi,
                (not_unspecified a b c d zeros, not_broadcast a b c d (or_false _ _ h₅).0),
              ),
            ),
          ),
        ),
      ),
    )

-- Outside loopback, multicast, unique-local and link-local words, and public when it maps an
-- address of four bytes.
abbrev pub IsPublic : IpAddr → Type 0
IsPublic (v4 (octets a b c d)) = PublicOctets a b c d
IsPublic (v6 (segments a b c d e f g h)) =
    ((0 < a + b + c + d + e + f + g) ⊎ (1 < h))
    × (((a < 65280) ⊎ (65535 < a))
        × (((a < 64512) ⊎ (65023 < a))
            × (((a < 65152) ⊎ (65215 < a))
                × (is_mapped (segments a b c d e f g h) ≡ true
                    → PublicOctets (g / 256) (g % 256) (h / 256) (h % 256)))))

above_one :
    (a b c d e f g h : ℕ)
    → is_loopback_v6 (segments a b c d e f g h) ≡ false
    → is_unspecified_v6 (segments a b c d e f g h) ≡ false
    → (0 < a + b + c + d + e + f + g) ⊎ (1 < h)
above_one a b c d e f g h one none_on = ground arith

no_multicast : (a : ℕ) → (high_bits 256 a == 65280) ≡ false → (a < 65280) ⊎ (65535 < a)
no_multicast a h = ground arith

no_unique_local : (a : ℕ) → (high_bits 512 a == 64512) ≡ false → (a < 64512) ⊎ (65023 < a)
no_unique_local a h = ground arith

no_link_local : (a : ℕ) → (high_bits 64 a == 65152) ≡ false → (a < 65152) ⊎ (65215 < a)
no_link_local a h = ground arith

and_false : (x y : Bool) → (x && y) ≡ false → x ≡ true → y ≡ false
and_false x y h t = ground arith

pub is_private_ip-IsPublic : (ip : IpAddr) → is_private_ip ip ≡ false → IsPublic ip
unfolding is_private_ip
is_private_ip-IsPublic (v4 (octets a b c d)) h = public_octets a b c d h
is_private_ip-IsPublic (v6 (segments a b c d e f g h)) private =
    let (loop, n₁) = or_false _ _ private in
    let (zeros, n₂) = or_false _ _ n₁ in
    let (multi, n₃) = or_false _ _ n₂ in
    let (unique, n₄) = or_false _ _ n₃ in
    let (link, n₅) = or_false _ _ n₄ in
    (
      above_one a b c d e f g h loop zeros,
      (
        no_multicast a multi,
        (
          no_unique_local a unique,
          (no_link_local a link, λ m. public_octets _ _ _ _ (and_false _ _ n₅ m)),
        ),
      ),
    )
