-- ===== src/IntegrationContracts/DestinationPolicy/Ranges.antt =====
-- packages/integration-contracts/src/destination-policy.ts: the blocked IPv4 addresses as CIDR blocks.
use appspine_packages.Base.{
  ℕ, ◌+◌, ◌*◌, ◌/◌, ◌%◌, ◌<◌, ◌≡◌, refl, Bool, false, ◌&&◌, ◌||◌, List, [], ◌∷◌, arith, any, leb,
  ◌==◌,
}
use appspine_packages.IntegrationContracts.DestinationPolicy.Addresses.{
  is_blocked_ipv4_value, in_range,
}

-- An address is in a block if it agrees with the block's base above the host bits: `size` is the number
-- of addresses in it.
pub record Block : Type 0 where
  pub base : ℕ
  pub size : ℕ

abbrev quad : ℕ → ℕ → ℕ → ℕ → ℕ
quad a b c d = ((a * 256 + b) * 256 + c) * 256 + d

abbrev pub in_block : ℕ → Block → Bool
in_block value block = value / block.size == block.base / block.size

-- The special-purpose blocks of IPv4, with the number of addresses in each.
abbrev pub special_blocks : List Block
special_blocks =
    record { base = quad 0 0 0 0; size = 16777216 }
    ∷ record { base = quad 10 0 0 0; size = 16777216 }
    ∷ record { base = quad 127 0 0 0; size = 16777216 }
    ∷ record { base = quad 169 254 0 0; size = 65536 }
    ∷ record { base = quad 100 64 0 0; size = 4194304 }
    ∷ record { base = quad 172 16 0 0; size = 1048576 }
    ∷ record { base = quad 192 168 0 0; size = 65536 }
    ∷ record { base = quad 192 0 0 0; size = 256 }
    ∷ record { base = quad 192 0 2 0; size = 256 }
    ∷ record { base = quad 192 88 99 0; size = 256 }
    ∷ record { base = quad 198 18 0 0; size = 131072 }
    ∷ record { base = quad 198 51 100 0; size = 256 }
    ∷ record { base = quad 203 0 113 0; size = 256 }
    ∷ record { base = quad 224 0 0 0; size = 268435456 }
    ∷ record { base = quad 240 0 0 0; size = 268435456 }
    ∷ []

module _ (v : ℕ) (h : v < 4294967296) where
  one_octet : (a : ℕ) → (v / 16777216 % 256 == a) ≡ (v / 16777216 == a)
  one_octet a = ground arith

  link_local : (v / 16777216 % 256 == 169 && v / 65536 % 256 == 254) ≡ (v / 65536 == 43518)
  link_local = ground arith

  private_16 : (v / 16777216 % 256 == 192 && v / 65536 % 256 == 168) ≡ (v / 65536 == 49320)
  private_16 = ground arith

  carrier :
      (v / 16777216 % 256 == 100 && (leb 64 (v / 65536 % 256) && leb (v / 65536 % 256) 127))
      ≡ (v / 4194304 == 401)
  carrier = ground arith

  private_12 :
      (v / 16777216 % 256 == 172 && (leb 16 (v / 65536 % 256) && leb (v / 65536 % 256) 31))
      ≡ (v / 1048576 == 2753)
  private_12 = ground arith

  block_24 : (k : ℕ) → in_range v (k * 256) (k * 256 + 255) ≡ (v / 256 == k)
  block_24 k = ground arith

  benchmark : in_range v 3323068416 3323199487 ≡ (v / 131072 == 25353)
  benchmark = ground arith

  high : leb 224 (v / 16777216 % 256) ≡ (v / 268435456 == 14 || v / 268435456 == 15)
  high = ground arith

  or_false : (b : Bool) → (b || false) ≡ b
  or_false b = ground arith

-- The code blocks exactly the addresses of the special-purpose blocks: "this network", private use,
-- loopback, link-local, carrier-grade NAT, the two protocol blocks, 6to4 relays, benchmarks, the three
-- documentation blocks, multicast and the reserved addresses. An address is a number below 2 ^ 32.
pub is_blocked_ipv4_value-in_block :
    (v : ℕ) → v < 4294967296 → is_blocked_ipv4_value v ≡ any (in_block v) special_blocks
unfolding is_blocked_ipv4_value
is_blocked_ipv4_value-in_block v h =
    simp
      (
        one_octet v h 0,
        one_octet v h 10,
        one_octet v h 127,
        link_local v h,
        private_16 v h,
        carrier v h,
        private_12 v h,
        block_24 v h 12582912,
        block_24 v h 12582914,
        block_24 v h 12605539,
        block_24 v h 12989284,
        block_24 v h 13303921,
        benchmark v h,
        high v h,
        or_false v h,
      )
      refl
