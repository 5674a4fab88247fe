-- ===== src/Base/Words.antt =====
-- Machine words. A w-bit word is a native number below 2 ^ w; a signed word is its bit pattern, so
-- that an int32_t with the top bit set stands for a negative number.
use Prim.Native.Nat.{ℕ, ◌+◌, ◌-◌, ◌*◌, ◌/◌, ◌%◌, ◌^◌}
use mathlib.Core.Bool.{Bool}
use mathlib.Core.List.{List, [], ◌∷◌}
use erda_agent.Base.Tests.{leb, if◌then◌else◌}

abbrev pub u8 : ℕ → ℕ
u8 x = x % 2 ^ 8

abbrev pub u16 : ℕ → ℕ
u16 x = x % 2 ^ 16

abbrev pub u32 : ℕ → ℕ
u32 x = x % 2 ^ 32

abbrev pub u64 : ℕ → ℕ
u64 x = x % 2 ^ 64

-- a - b on words; `-` on ℕ stops at 0, so the modulus is added first.
abbrev pub sub16 : ℕ → ℕ → ℕ
sub16 a b = (a + 2 ^ 16 - b) % 2 ^ 16

abbrev pub sub32 : ℕ → ℕ → ℕ
sub32 a b = (a + 2 ^ 32 - b) % 2 ^ 32

abbrev pub sub64 : ℕ → ℕ → ℕ
sub64 a b = (a + 2 ^ 64 - b) % 2 ^ 64

-- Is the signed word negative?
abbrev pub neg8 : ℕ → Bool
neg8 w = leb (2 ^ 7) w

abbrev pub neg16 : ℕ → Bool
neg16 w = leb (2 ^ 15) w

abbrev pub neg32 : ℕ → Bool
neg32 w = leb (2 ^ 31) w

abbrev pub neg64 : ℕ → Bool
neg64 w = leb (2 ^ 63) w

-- Sign extension, as a conversion to a wider type makes it.
abbrev pub sext16_32 : ℕ → ℕ
sext16_32 w = if leb (2 ^ 15) w then w + (2 ^ 32 - 2 ^ 16) else w

abbrev pub sext32_64 : ℕ → ℕ
sext32_64 w = if leb (2 ^ 31) w then w + (2 ^ 64 - 2 ^ 32) else w

-- The number that the bytes stand for, most significant byte first.
abbrev pub be_from : ℕ → List ℕ → ℕ
be_from acc [] = acc
be_from acc (b ∷ bs) = be_from (acc * 256 + b) bs

abbrev pub be : List ℕ → ℕ
be bs = be_from 0 bs

-- The same, least significant byte first.
abbrev pub le : List ℕ → ℕ
le [] = 0
le (b ∷ bs) = b + 256 * le bs

-- The byte swaps `bpf_ntohs`, `bpf_ntohl` and `bpf_ntohll` of a little-endian target.
abbrev pub bswap16 : ℕ → ℕ
bswap16 x = x % 256 * 256 + x / 256 % 256

abbrev pub bswap32 : ℕ → ℕ
bswap32 x = bswap16 x * 2 ^ 16 + bswap16 (x / 2 ^ 16)

abbrev pub bswap64 : ℕ → ℕ
bswap64 x = bswap32 x * 2 ^ 32 + bswap32 (x / 2 ^ 32)
