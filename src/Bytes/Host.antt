-- ===== src/Bytes/Host.antt =====
-- Numbers in the order of the host, which is taken to be little-endian: `memcpy` of a number of n
-- bytes to and from a message between two processes of one host.
use bwctl.Prelude.{ℕ, zero, suc, ◌+◌, ◌*◌, ◌/◌, ◌%◌, ◌<◌, ◌≡◌, List, [], ◌∷◌, arith}
use bwctl.Num64.{u32_mod, u64_mod}
use bwctl.Bytes.{Buffer, sub}

abbrev pub le : ℕ → ℕ → List ℕ
le zero v = []
le (suc n) v = v % 256 ∷ le n (v / 256)

abbrev from_le : List ℕ → ℕ
from_le [] = 0
from_le (b ∷ bytes) = b + 256 * from_le bytes

-- The number of n bytes at an offset.
abbrev pub get_le : ℕ → ℕ → Buffer → ℕ
get_le off n buf = from_le (sub off n buf)

pub from_le-le2 : (v : ℕ) → v < 0x10000 → from_le (le 2 v) ≡ v
from_le-le2 v h = omega arith

pub from_le-le4 : (v : ℕ) → v < u32_mod → from_le (le 4 v) ≡ v
from_le-le4 v h = omega arith

pub from_le-le8 : (v : ℕ) → v < u64_mod → from_le (le 8 v) ≡ v
from_le-le8 v h = omega arith
