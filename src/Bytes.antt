-- ===== src/Bytes.antt =====
-- The bytes of a message: the buffer that bwlib/protocol.c writes at offsets (`&buf[off]`), the
-- numbers in network order that it puts there, and bytes on a stream. A buffer is read at any
-- offset; what is behind its end is never sent.
pub mod Stream
pub mod Host
use bwctl.Prelude.{
  ℕ, zero, suc, ◌+◌, ◌-◌, ◌*◌, ◌/◌, ◌%◌, Bool, true, false, Option, none, some, List, [], ◌∷◌, ltb,
  leb, ◌==◌, if◌then◌else◌, ◌&&◌,
}

abbrev pub Buffer : Type 0
Buffer = ℕ → ℕ

abbrev pub nth : List ℕ → ℕ → ℕ
nth [] i = 0
nth (b ∷ bytes) zero = b
nth (b ∷ bytes) (suc i) = nth bytes i

-- memset(buf, 0, n), for all that is sent.
abbrev pub zeros : Buffer
zeros i = 0

-- memcpy(&buf[off], bytes, n)
abbrev pub put : ℕ → ℕ → List ℕ → Buffer → Buffer
put off n bytes buf i = if leb off i && ltb i (off + n) then nth bytes (i - off) else buf i

-- The n bytes from `off`.
abbrev pub sub : ℕ → ℕ → Buffer → List ℕ
sub off zero buf = []
sub off (suc n) buf = buf off ∷ sub (suc off) n buf

-- htons, htonl and back.
abbrev pub be16 : ℕ → List ℕ
be16 v = v / 256 % 256 ∷ v % 256 ∷ []

abbrev pub be32 : ℕ → List ℕ
be32 v = v / 0x1000000 % 256 ∷ v / 0x10000 % 256 ∷ v / 0x100 % 256 ∷ v % 256 ∷ []

abbrev pub get16 : ℕ → Buffer → ℕ
get16 off buf = buf off * 256 + buf (off + 1)

abbrev pub get32 : ℕ → Buffer → ℕ
get32 off buf =
    buf off * 0x1000000 + buf (off + 1) * 0x10000 + buf (off + 2) * 0x100 + buf (off + 3)

-- memcmp with zeros.
abbrev pub all_zero : List ℕ → Bool
all_zero [] = true
all_zero (b ∷ bytes) = b == 0 && all_zero bytes

-- The first n bytes of a stream and the rest, if there are n (I2Readni).
unfoldable pub split : ℕ → List ℕ → Option (List ℕ × List ℕ)
split zero bytes = some ([], bytes)
split (suc n) [] = none
split (suc n) (b ∷ bytes) = elim (split n bytes) [
  | none ↦ none
  | some (taken, rest) ↦ some (b ∷ taken, rest)
]

-- The text of a buffer, up to its first zero.
abbrev pub c_string : List ℕ → List ℕ
c_string [] = []
c_string (b ∷ bytes) = let rest = c_string bytes in if b == 0 then [] else b ∷ rest
