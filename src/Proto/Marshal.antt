-- ===== src/Proto/Marshal.antt =====
-- proto/marshall.go. A byte slice is a list of bytes (numbers below 256), and so is a Go string; a
-- nil slice is the empty list, since the code only takes its length and slices it.
pub mod Cursor
pub mod Parser
use go9p.Base.{
  ℕ, zero, suc, ◌+◌, ◌*◌, ◌/◌, ◌%◌, ◌^◌, ◌<◌, List, [], ◌∷◌, length, take, drop, ltb, if◌then◌else◌,
  All,
}

abbrev pub IsByte : ℕ → Type 0
IsByte b = b < 256

abbrev pub IsU16 : ℕ → Type 0
IsU16 i = i < 2 ^ 16

abbrev pub IsU32 : ℕ → Type 0
IsU32 i = i < 2 ^ 32

abbrev pub IsU64 : ℕ → Type 0
IsU64 i = i < 2 ^ 64

-- A string whose length fits the two bytes that announce it.
abbrev pub IsText : List ℕ → Type 0
IsText s = IsU16 (length s)

-- The k low bytes of i, lowest first: what `binary.LittleEndian.PutUint` writes.
unfoldable pub le_bytes : ℕ → ℕ → List ℕ
le_bytes zero i = []
le_bytes (suc k) i = (i % 256) ∷ le_bytes k (i / 256)

-- The number that bytes stand for, lowest first: `binary.LittleEndian.Uint`.
unfoldable pub from_le : List ℕ → ℕ
from_le [] = 0
from_le (b ∷ bs) = b + 256 * from_le bs

-- The body that the three readers share: too short a slice gives 0 and the nil slice.
unfoldable pub from_little : ℕ → List ℕ → ℕ × List ℕ
from_little k buff = if ltb (length buff) k then (0, []) else (from_le (take k buff), drop k buff)

unfoldable pub from_little_e16 : List ℕ → ℕ × List ℕ
unfolding from_little
from_little_e16 buff = from_little 2 buff

unfoldable pub from_little_e32 : List ℕ → ℕ × List ℕ
unfolding from_little
from_little_e32 buff = from_little 4 buff

unfoldable pub from_little_e64 : List ℕ → ℕ × List ℕ
unfolding from_little
from_little_e64 buff = from_little 8 buff

unfoldable pub from_string : List ℕ → List ℕ × List ℕ
from_string buff =
    let (leng, rest) = from_little_e16 buff in
    if ltb (length rest) leng then ([], []) else (take leng rest, drop leng rest)
