-- ===== src/Buffer.antt =====
-- What the source uses of Go's byte slices and of `encoding/binary`: slice expressions, `copy`,
-- big-endian words, and the trimming of `bytes` and `strings`. A byte is a number below 256; a Go
-- string is its bytes. Functions that change a slice return the changed bytes.
pub mod BigEndian
pub mod Writes
pub mod Fields
pub mod Trim
use mathlib.Core.List.{reverse}
use ecstoolkit.Base.{
  ℕ, zero, suc, ◌+◌, ◌-◌, ◌*◌, ◌/◌, ◌%◌, ◌<◌, ◌≡◌, Bool, true, false, ◌&&◌, ◌||◌, List, [], ◌∷◌,
  ◌++◌, ℤ, pos, negsuc, Result, ok, panic, leb, ltb, ◌==◌, if◌then◌else◌, length, take, drop, set,
  All,
}

abbrev pub Bytes : Type 0
Bytes = List ℕ

abbrev pub IsByte : ℕ → Type 0
IsByte b = b < 256

-- `make([]byte, n)`
abbrev pub zeros : ℕ → Bytes
zeros zero = []
zeros (suc n) = 0 ∷ zeros n

-- `b[lo:hi]`; the run-time panics unless 0 ≤ lo ≤ hi ≤ len(b).
unfoldable pub slice : Bytes → ℤ → ℤ → Result Bytes
slice b (pos lo) (pos hi) =
    if leb lo hi && leb hi (length b) then ok (take (hi - lo) (drop lo b)) else panic
slice b (pos lo) (negsuc hi) = panic
slice b (negsuc lo) hi = panic

-- The bytes from `off` on replaced by `xs`.
abbrev pub write : Bytes → ℕ → Bytes → Bytes
write b off xs = take off b ++ (xs ++ drop (off + length xs) b)

-- `copy(b[lo:hi], src)`: as many bytes as both sides have.
pub copy_slice : Bytes → ℤ → ℤ → Bytes → Result Bytes
copy_slice b (pos lo) (pos hi) src =
    if leb lo hi && leb hi (length b) then ok (write b lo (take (hi - lo) src)) else panic
copy_slice b (pos lo) (negsuc hi) src = panic
copy_slice b (negsuc lo) hi src = panic

-- `for i := start; i <= end; i++ { b[i] = v }`, with the rounds that are left and the next index.
pub fill : ℕ → ℕ → ℕ → Bytes → Bytes
fill zero i v b = b
fill (suc rounds) i v b = fill rounds (i + 1) v (set b i v)

-- The `n` big-endian bytes of a word, and the word of some bytes.
pub be_bytes : ℕ → ℕ → Bytes
be_bytes zero x = []
be_bytes (suc n) x = be_bytes n (x / 256) ++ ((x % 256) ∷ [])

unfoldable pub be_value_from : ℕ → Bytes → ℕ
be_value_from acc [] = acc
be_value_from acc (b ∷ bs) = be_value_from (acc * 256 + b) bs

unfoldable pub be_value : Bytes → ℕ
unfolding be_value_from
be_value bs = be_value_from 0 bs

-- `bytes.Trim(b, "\x00")`: no zero bytes at either end.
trim_left_nul : Bytes → Bytes
trim_left_nul [] = []
trim_left_nul (b ∷ bs) = if b == 0 then trim_left_nul bs else b ∷ bs

pub trim_nul : Bytes → Bytes
unfolding trim_left_nul
trim_nul bs = reverse (trim_left_nul (reverse (trim_left_nul bs)))

-- The white space of `unicode.IsSpace`, by its UTF-8 encoding: of one byte, of two, of three.
is_space_1 : ℕ → Bool
is_space_1 a = (leb 9 a && leb a 13) || a == 32

is_space_2 : ℕ → ℕ → Bool
is_space_2 a b = a == 0xc2 && (b == 0x85 || b == 0xa0)

is_space_3 : ℕ → ℕ → ℕ → Bool
is_space_3 a b c =
    (a == 0xe1 && (b == 0x9a && c == 0x80))
    || ((a == 0xe2
          && ((b == 0x80 && ((leb 0x80 c && leb c 0x8a) || (c == 0xa8 || (c == 0xa9 || c == 0xaf))))
              || (b == 0x81 && c == 0x9f)))
        || (a == 0xe3 && (b == 0x80 && c == 0x80)))

-- How many bytes of white space stand first, as one character.
space_width : Bytes → ℕ
unfolding is_space_1 is_space_2 is_space_3
space_width [] = 0
space_width (a ∷ []) = if is_space_1 a then 1 else 0
space_width (a ∷ b ∷ []) = if is_space_1 a then 1 else if is_space_2 a b then 2 else 0
space_width (a ∷ b ∷ c ∷ _) =
    if is_space_1 a then 1 else if is_space_2 a b then 2 else if is_space_3 a b c then 3 else 0

-- The same, of the bytes in reverse order.
space_width_back : Bytes → ℕ
unfolding is_space_1 is_space_2 is_space_3
space_width_back [] = 0
space_width_back (a ∷ []) = if is_space_1 a then 1 else 0
space_width_back (a ∷ b ∷ []) = if is_space_1 a then 1 else if is_space_2 b a then 2 else 0
space_width_back (a ∷ b ∷ c ∷ _) =
    if is_space_1 a then 1 else if is_space_2 b a then 2 else if is_space_3 c b a then 3 else 0

-- Drops white space from the front; the number is how many bytes of a space are still to be dropped.
trim_front : (Bytes → ℕ) → ℕ → Bytes → Bytes
trim_front width skip [] = []
trim_front width (suc skip) (b ∷ bs) = trim_front width skip bs
trim_front width zero (b ∷ bs) = elim (width (b ∷ bs)) [
  | zero ↦ b ∷ bs
  | suc more ↦ trim_front width more bs
]

-- `strings.TrimSpace(s)`
pub trim_space : Bytes → Bytes
unfolding trim_front space_width space_width_back
trim_space s = reverse (trim_front space_width_back 0 (reverse (trim_front space_width 0 s)))
