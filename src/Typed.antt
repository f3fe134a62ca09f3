-- ===== src/Typed.antt =====
-- typd_mlc.c: the descriptor that GC_make_descriptor makes of a bitmap of the words of a type that
-- may be pointers. GC_add_ext_descriptor, which keeps bitmaps of more than 62 words in a table, is
-- an argument: it takes the number of bits and answers the index in the table, or none for its -1.
-- A word has 64 bits, and the alignment of pointers is 8.
pub mod Sections
pub mod Bits
pub mod Descriptor
mod Tests
use boehmgc.Base.{
  ℕ, zero, suc, ◌+◌, ◌*◌, ◌/◌, ◌%◌, ◌^◌, Bool, Option, none, some, if◌then◌else◌, ◌==◌, ltb, leb,
}

-- `GC_get_bit(bm, i)`, of the words `bm` of the bitmap.
unfoldable pub get_bit : (ℕ → ℕ) → ℕ → Bool
get_bit bm i = bm (i / 64) / 2 ^ (i % 64) % 2 == 1

-- `last_set_bit + 1`, of the first `len` bits.
unfoldable pub set_bits_end : (ℕ → ℕ) → ℕ → ℕ
set_bits_end bm zero = 0
set_bits_end bm (suc k) = let rest = set_bits_end bm k in if get_bit bm k then suc k else rest

-- The loop for an initial section, at `i` with `k` bits left before last_set_bit: its final `i`.
unfoldable pub initial_section : (ℕ → ℕ) → ℕ → ℕ → ℕ
initial_section bm i zero = i
initial_section bm i (suc k) =
    let rest = initial_section bm (suc i) k in if get_bit bm i then rest else i

-- `d >>= 1; if (GC_get_bit(bm, i)) d |= SIGNB;`
unfoldable pub shift_in : Bool → ℕ → ℕ
shift_in bit d =
    let shifted = d / 2 in
    if bit then (if leb (2 ^ 63) shifted then shifted else shifted + 2 ^ 63) else shifted

-- The loop that reverses the bits below `i` into `d`.
unfoldable pub reverse_bits : (ℕ → ℕ) → ℕ → ℕ → ℕ
reverse_bits bm zero d = d
reverse_bits bm (suc i) d = reverse_bits bm i (shift_in (get_bit bm i) d)

-- `GC_MAKE_PROC(proc, env)`, whose last two `|` meet no bit that is set for `proc` below 64.
unfoldable pub make_proc : ℕ → ℕ → ℕ
make_proc proc env = (env * 64 % 2 ^ 64 + proc) * 4 % 2 ^ 64 + 2

-- The descriptor by a table index, and a length where the table cannot grow.
unfoldable pub extended : ℕ → ℕ → Option ℕ → ℕ
extended proc n none = n * 8 % 2 ^ 64
extended proc n (some index) = make_proc proc index

-- The descriptor for the number of bits, `last_set_bit + 1`.
unfoldable pub describe : (ℕ → Option ℕ) → ℕ → (ℕ → ℕ) → ℕ → ℕ
describe add_ext_descriptor proc bm zero = 0
describe add_ext_descriptor proc bm (suc last) =
    let reversed = reverse_bits bm last (2 ^ 63) in
    if initial_section bm 0 last == last
    then suc last * 8 % 2 ^ 64
    else if ltb last 62
    then if reversed % 2 == 0 then reversed + 1 else reversed
    else extended proc (suc last) (add_ext_descriptor (suc last))

unfoldable pub make_descriptor : (ℕ → Option ℕ) → ℕ → (ℕ → ℕ) → ℕ → ℕ
make_descriptor add_ext_descriptor proc bm len =
    describe add_ext_descriptor proc bm (set_bits_end bm len)
