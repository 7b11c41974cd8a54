-- ===== src/Reversal.antt =====
-- Assignment1/task1.c: what becomes of a block of the file, its bytes reversed and their case
-- inverted.
pub mod Laws
pub mod Copying
pub mod Checking
mod Examples
use osassignments.Common.{ℕ, zero, suc, ◌+◌, ◌-◌, ◌/◌, ◌&&◌, leb, ltb, ◌==◌, if◌then◌else◌}
use osassignments.Common.Family.{put}

-- The buffer: its codes by index.
abbrev pub Buffer : Type 0
Buffer = ℕ → ℕ

-- The two cells that `reverse` exchanges.
unfoldable pub exchange : Buffer → ℕ → ℕ → Buffer
exchange str1 index size = put (put str1 index (str1 (size - index))) (size - index) (str1 index)

-- `reverse`, for a `size` that is not negative, with `fuel` above the number of its calls.
unfoldable pub reverse : ℕ → Buffer → ℕ → ℕ → Buffer
unfolding exchange
reverse zero str1 index size = str1
reverse (suc fuel) str1 index size =
    let rest = reverse fuel (exchange str1 index size) (suc index) size in
    if index == size / 2 then exchange str1 index size else rest

abbrev pub invert_case : ℕ → ℕ
invert_case c =
    if leb b'a' c && leb c b'z' then c - 32 else if leb b'A' c && leb c b'Z' then c + 32 else c

-- The loop over the block of `b` codes, and `reverse(bufr, 0, b - 1)` behind it.
unfoldable pub turn_block : ℕ → Buffer → Buffer
unfolding reverse
turn_block b bufr =
    reverse (suc b) (λ i. if ltb i b then invert_case (bufr i) else bufr i) 0 (b - 1)
