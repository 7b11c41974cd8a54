-- ===== src/Reversal/Copying.antt =====
-- Assignment1/task1.c: the loop of `main` that reads the file from its end, block by block.
--
-- The file has `length` codes. `lseek` with a negative distance goes back, or fails and stays where it
-- would pass the beginning; `read` gives what is left, up to the size asked for; `write` writes all.
-- `size` is the first value of `bufrSize`, 10000 in the program.
pub mod Laws
pub mod Files
use osassignments.Common.{
  ℕ, zero, suc, ◌+◌, ◌-◌, Option, none, some, List, [], ◌++◌, leb, ltb, if◌then◌else◌,
}
use osassignments.Common.Segments.{seg}
use osassignments.Reversal.{Buffer, turn_block}

-- The place in the file, the variables, and what was written.
pub record Copying : Type 0 where
  pub pos : ℕ
  pub b : ℕ
  pub bufr_size : ℕ
  pub bufr : Buffer
  pub out : List ℕ

-- `for (; i > 0; i--) if (lseek(readFileDes, -i, SEEK_CUR) != -1) ...`: the distance that it goes
-- back.
unfoldable pub find_offset : ℕ → ℕ → Option ℕ
find_offset zero pos = none
find_offset (suc i) pos = if leb (suc i) pos then some (suc i) else find_offset i pos

-- `bufrSize = i; break;`, where an `i` was found.
unfoldable pub set_offset : Option ℕ → Copying → Copying
set_offset none s = s
set_offset (some i) s = record s { pos = s.pos - i; bufr_size = i }

-- `lseek(readFileDes, -distance, SEEK_CUR)`
abbrev pub go_back : ℕ → Copying → Copying
go_back distance s = if leb distance s.pos then record s { pos = s.pos - distance } else s

module _ (length : ℕ) (content : ℕ → ℕ) where
  unfoldable pub read : Copying → Copying
  read s =
      let left = length - s.pos in
      let n = if leb s.bufr_size left then s.bufr_size else left in
      record s {
        pos = s.pos + n;
        b = n;
        bufr = λ j. if ltb j n then content (s.pos + j) else s.bufr j;
      }

  -- What follows `read`: the block of `b` codes is turned and written.
  unfoldable pub put_block : Copying → Copying
  put_block s =
      let turned = turn_block s.b s.bufr in
      record s { bufr = turned; out = s.out ++ seg turned 0 s.b }

  -- A round in which the first `lseek` succeeds.
  unfoldable pub full_round : Copying → Copying
  unfolding read put_block
  full_round s = put_block (read (record s { pos = s.pos - (s.bufr_size + s.b) }))

  -- What follows the search for an offset: `b` is what was asked for, not what was read.
  unfoldable pub finish : Copying → Copying
  unfolding read put_block
  finish s = let there = read s in put_block (record there { b = there.bufr_size })

  -- The other one, which is the last.
  unfoldable pub last_round : Copying → Copying
  unfolding find_offset set_offset finish
  last_round s =
      let back = go_back s.bufr_size s in
      finish (set_offset (find_offset (s.bufr_size - 1) back.pos) back)

  unfoldable pub copy : ℕ → Copying → Copying
  unfolding full_round last_round
  copy zero s = s
  copy (suc fuel) s =
      let rest = copy fuel (full_round s) in
      if ltb s.pos (s.bufr_size + s.b) then last_round s else rest

  -- The loop from its start, with what the buffer holds at first.
  unfoldable pub copy_file : ℕ → ℕ → Buffer → Copying
  unfolding copy
  copy_file fuel size garbage =
      copy fuel (record { pos = length; b = 0; bufr_size = size; bufr = garbage; out = [] })
