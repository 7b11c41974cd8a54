-- ===== src/Shell/Display.antt =====
-- Assignment3/wonderShell/wonderShell.c: what `ls`, `clock` and `pinfo` print, and `pinfo` of the
-- first shell.
use osassignments.Common.{ℕ, Option, List}
use osassignments.Shell.Listing.{Listing}
use osassignments.Shell.Pinfo.{Info}
use osassignments.FirstShell.Status.{Status}

pub data Display : Type 0 where
  of_ls : Listing → Display
  of_clock : Option (List ℕ) → Display
  of_pinfo : Info → Display
  of_status : Status → Display
