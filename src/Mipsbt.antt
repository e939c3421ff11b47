-- ===== src/Mipsbt.antt =====
-- misc_mipsbt.c: the backtrace of a MIPS process from its registers and its memory. Addresses and
-- words are `unsigned long` values of 32 bits. The lines of `/proc/<pid>/maps`, what `sscanf` reads
-- from a line, and the memory are arguments.
pub mod Maps
pub mod Bounds
pub mod Memory
pub mod Halt
pub mod Process
pub mod Stack
mod Tests
use libmisc.Base.{
  ℕ, zero, suc, ◌+◌, ◌-◌, ◌*◌, ◌/◌, ◌%◌, ◌^◌, Bool, true, false, not, ◌&&◌, ◌||◌, Option, none,
  some, List, [], ◌∷◌, ◌++◌, ◌==◌, ltb, leb, if◌then◌else◌, length,
}
use libmisc.Base.Text.{Text}

-- `pmapLine_t`, without the link to the next line.
pub record PmapLine : Type 0 where
  pub vm_start : ℕ
  pub vm_end : ℕ
  pub permission : Text
  pub vm_page_offset : ℕ
  pub dev : Text
  pub innode_number : ℕ

-- `plTail`: unset, or on the list of `gbl_pmapLineHead`, or on a list of its own.
pub data Tail : Type 0 where
  unset on_list off_list : Tail

-- The loop of `bt_getProcessMaps`; the list from `gbl_pmapLineHead` comes first.
unfoldable pub read_maps : (Text → PmapLine) → List PmapLine → Tail → List Text → List PmapLine
read_maps sscanf head tail [] = head
read_maps sscanf [] tail (l ∷ ls) = read_maps sscanf (sscanf l ∷ []) on_list ls
read_maps sscanf (p ∷ ps) on_list (l ∷ ls) = read_maps sscanf (p ∷ ps ++ sscanf l ∷ []) on_list ls
read_maps sscanf (p ∷ ps) unset (l ∷ ls) = read_maps sscanf (p ∷ ps) off_list ls
read_maps sscanf (p ∷ ps) off_list (l ∷ ls) = read_maps sscanf (p ∷ ps) off_list ls

-- `bt_getProcessMaps`: `none` where the file cannot be opened.
unfoldable pub get_process_maps :
    (Text → PmapLine) → Option (List Text) → List PmapLine → Option (List PmapLine)
unfolding read_maps
get_process_maps sscanf none head = none
get_process_maps sscanf (some lines) head = some (read_maps sscanf head unset lines)

-- `permission[0] == 'r'`
abbrev pub is_readable : Text → Bool
is_readable [] = false
is_readable (c ∷ s) = c == b'r'

-- `bt_regularAddr`
unfoldable pub regular_addr : List PmapLine → ℕ → Bool
regular_addr [] addr = false
regular_addr (pl ∷ pls) addr =
    (is_readable pl.permission && leb pl.vm_start addr && leb addr pl.vm_end)
    || regular_addr pls addr

-- The variables of `mips_backtrace`; `depth` is the length of the buffer.
pub record Walk : Type 0 where
  pub addr : ℕ
  pub ra : ℕ
  pub sp : ℕ
  pub ra_offset : ℕ
  pub buffer : List ℕ

-- A signed half-word as a word.
abbrev pub sign_extended : ℕ → ℕ
sign_extended x = if ltb x (2 ^ 15) then x else x + (2 ^ 32 - 2 ^ 16)

abbrev pub add_32 : ℕ → ℕ → ℕ
add_32 a b = (a + b) % 2 ^ 32

-- `addr--`, of a pointer to words of four bytes.
abbrev pub previous : ℕ → ℕ
previous a = (a + (2 ^ 32 - 4)) % 2 ^ 32

-- Whether the loop goes on, and the variables.
abbrev pub Turn : Type 0
Turn = Bool × Walk

-- The jump to the caller at an instruction that moves `sp` down by `stack_size`.
unfoldable pub jump_to_caller : List PmapLine → (ℕ → ℕ) → ℕ → ℕ → Walk → Turn
jump_to_caller maps mem size stack_size w =
    let depth = length w.buffer in
    let saved = add_32 w.sp w.ra_offset in
    let ra' = if w.ra_offset == 0 then w.ra else mem saved in
    if not (depth - 1 == 0) && (stack_size == 0 || w.ra_offset == 0)
    then (false, w)
    else if not (regular_addr maps saved)
    then (false, w)
    else (
      ltb (suc depth) (size - 1),
      record {
        addr = ra';
        ra = ra';
        sp = add_32 w.sp stack_size;
        ra_offset = 0;
        buffer = w.buffer ++ ra' ∷ [];
      },
    )

-- The `switch` on the upper half of an instruction, with its lower half.
unfoldable pub decode : List PmapLine → (ℕ → ℕ) → ℕ → ℕ → ℕ → Walk → Turn
unfolding jump_to_caller
decode maps mem size op low w =
    if op == 0x23bd || op == 0x27bd
    then (if ltb 0 low && ltb low (2 ^ 15)
        then (true, record w { addr = previous w.addr })
        else jump_to_caller maps mem size (if low == 0 then 0 else 2 ^ 16 - low) w)
    else if op == 0xafbf || op == 0xffbf
    then (true, record w { addr = previous w.addr; ra_offset = sign_extended low })
    else (true, record w { addr = previous w.addr })

-- One turn of the loop.
unfoldable pub turn : List PmapLine → (ℕ → ℕ) → ℕ → Walk → Turn
unfolding decode regular_addr
turn maps mem size w =
    if not (regular_addr maps w.addr)
    then (false, w)
    else if mem w.addr == 0x1000ffff
    then (false, w)
    else decode maps mem size (mem w.addr / 2 ^ 16) (mem w.addr % 2 ^ 16) w

-- The loop, on fuel; `none` where the fuel is used up.
unfoldable pub walk_loop : List PmapLine → (ℕ → ℕ) → ℕ → ℕ → Walk → Option (List ℕ)
unfolding turn
walk_loop maps mem size zero w = none
walk_loop maps mem size (suc fuel) w =
    let next = turn maps mem size w in
    let rest = walk_loop maps mem size fuel next.1 in if next.0 then rest else some next.1.buffer

-- `mips_backtrace` behind `bt_getProcessMaps`: the buffer that is returned.
unfoldable pub mips_backtrace : List PmapLine → (ℕ → ℕ) → ℕ → ℕ → ℕ → ℕ → ℕ → Option (List ℕ)
unfolding walk_loop
mips_backtrace maps mem fuel size pc ra sp =
    if not (regular_addr maps pc)
    then some []
    else walk_loop maps mem size fuel
        (record { addr = pc; ra = ra; sp = sp; ra_offset = 0; buffer = pc ∷ [] })
