-- ===== src/Mipsbt/Tests.antt =====
-- A process of two functions, and the theorems at it.
use libmisc.Base.{
  ℕ, take, inl, ◌<◌, ◌^◌, ◌*◌, ◌≡◌, refl, ◌⊎◌, true, false, some, List, [], ◌∷◌, arith,
  if◌then◌else◌, ◌==◌, ltb,
}
use libmisc.Base.Text.{codes}
use libmisc.Mipsbt.{PmapLine, mips_backtrace, regular_addr}
use libmisc.Mipsbt.Process.{process_backtrace, process_backtrace-again}
use libmisc.Mipsbt.Bounds.{IsSound}
use libmisc.Mipsbt.Halt.{mips_backtrace-IsSound}
use libmisc.Mipsbt.Stack.{IsStack, leaf, called, frame, back, here, halts}
use libmisc.Mipsbt.Stack.Found.{shown_callers, mips_backtrace-IsStack}
use libmisc.Mipsbt.Memory.{mips_backtrace_agree}

abbrev text_segment : PmapLine
text_segment = record {
  vm_start = 4096;
  vm_end = 8192;
  permission = codes "r-xp";
  vm_page_offset = 0;
  dev = codes "00:00";
  innode_number = 0;
}

abbrev two_functions : List PmapLine
two_functions = text_segment ∷ []

-- At 4196 `addiu sp, sp, -16`, at 4200 `sw ra, 12(sp)`, at 4296 `addiu sp, sp, -16` in a leaf, and
-- 4204 saved on the stack at 8000.
abbrev program : ℕ → ℕ
program a =
    if a == 4196
    then 0x27bdfff0
    else if a == 4200
    then 0xafbf000c
    else if a == 4296
    then 0x27bdfff0
    else if a == 8012
    then 0x1000
    else 0

abbrev program' : ℕ → ℕ
program' a = if ltb a 9000 then program a else 7

-- The leaf is called from 4204, whose function returns to 4096.
leaf_backtrace :
    mips_backtrace two_functions program 100 10 4304 4204 7984 ≡ some (4304 ∷ 4204 ∷ 4096 ∷ [])
unfolding mips_backtrace
leaf_backtrace = refl

-- A buffer of one entry gets a second one behind its end.
one_entry : mips_backtrace two_functions program 100 1 4304 4204 7984 ≡ some (4304 ∷ 4204 ∷ [])
unfolding mips_backtrace
one_entry = refl

null_page : (a : ℕ) → a < 4 → regular_addr two_functions a ≡ false
unfolding regular_addr
null_page a h = ground arith

program_words : (a : ℕ) → program a < 2 ^ 32
program_words a = ground arith

same_program : (a : ℕ) → regular_addr two_functions a ≡ true → program a ≡ program' a
unfolding regular_addr
same_program a h = ground arith

process_backtrace-again_example :
    (process_backtrace
      (λ line. text_segment)
      (some [])
      program'
      100
      10
      4304
      4204
      7984
      (process_backtrace
        (λ line. text_segment)
        (some (codes "a" ∷ []))
        program
        100
        10
        4304
        4204
        7984
        []).1).0
    ≡ mips_backtrace two_functions program' 100 10 4304 4204 7984
process_backtrace-again_example =
    process_backtrace-again (λ line. text_segment) (codes "a") [] [] program program' 100 100 10 10
      4304 4204 7984 4304 4204 7984

mips_backtrace-IsSound_example :
    (buffer : List ℕ) × (mips_backtrace two_functions program (10 * 2 ^ 30) 10 4304 4204 7984
      ≡ some buffer)
    × ((regular_addr two_functions 4304 ≡ false) × (buffer ≡ []) ⊎ IsSound two_functions 10 buffer)
mips_backtrace-IsSound_example =
    mips_backtrace-IsSound two_functions program 10 (10 * 2 ^ 30) 4304 4204 7984 program_words
      null_page (omega arith) (omega arith) (omega arith) (omega arith)

mips_backtrace_agree_example :
    mips_backtrace two_functions program 100 10 4304 4204 7984
    ≡ mips_backtrace two_functions program' 100 10 4304 4204 7984
mips_backtrace_agree_example =
    mips_backtrace_agree two_functions program program' same_program 100 10 4304 4204 7984

-- The leaf made its frame two words before the pc; its caller saved its return address at 8012, and the
-- function before that lies at the start of the readable code.
leaf-IsStack : IsStack two_functions program 4304 4204 7984 (4204 ∷ 4096 ∷ []) 7
unfolding regular_addr
leaf-IsStack =
    leaf 2 4296 4 (4096 ∷ [])
      (back 4304 1 4296 (refl, refl) (back 4300 0 4296 (refl, refl) (here 4296))) (refl, refl) refl
      (called 4204 8000 4096 8016 3 1 []
        (frame 1 4200 0 4196 (back 4204 0 4200 (refl, refl) (here 4200)) (refl, refl) (omega arith)
          (here 4196) (refl, refl) (omega arith) refl)
        (halts 4096 8016 1 4092 (back 4096 0 4092 (refl, refl) (here 4092)) (inl refl)))

readable_pc : regular_addr two_functions 4304 ≡ true
unfolding regular_addr
readable_pc = refl

mips_backtrace-IsStack_example :
    mips_backtrace two_functions program 8 10 4304 4204 7984
    ≡ some (4304 ∷ take (shown_callers 10) (4204 ∷ 4096 ∷ []))
mips_backtrace-IsStack_example =
    mips_backtrace-IsStack two_functions program 10 4304 4204 7984 8 7 (4204 ∷ 4096 ∷ [])
      readable_pc leaf-IsStack (omega arith)
