-- ===== src/Mipsbt/Process.antt =====
-- `mips_backtrace` as a whole, with the map that stays from call to call.
use libmisc.Base.{ℕ, ◌≡◌, ap, ◌∙◌, Option, none, some, List, [], ◌∷◌, map}
use libmisc.Base.Text.{Text}
use libmisc.Mipsbt.{PmapLine, get_process_maps, mips_backtrace}
use libmisc.Mipsbt.Maps.{get_process_maps-expected, expected_maps}

-- `mips_backtrace`: the buffer, and `gbl_pmapLineHead` behind the call.
unfoldable pub process_backtrace :
    (Text → PmapLine)
    → Option (List Text)
    → (ℕ → ℕ)
    → ℕ
    → ℕ
    → ℕ
    → ℕ
    → ℕ
    → List PmapLine
    → Option (List ℕ) × List PmapLine
unfolding get_process_maps mips_backtrace
process_backtrace sscanf file mem fuel size pc ra sp head =
    elim (get_process_maps sscanf file head) [
      | none ↦ (some [], head)
      | some maps ↦ (mips_backtrace maps mem fuel size pc ra sp, maps)
    ]

module _ (sscanf : Text → PmapLine) (mem : ℕ → ℕ) (fuel size pc ra sp : ℕ) where
  process_backtrace-expected :
      (lines : List Text) (head : List PmapLine)
      → let maps = expected_maps sscanf lines head in
        process_backtrace sscanf (some lines) mem fuel size pc ra sp head
        ≡ (mips_backtrace maps mem fuel size pc ra sp, maps)
  unfolding process_backtrace
  process_backtrace-expected lines head =
      ap
        (λ m. elim m as (λ _. Option (List ℕ) × List PmapLine) [
          | none ↦ (some [], head)
          | some maps ↦ (mips_backtrace maps mem fuel size pc ra sp, maps)
        ])
        (get_process_maps-expected sscanf lines head)

-- After a first backtrace whose map has a line, a second one walks over its own memory, but checks the
-- addresses by the map of the first, whatever the map has become.
pub process_backtrace-again :
    (sscanf : Text → PmapLine) (line : Text) (lines lines' : List Text) (mem mem' : ℕ → ℕ)
    (fuel fuel' size size' pc ra sp pc' ra' sp' : ℕ)
    → (process_backtrace sscanf
        (some lines')
        mem'
        fuel'
        size'
        pc'
        ra'
        sp'
        (process_backtrace sscanf (some (line ∷ lines)) mem fuel size pc ra sp []).1).0
      ≡ mips_backtrace (map sscanf (line ∷ lines)) mem' fuel' size' pc' ra' sp'
unfolding expected_maps
process_backtrace-again sscanf line lines lines' mem mem' fuel fuel' size size' pc ra sp pc' ra'
      sp' =
    let first = process_backtrace-expected sscanf mem fuel size pc ra sp (line ∷ lines) [] in
    let second =
      process_backtrace-expected sscanf mem' fuel' size' pc' ra' sp' lines'
        (map sscanf (line ∷ lines)) in
    ap (λ r. (process_backtrace sscanf (some lines') mem' fuel' size' pc' ra' sp' r.1).0) first
    ∙ ap (λ r. r.0) second
