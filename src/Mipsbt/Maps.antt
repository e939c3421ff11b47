-- ===== src/Mipsbt/Maps.antt =====
-- The memory map that the backtrace trusts.
use mathlib.Core.List.{append-nil, append_assoc}
use libmisc.Base.{
  ℕ, ◌≤◌, ◌≡◌, refl, sym, ap, ◌∙◌, ◌⊎◌, ◌↔◌, true, some, List, [], ◌∷◌, ◌++◌, map, arith,
}
use libmisc.Base.Text.{Text}
use libmisc.Mipsbt.{
  PmapLine, on_list, off_list, read_maps, get_process_maps, is_readable, regular_addr,
}

-- Lines are put behind a list whose last line `plTail` points to.
read_maps_on_list :
    (sscanf : Text → PmapLine) (p : PmapLine) (ps : List PmapLine) (lines : List Text)
    → read_maps sscanf (p ∷ ps) on_list lines ≡ p ∷ ps ++ map sscanf lines
unfolding read_maps
read_maps_on_list sscanf p ps [] = sym (append-nil (p ∷ ps))
read_maps_on_list sscanf p ps (l ∷ ls) =
    read_maps_on_list sscanf p (ps ++ sscanf l ∷ []) ls
    ∙ append_assoc (p ∷ ps) (sscanf l ∷ []) (map sscanf ls)

read_maps_off_list :
    (sscanf : Text → PmapLine) (p : PmapLine) (ps : List PmapLine) (lines : List Text)
    → read_maps sscanf (p ∷ ps) off_list lines ≡ p ∷ ps
unfolding read_maps
read_maps_off_list sscanf p ps [] = refl
read_maps_off_list sscanf p ps (l ∷ ls) = read_maps_off_list sscanf p ps ls

-- The map that is there afterwards: the lines if there was none, and else the old one.
unfoldable pub expected_maps : (Text → PmapLine) → List Text → List PmapLine → List PmapLine
expected_maps sscanf lines [] = map sscanf lines
expected_maps sscanf lines (p ∷ ps) = p ∷ ps

-- The file is read once: with no map so far, its lines make the map, in their order; a map that is
-- there stays as it is, whatever the lines are.
pub get_process_maps-expected :
    (sscanf : Text → PmapLine) (lines : List Text) (head : List PmapLine)
    → get_process_maps sscanf (some lines) head ≡ some (expected_maps sscanf lines head)
unfolding get_process_maps read_maps expected_maps
get_process_maps-expected sscanf [] [] = refl
get_process_maps-expected sscanf (l ∷ ls) [] = ap some (read_maps_on_list sscanf (sscanf l) [] ls)
get_process_maps-expected sscanf [] (p ∷ ps) = refl
get_process_maps-expected sscanf (l ∷ ls) (p ∷ ps) = ap some (read_maps_off_list sscanf p ps ls)

-- Some line of the map is readable and reaches from its start to its end, the end included.
abbrev pub IsCovered : ℕ → List PmapLine → Type 0
IsCovered addr [] = ⊥
IsCovered addr (pl ∷ pls) =
    ((is_readable pl.permission ≡ true) × (pl.vm_start ≤ addr) × (addr ≤ pl.vm_end))
    ⊎ IsCovered addr pls

-- `bt_regularAddr` accepts exactly the addresses in a readable line, its end included.
pub regular_addr-IsCovered :
    (maps : List PmapLine) (addr : ℕ) → (regular_addr maps addr ≡ true) ↔ IsCovered addr maps
unfolding regular_addr
regular_addr-IsCovered [] addr = ground arith
regular_addr-IsCovered (pl ∷ pls) addr =
    let rest = regular_addr-IsCovered pls addr in ground (arith, rest)
