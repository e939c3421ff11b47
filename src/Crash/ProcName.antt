-- ===== src/Crash/ProcName.antt =====
-- `miscCrash_getProcName`: the name of a process between the parentheses of its `stat` file.
use libmisc.Base.{
  ℕ, ◌≡◌, ◌≢◌, refl, Option, none, some, [], ◌∷◌, ◌++◌, ◌==◌, ==_self, ne→==, ap, ◌∙◌,
  if◌then◌else◌, All,
}
use libmisc.Base.Text.{Text}

-- What `sscanf` matches with `%[^c]`, and the rest.
unfoldable pub scan_until : ℕ → Text → Text × Text
scan_until stop [] = ([], [])
scan_until stop (c ∷ s) =
    let rest = scan_until stop s in if c == stop then ([], c ∷ s) else (c ∷ rest.0, rest.1)

-- `%[^)]` behind a literal `(`; a conversion that matches nothing assigns nothing, and the buffer was
-- cleared.
unfoldable pub scan_name : Text → Text
unfolding scan_until
scan_name [] = []
scan_name (c ∷ s) = if c == b'(' then (scan_until b')' s).0 else []

-- `sscanf(buf, "%*[^(](%[^)]", curProcessName)`, where the first conversion must match a byte.
unfoldable pub scan_proc_name : Text → Text
unfolding scan_name
scan_proc_name buf = elim (scan_until b'(' buf).0 [
  | [] ↦ []
  | c ∷ s ↦ scan_name (scan_until b'(' buf).1
]

-- `miscCrash_getProcName`, from the line that is read from the file, if it can be opened and read.
unfoldable pub get_proc_name : Option Text → Option Text
unfolding scan_proc_name
get_proc_name none = none
get_proc_name (some buf) = some (scan_proc_name buf)

-- A text without the byte `stop` is read up to it.
scan_until_stop :
    (stop : ℕ) (s rest : Text)
    → All (λ c. c ≢ stop) s
    → scan_until stop (s ++ stop ∷ rest) ≡ (s, stop ∷ rest)
unfolding scan_until
scan_until_stop stop [] rest h = rw (==_self stop) refl
scan_until_stop stop (c ∷ s) rest h = rw (ne→== c stop h.0, scan_until_stop stop s rest h.1) refl

proc_name_of :
    (c : ℕ) (front name rest : Text)
    → All (λ x. x ≢ b'(') (c ∷ front)
    → All (λ x. x ≢ b')') name
    → scan_proc_name ((c ∷ front) ++ b'(' ∷ (name ++ b')' ∷ rest)) ≡ name
unfolding scan_proc_name
proc_name_of c front name rest clean closed =
    ap (λ r. elim r.0 as (λ _. Text) [ [] ↦ [] | x ∷ xs ↦ scan_name r.1 ])
      (scan_until_stop b'(' (c ∷ front) (name ++ b')' ∷ rest) clean)
    ∙ ap (λ r. r.0) (scan_until_stop b')' name rest closed)

-- From a line with a byte or more in front of the first parenthesis, the name is read up to the first
-- closing one.
pub get_proc_name-parenthesised :
    (c : ℕ) (front name rest : Text)
    → All (λ x. x ≢ b'(') (c ∷ front)
    → All (λ x. x ≢ b')') name
    → get_proc_name (some ((c ∷ front) ++ b'(' ∷ (name ++ b')' ∷ rest))) ≡ some name
unfolding get_proc_name
get_proc_name-parenthesised c front name rest clean closed =
    ap some (proc_name_of c front name rest clean closed)
