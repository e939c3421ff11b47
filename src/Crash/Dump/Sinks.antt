-- ===== src/Crash/Dump/Sinks.antt =====
-- The three destinations of a line, all of them open and different.
use mathlib.Core.Path.{subst}
use libmisc.Base.{
  ℕ, ap, ◌≡◌, ◌≢◌, refl, sym, Bool, true, false, none, some, [], ◌∷◌, ◌++◌, ==_self, if◌then◌else◌,
  arith,
}
use libmisc.Base.Int.{ℤ, pos, minus_one, eqb_ℤ, ltb_ℤ}
use libmisc.Base.Text.{Text}
use libmisc.Crash.Dump.{writes, fwrites, Outputs, to_file, to_filep, to_fd, output_init}
use libmisc.Crash.Dump.Shown.{stream, descriptor, is_descriptor, received, Delivers}

-- The descriptor that `outputInit` opens, from the results of its two calls of `open`.
abbrev pub file_fd : ℤ × ℤ → ℤ
file_fd (appending, created) = if ltb_ℤ appending (pos 0) then created else appending

-- A file name with an open descriptor, a file pointer, and a descriptor.
pub record IsOpen (o : Outputs) (d file e : ℕ) : Type 0 where
  pub name : Text
  pub filename : o.gbl_params.filename ≡ some name
  pub gbl_fd : o.gbl_fd ≡ pos d
  pub filep : o.gbl_params.filep ≡ some file
  pub fd : o.gbl_params.fd ≡ pos e

pos_open : (n : ℕ) → eqb_ℤ (pos n) minus_one ≡ false
pos_open n = ground arith

module _ {o : Outputs} {d file e : ℕ} (is : IsOpen o d file e) where
  three :
      (line : Text)
      → to_file o line ++ (to_filep o line ++ to_fd o line)
        ≡ writes (pos d) line ∷ fwrites file line ∷ writes (pos e) line ∷ []
  unfolding to_file to_filep to_fd
  three line =
      rw (to_file, to_filep, to_fd, is.filename, is.gbl_fd, is.filep, is.fd, pos_open d, pos_open e)
        refl

  pub Delivers-stream : Delivers (stream file) o
  unfolding received
  Delivers-stream line = rw (three line, ==_self file) refl

  module _ (apart : d ≢ e) where
    pub Delivers-file : Delivers (descriptor (pos d)) o
    unfolding received
    Delivers-file line =
        let other : is_descriptor (descriptor (pos d)) (pos e) ≡ false = ground (arith, apart) in
        let same : is_descriptor (descriptor (pos d)) (pos d) ≡ true = ground arith in
        rw (three line, received, same, other) refl

    pub Delivers-fd : Delivers (descriptor (pos e)) o
    unfolding received
    Delivers-fd line =
        let other : is_descriptor (descriptor (pos e)) (pos d) ≡ false = ground (arith, apart) in
        let same : is_descriptor (descriptor (pos e)) (pos e) ≡ true = ground arith in
        rw (three line, received, same, other) refl

-- What `outputInit` opens.
output_init-fd :
    (appending created : ℤ) (d : ℕ)
    → file_fd (appending, created) ≡ pos d
    → (if ltb_ℤ appending (pos 0)
        then (if ltb_ℤ created (pos 0) then minus_one else created)
        else appending)
      ≡ pos d
output_init-fd appending created d = go (ltb_ℤ appending (pos 0))
  where
    go :
        (failed : Bool)
        → (if failed then created else appending) ≡ pos d
        → (if failed then (if ltb_ℤ created (pos 0) then minus_one else created) else appending)
          ≡ pos d
    go true h = let opened : ltb_ℤ (pos d) (pos 0) ≡ false = ground arith in rw (h, opened) refl
    go false h = h

pub output_init-IsOpen :
    (opened : ℤ × ℤ) (o : Outputs) (name : Text) (d file e : ℕ)
    → o.gbl_params.filename ≡ some name
    → o.gbl_params.filep ≡ some file
    → o.gbl_params.fd ≡ pos e
    → file_fd opened ≡ pos d
    → IsOpen (output_init opened o) d file e
unfolding output_init
output_init-IsOpen (appending, created) o name d file e filename filep fd opened =
    let o' : Outputs = record o {
      gbl_fd =
          if ltb_ℤ appending (pos 0)
          then (if ltb_ℤ created (pos 0) then minus_one else created)
          else appending;
    } in
    let same : output_init (appending, created) o ≡ o' =
      ap (λ f. elim f as (λ _. Outputs) [ none ↦ o | some n ↦ o' ]) filename in
    subst (λ u. IsOpen u d file e) (sym same)
      (record {
        name = name;
        filename = filename;
        gbl_fd = output_init-fd appending created d opened;
        filep = filep;
        fd = fd;
      })
