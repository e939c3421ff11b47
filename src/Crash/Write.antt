-- ===== src/Crash/Write.antt =====
-- What the loop of `blockingWrite` sends.
use mathlib.Core.Option.{none-ne-some, some-injective}
use libmisc.Base.{
  ℕ, zero, suc, ◌+◌, ◌-◌, ◌≤◌, ◌<◌, ◌≡◌, refl, sym, ap, ◌∙◌, inl, inr, ◌⊎◌, Bool, false, Option,
  none, some, List, [], ◌∷◌, ◌++◌, ◌==◌, ==_iff, nonzero, lt→ltb, length, take, All, arith,
  Bool-cases, Option-cases,
}
use libmisc.Base.Int.{negsuc}
use libmisc.Base.Text.{Text}
use libmisc.Crash.Output.{Answers, write_loop, blocking_write, sent, output_printf, max_line_len}

-- Pieces of a text that all start at its front.
unfoldable pub prefixes : Text → List ℕ → Text
prefixes str [] = []
prefixes str (n ∷ ns) = take n str ++ prefixes str ns

unfoldable pub sum : List ℕ → ℕ
sum [] = 0
sum (n ∷ ns) = n + sum ns

-- The loop from a call on has sent the pieces: as many bytes as asked for, or until a call failed.
pub record IsSent (answers : Answers) (call : ℕ) (str : Text) (bytes : ℕ)
    (result : Option (ℕ × Text)) : Type 0 where
  pub pieces : List ℕ
  pub sends : result ≡ some (sum pieces, prefixes str pieces)
  pub positive : All (λ n. 0 < n) pieces
  pub ended :
      (bytes ≤ sum pieces)
      ⊎ ((answers (call + length pieces) ≡ none) ⊎ (answers (call + length pieces) ≡ some 0))

call_itself : (call : ℕ) → call + 0 ≡ call
call_itself call = omega arith

call_later : (call k : ℕ) → call + suc k ≡ suc call + k
call_later call k = omega arith

not_zero : (n : ℕ) → (n == 0) ≡ false → 0 < n
not_zero n h = ground arith

write_loop-IsSent :
    (answers : Answers) (fuel call : ℕ) (str : Text) (bytes : ℕ)
    → bytes ≤ fuel
    → IsSent answers call str bytes (write_loop answers fuel call str bytes)
unfolding write_loop sum prefixes
write_loop-IsSent answers fuel call str zero enough = record {
  pieces = [];
  sends = refl;
  positive = tt;
  ended = inl (omega arith);
}
write_loop-IsSent answers zero call str (suc bytes) enough = absurd (omega (arith, enough))
write_loop-IsSent answers (suc fuel) call str (suc bytes) enough =
    elim (Option-cases (answers call)) [
      | inl failed ↦
          rw (write_loop, failed)
            (record {
              pieces = [];
              sends = refl;
              positive = tt;
              ended = inr (inl (ap answers (call_itself call) ∙ failed));
            })
      | inr (n, taken) ↦ elim (Bool-cases (n == 0)) [
        | inl stop ↦
            rw (write_loop, taken, stop)
              (record {
                pieces = [];
                sends = refl;
                positive = tt;
                ended =
                    inr
                      (inr (ap answers (call_itself call) ∙ taken ∙ ap some ((==_iff n 0).0 stop)));
              })
        | inr goes ↦
            let positive_n = not_zero n goes in
            let ih = write_loop-IsSent answers fuel (suc call) str (suc bytes - n) (omega arith) in
            rw (write_loop, taken, goes, ih.sends)
              (record {
                pieces = n ∷ ih.pieces;
                sends = refl;
                positive = (positive_n, ih.positive);
                ended = elim ih.ended [
                  | inl all ↦ inl (omega (arith, all))
                  | inr (inl failed) ↦
                      inr (inl (ap answers (call_later call (length ih.pieces)) ∙ failed))
                  | inr (inr stopped) ↦
                      inr (inr (ap answers (call_later call (length ih.pieces)) ∙ stopped))
                ];
              })
      ]
    ]

-- `blockingWrite` comes to an end. It sends pieces that all start at the front of the text, until
-- they have as many bytes together as the text, or a call of `write` failed; it returns that sum.
pub blocking_write-IsSent :
    (answers : Answers) (str : Text) (bytes : ℕ)
    → IsSent answers 0 str bytes (blocking_write answers str bytes)
unfolding blocking_write
blocking_write-IsSent answers str bytes = write_loop-IsSent answers bytes 0 str bytes (omega arith)

-- A call that goes well at first sends something.
sum_positive :
    (answers : Answers) (n bytes : ℕ) (pieces : List ℕ)
    → answers 0 ≡ some n
    → 0 < n
    → 0 < bytes
    → All (λ m. 0 < m) pieces
    → (bytes ≤ sum pieces)
      ⊎ ((answers (0 + length pieces) ≡ none) ⊎ (answers (0 + length pieces) ≡ some 0))
    → 0 < sum pieces
unfolding sum
sum_positive answers n bytes [] taken positive_n some_bytes h (inl all) =
    absurd (omega (arith, all, some_bytes))
sum_positive answers n bytes [] taken positive_n some_bytes h (inr (inl failed)) =
    absurd (none-ne-some n (sym failed ∙ (ap answers (call_itself 0) ∙ taken)))
sum_positive answers n bytes [] taken positive_n some_bytes h (inr (inr stopped)) = absurd (
    omega
      (arith, positive_n, some-injective 0 n (sym stopped ∙ (ap answers (call_itself 0) ∙ taken))))
sum_positive answers n bytes (m ∷ ms) taken positive_n some_bytes h ended = omega (arith, h.0)

sent_returns : (o : Option Answers) (line : Text) → (t : ℕ) × (sent o line ≡ some t)
unfolding sent
sent_returns none line = (0, refl)
sent_returns (some answers) line =
    let h = blocking_write-IsSent answers line (length line) in
    (sum h.pieces, rw (sent, h.sends) refl)

sent_positive :
    (answers : Answers) (line : Text) (n : ℕ)
    → 0 < length line
    → answers 0 ≡ some n
    → 0 < n
    → (t : ℕ) × (sent (some answers) line ≡ some t) × (0 < t)
unfolding sent
sent_positive answers line n nonempty taken positive_n =
    let h = blocking_write-IsSent answers line (length line) in
    (
      sum h.pieces,
      rw (sent, h.sends) refl,
      sum_positive answers n (length line) h.pieces taken positive_n nonempty h.positive h.ended,
    )

-- If a line is not empty and shorter than 255 bytes, and the descriptor of the parameters takes a
-- byte of it, `outputPrintf` returns -4, whatever the other destinations do.
pub output_printf_sent :
    (answers : Answers) (file : Option Answers) (filep : Option Bool) (line : Text) (n : ℕ)
    → 0 < length line
    → length line < max_line_len - 1
    → answers 0 ≡ some n
    → 0 < n
    → output_printf (record { file = file; filep = filep; fd = some answers }) (some line)
      ≡ some (negsuc 3)
unfolding output_printf sent
output_printf_sent answers file filep line n nonempty short taken positive_n =
    let to_file = sent_returns file line in
    let to_fd = sent_positive answers line n nonempty taken positive_n in
    rw
      (
        output_printf,
        lt→ltb (length line) (max_line_len - 1) short,
        to_file.1,
        to_fd.1,
        nonzero to_fd.0 to_fd.2,
      )
      refl
