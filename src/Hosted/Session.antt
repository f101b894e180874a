-- ===== src/Hosted/Session.antt =====
-- How much of the input the commands of dug_os.c leave: never more than there was.
use mathlib.Core.Path.{subst}
use dug_os.Common.{
  ℕ, zero, suc, ◌<◌, ◌≡◌, refl, ap, ◌⊎◌, inl, inr, false, not, List, [], Option, none, some, ◌++◌,
  Option-cases, if_cases, length, arith,
}
use dug_os.Hosted.{Print, fgets}
use dug_os.Hosted.Files.{Host, World}
use dug_os.Hosted.Command.{host_round, refresh_cwd, host_line, host_prompt, prints_first, host_run}
use dug_os.Hosted.Input.{Reads, fgets-Reads, read_less, host_line-Shorter}

module _ {H : Type 0} (host : Host H) where
  -- A round takes a byte at least, or finds the end of the input.
  host_round-cases :
      (w : World H)
      → ((host_round host w ≡ none) × (w.input ≡ []))
        ⊎ ((r : World H × List Print) × (host_round host w ≡ some r)
            × (length r.0.input < length w.input))
  unfolding host_round
  host_round-cases w = elim (Option-cases (fgets 256 w.input)) [
    | inl end ↦ inl (
        rw (end, host_round)
          (refl, subst (Reads w.input) end (fgets-Reads 256 w.input (omega arith))))
    | inr line ↦
        let less = read_less 256 w.input line.0 (omega arith) line.1 in
        let w' : World H = record w { input = line.0.1 } in
        let further = host_line-Shorter host line.0.0 w' in
        inr
          (host_line host line.0.0 w', (rw (line.1, host_round) refl), omega (arith, less, further))
  ]

  input-refresh_cwd : (w : World H) → (refresh_cwd host w).input ≡ w.input
  unfolding refresh_cwd
  input-refresh_cwd w = refl

  -- Halted, or at the end of the input.
  abbrev pub IsOver : World H → Type 0
  IsOver w = (w.os_running ≡ false) ⊎ (w.input ≡ [])

  -- The loop has ended, and is over there.
  abbrev pub Ends : Option (World H × List Print) → Type 0
  Ends none = ⊥
  Ends (some r) = IsOver r.0

  Ends-prints_first :
      (out : List Print) (m : Option (World H × List Print))
      → Ends m
      → Ends (prints_first host out m)
  Ends-prints_first out none e = e
  Ends-prints_first out (some r) e = e

  -- The loop of the prototype's `shell_run` ends for every input and host, at `shutdown` or at the end
  -- of the input, and before its fuel does: one round more than the input has bytes is enough, since
  -- each round takes a byte at least.
  pub host_run-Ends : (n : ℕ) (w : World H) → length w.input < n → Ends (host_run host n w)
  unfolding host_run
  host_run-Ends zero w h = absurd (omega arith)
  host_run-Ends (suc n) w h =
      let here = refresh_cwd host w in
      let same : here.input ≡ w.input = input-refresh_cwd w in
      if_cases Ends (not w.os_running) _ _ (λ off. inl (ground arith))
        (λ on. elim (host_round-cases here) [
          | inl end ↦ rw (end.0) (inr end.1)
          | inr r ↦ rw (r.1) (
              Ends-prints_first (host_prompt host here ++ r.0.1) (host_run host n r.0.0)
                (host_run-Ends n r.0.0 (omega (arith, r.2, ap length same))))
        ])
