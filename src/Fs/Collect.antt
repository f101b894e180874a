-- ===== src/Fs/Collect.antt =====
-- The loop that collects lines: what it does to the buffer.
use dug_os.Common.{
  ℕ, zero, suc, ◌+◌, ◌*◌, ◌≤◌, List, [], ◌∷◌, ◌++◌, length, take, length-take, length-append, arith,
  leb, if_cases,
}
use dug_os.Common.Int.{is_zero}
use dug_os.Strings.{Bytes, kstrlen, kstrcmp}
use dug_os.Console.{write, newline, readline}
use dug_os.Console.Ensures.{Ensures, Ensures-any, Ensures-say, Ensures-bind}
use dug_os.Fs.{n_blocks, block_size}
use dug_os.Fs.Input.{Buffer, line_len, dot, trim_line, append_line, collect_loop, collect}

-- The bytes up to `total` are there, and fit `tmp`.
pub record Fits (b : Buffer) : Type 0 where
  pub there : b.total ≤ length b.tmp
  pub small : b.total ≤ n_blocks * block_size

kstrlen-le-length : (s : Bytes) → kstrlen s ≤ length s
unfolding kstrlen
kstrlen-le-length [] = omega arith
kstrlen-le-length (c ∷ s) = ground (arith, kstrlen-le-length s)

append_line-Fits : (b : Buffer) (line : Bytes) → Fits b → Fits (append_line b line)
unfolding append_line
append_line-Fits b line h =
    if_cases Fits (leb (b.total + kstrlen line + 1) (n_blocks * block_size)) _ _
      (λ room. record { there = there; small = ground arith }) (λ no_room. h)
  where
    there :
        b.total + kstrlen line + 1
        ≤ length (take b.total b.tmp ++ take (kstrlen line) line ++ newline ∷ [])
    there = omega (
      arith,
      length-append (take b.total b.tmp ++ take (kstrlen line) line) (newline ∷ []),
      length-append (take b.total b.tmp) (take (kstrlen line) line),
      length-take b.total b.tmp,
      length-take (kstrlen line) line,
      kstrlen-le-length line,
      h.there,
    )

collect_loop-Fits :
    (f : ℕ) (b : Buffer) (keys : List ℕ) → Fits b → Ensures Fits (collect_loop f b keys)
unfolding collect_loop
collect_loop-Fits zero b keys h = tt
collect_loop-Fits (suc f) b keys h = Ensures-say Fits (write "  > " ∷ []) _ (
    Ensures-bind (λ _. Unit {0}) Fits (readline line_len keys) _
      (Ensures-any (readline line_len keys))
      (λ typed rest u.
        if_cases (Ensures Fits) (is_zero (kstrcmp (trim_line typed) dot)) _ _ (λ done. h)
          (λ more.
            collect_loop-Fits f (append_line b (trim_line typed)) rest
              (append_line-Fits b (trim_line typed) h))))

-- However the typing goes, what is collected fits the buffer.
pub collect-Fits : (b : Buffer) (keys : List ℕ) → Fits b → Ensures Fits (collect b keys)
unfolding collect
collect-Fits b keys h = collect_loop-Fits (length keys + 1) b keys h
