-- ===== src/Hosted/Parse.antt =====
-- `parse_cmd` of dug_os.c and that of src/shell.c on the same line.
use dug_os.Common.{
  ℕ, zero, suc, ◌≡◌, ◌≢◌, refl, false, [], ◌∷◌, ◌==◌, if◌then◌else◌, if_cases, arith,
}
use dug_os.Strings.{Bytes}
use dug_os.Console.Reading.{All}
use dug_os.Shell.{is_blank, skip_blanks, token, after_token, parse_args, parse_cmd}
use dug_os.Hosted.{skip_delims, tok, after_tok, tok_args, host_parse_cmd}

-- A byte of a line without its end.
abbrev pub IsInner : ℕ → Type 0
IsInner c = (c ≢ 0) × (c ≢ 10)

skip_same : (p : Bytes) → All IsInner p → skip_delims p ≡ skip_blanks p
unfolding skip_delims skip_blanks
skip_same [] h = refl
skip_same (c ∷ p) h = ground (arith, skip_same p h.1)

tok_same : (p : Bytes) → All IsInner p → tok p ≡ token p
unfolding tok token
tok_same [] h = refl
tok_same (c ∷ p) h = ground (arith, tok_same p h.1)

after_same : (p : Bytes) → All IsInner p → after_tok p ≡ after_token p
unfolding after_tok after_token
after_same [] h = refl
after_same (c ∷ p) h = ground (arith, after_same p h.1)

skip-All : (p : Bytes) → All IsInner p → All IsInner (skip_blanks p)
unfolding skip_blanks
skip-All [] h = tt
skip-All (c ∷ p) h =
    if_cases (All IsInner) (is_blank c) (skip_blanks p) (c ∷ p) (λ blank. skip-All p h.1)
      (λ shown. h)

after-All : (p : Bytes) → All IsInner p → All IsInner (after_token p)
unfolding after_token
after-All [] h = tt
after-All (c ∷ p) h =
    if_cases (All IsInner) (c == 0) (c ∷ p) (if is_blank c then p else after_token p) (λ end. h)
      (λ more.
        if_cases (All IsInner) (is_blank c) p (after_token p) (λ blank. h.1)
          (λ shown. after-All p h.1))

args_same : (n : ℕ) (p : Bytes) → All IsInner p → tok_args n p ≡ parse_args n p
unfolding tok_args parse_args
args_same zero p h = refl
args_same (suc n) [] h = refl
args_same (suc n) (c ∷ p) h =
    let q = skip_blanks (c ∷ p) in
    let inner = skip-All (c ∷ p) h in
    let rest = args_same n (after_token q) (after-All q inner) in
    let shown : (c == 0) ≡ false = (let z = h.0.0 in ground arith) in
    let q_same = skip_same (c ∷ p) h in
    rw (shown, q_same, tok_same q inner, after_same q inner, rest) refl

-- The kernel's `parse_cmd` splits every line into the tokens into which the prototype's splits it, if
-- the line has no NUL and no '\n', such as the lines that the kernel's `readline` leaves.
pub host_parse_cmd-parse_cmd :
    (line : Bytes) → All IsInner line → host_parse_cmd line ≡ parse_cmd line
unfolding host_parse_cmd parse_cmd
host_parse_cmd-parse_cmd line h = args_same 8 line h
