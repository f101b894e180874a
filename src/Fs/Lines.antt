-- ===== src/Fs/Lines.antt =====
-- What the loop that collects lines makes of the lines that are typed.
use mathlib.Core.List.{append_assoc, append-nil}
use dug_os.Common.{
  ℕ, zero, suc, ◌+◌, ◌*◌, ◌<◌, ◌≤◌, ◌≡◌, refl, sym, ap, ◌∙◌, ◌≢◌, Bool, true, false, List, [], ◌∷◌,
  ◌++◌, Option, none, some, length, take, length-append, take_all, arith, leb, if◌then◌else◌,
  if_cases,
}
use dug_os.Common.Int.{is_zero}
use dug_os.Strings.{Bytes, cstr, kstrlen, kstrcmp}
use dug_os.Strings.Cstr.{kstrlen-eq-length}
use dug_os.Console.{Out, Reply, say, ◌>>=◌, write, newline, edit, readline}
use dug_os.Console.Reading.{All, value, typed, readline_lem}
use dug_os.Fs.{n_blocks, block_size}
use dug_os.Fs.Input.{Buffer, line_len, dot, trim_line, append_line, collect_loop, collect}

-- The line that some keys leave, as the loop sees it.
abbrev pub line_of : List ℕ → Bytes
line_of keys = trim_line (typed (edit line_len) [] keys)

abbrev pub is_dot : List ℕ → Bool
is_dot keys = is_zero (kstrcmp (line_of keys) dot)

-- Keys without '\n' that do not leave a single ".".
abbrev pub AreLines : List (List ℕ) → Type 0
AreLines [] = Unit
AreLines (l ∷ ls) = All (λ c. c ≢ newline) l × (is_dot l ≡ false) × AreLines ls

-- The keys of some lines, each with its '\n', and what is typed behind them.
abbrev pub type_lines : List (List ℕ) → List ℕ → List ℕ
type_lines [] rest = rest
type_lines (l ∷ ls) rest = l ++ newline ∷ type_lines ls rest

abbrev pub append_lines : Buffer → List (List ℕ) → Buffer
append_lines b [] = b
append_lines b (l ∷ ls) = append_lines (append_line b (line_of l)) ls

value-say : {A : Type 0} (o : List Out) (m : Option (Reply A)) → value (say o m) ≡ value m
value-say o none = refl
value-say o (some r) = refl

-- A call that goes on from a reading.
pub value-bind :
    {A B : Type 0} (m : Option (Reply A)) (f : A → List ℕ → Option (Reply B)) (a : A)
    (rest : List ℕ)
    → value m ≡ some (a, rest)
    → value (m >>= f) ≡ value (f a rest)
value-bind none f a rest e = absurd (cc)
value-bind {B = B} (some r) f a rest e =
    let got : r.result ≡ a = cc in
    let left : r.keys ≡ rest = cc in then_say (f r.result r.keys) ∙ rw (got, left) refl
  where
    then_say : (o : Option (Reply B)) → value (some r >>= λ _ _. o) ≡ value o
    then_say none = refl
    then_say (some q) = refl

-- One round of the loop.
round :
    (f : ℕ) (b : Buffer) (l rest : List ℕ)
    → All (λ c. c ≢ newline) l
    → value (collect_loop (suc f) b (l ++ newline ∷ rest)) ≡ (
        if is_dot l
        then some (b, rest)
        else value (collect_loop f (append_line b (line_of l)) rest))
unfolding collect_loop
round f b l rest h =
    value-say (write "  > " ∷ []) _
    ∙ value-bind (readline line_len (l ++ newline ∷ rest)) _ (typed (edit line_len) [] l) rest
        (readline_lem line_len l rest h).0
    ∙ if_cases (λ (m : Option (Reply Buffer)). value m ≡ after) (is_dot l) _ _
        (λ done. rw done refl) (λ more. rw more refl)
  where
    after : Option (Buffer × List ℕ)
    after =
        if is_dot l then some (b, rest) else value (collect_loop f (append_line b (line_of l)) rest)

rounds :
    (f : ℕ) (b : Buffer) (ls : List (List ℕ)) (last rest : List ℕ)
    → AreLines ls
    → All (λ c. c ≢ newline) last
    → is_dot last ≡ true
    → length (type_lines ls (last ++ newline ∷ rest)) < f
    → value (collect_loop f b (type_lines ls (last ++ newline ∷ rest)))
      ≡ some (append_lines b ls, rest)
rounds zero b ls last rest h h' dotted fuel = absurd (omega arith)
rounds (suc f) b [] last rest h h' dotted fuel = round f b last rest h' ∙ rw dotted refl
rounds (suc f) b (l ∷ ls) last rest h h' dotted fuel =
    round f b l (type_lines ls (last ++ newline ∷ rest)) h.0
    ∙ rw h.1 (
        rounds f (append_line b (line_of l)) ls last rest h.2 h' dotted
          (omega (arith, length-append l (newline ∷ type_lines ls (last ++ newline ∷ rest)))))

-- The loop that collects takes the typed lines up to the first that is a single ".", returns the
-- buffer with these lines appended in order, and leaves the keys behind.
pub collect_lem :
    (b : Buffer) (ls : List (List ℕ)) (last rest : List ℕ)
    → AreLines ls
    → All (λ c. c ≢ newline) last
    → is_dot last ≡ true
    → value (collect b (type_lines ls (last ++ newline ∷ rest))) ≡ some (append_lines b ls, rest)
unfolding collect
collect_lem b ls last rest h h' dotted =
    rounds (length (type_lines ls (last ++ newline ∷ rest)) + 1) b ls last rest h h' dotted
      (omega arith)

-- The bytes of the lines.
abbrev pub text_of : List (List ℕ) → Bytes
text_of [] = []
text_of (l ∷ ls) = cstr (line_of l) ++ newline ∷ text_of ls

take-kstrlen : (s : Bytes) → take (kstrlen s) s ≡ cstr s
unfolding kstrlen cstr
take-kstrlen [] = refl
take-kstrlen (c ∷ s) = ground (arith, take-kstrlen s)

-- A buffer whose `total` counts its bytes, and room for more.
abbrev pub IsFull : Buffer → Type 0
IsFull b = b.total ≡ length b.tmp

append_line-text :
    (b : Buffer) (line : Bytes)
    → b.total ≡ length b.tmp
    → b.total + length (cstr line) + 1 ≤ n_blocks * block_size
    → (append_line b line).tmp ≡ b.tmp ++ cstr line ++ newline ∷ []
unfolding append_line
append_line-text b line full room =
    if_cases (λ (q : Buffer). q.tmp ≡ b.tmp ++ cstr line ++ newline ∷ [])
      (leb (b.total + kstrlen line + 1) (n_blocks * block_size)) _ _
      (λ fits.
        let all : take b.total b.tmp ≡ b.tmp = take_all b.total b.tmp (omega (arith, full)) in
        let text = take-kstrlen line in rw (all, text) refl)
      (λ too_long. absurd (ground (arith, kstrlen-eq-length line)))

append_line-total :
    (b : Buffer) (line : Bytes)
    → b.total + length (cstr line) + 1 ≤ n_blocks * block_size
    → (append_line b line).total ≡ b.total + length (cstr line) + 1
unfolding append_line
append_line-total b line room = ground (arith, kstrlen-eq-length line)

-- If the bytes that are there and those of the lines fit `tmp`, appending the lines appends their bytes,
-- and `total` counts all of them.
pub append_lines-text_of :
    (b : Buffer) (ls : List (List ℕ))
    → b.total ≡ length b.tmp
    → b.total + length (text_of ls) ≤ n_blocks * block_size
    → ((append_lines b ls).tmp ≡ b.tmp ++ text_of ls)
      × ((append_lines b ls).total ≡ length (b.tmp ++ text_of ls))
append_lines-text_of b [] full room =
    let nothing = append-nil b.tmp in (sym nothing, omega (arith, full, ap length nothing))
append_lines-text_of b (l ∷ ls) full room =
    let line = cstr (line_of l) in
    let size = length-append line (newline ∷ text_of ls) in
    let t = append_line-text b (line_of l) full (omega (arith, size, room)) in
    let n = append_line-total b (line_of l) (omega (arith, size, room)) in
    let b' = append_line b (line_of l) in
    let n' : b'.total ≡ length b'.tmp = omega (
      arith,
      n,
      full,
      ap length t,
      length-append (b.tmp ++ line) (newline ∷ []),
      length-append b.tmp line,
    ) in
    let rest = append_lines-text_of b' ls n' (omega (arith, n, size, room)) in
    let joined : b'.tmp ++ text_of ls ≡ b.tmp ++ text_of (l ∷ ls) = rw t (
      append_assoc (b.tmp ++ line) (newline ∷ []) (text_of ls)
      ∙ append_assoc b.tmp line (newline ∷ text_of ls)) in
    (rest.0 ∙ joined, rest.1 ∙ ap length joined)
