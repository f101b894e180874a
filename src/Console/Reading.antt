-- ===== src/Console/Reading.antt =====
-- `readline`: which keys it takes, that it returns, and that the line fits its buffer.
use dug_os.Common.{
  ℕ, ◌-◌, ◌≤◌, ◌≡◌, refl, ◌≢◌, List, [], ◌∷◌, ◌++◌, Option, none, some, length, length-take,
  length-append, arith,
}
use dug_os.Console.{Out, Reply, newline, edit, readline_by, readline}
use dug_os.Strings.{Bytes}

abbrev pub All : (ℕ → Type 0) → List ℕ → Type 0
All P [] = Unit
All P (x ∷ xs) = P x × All P xs

-- The result of a call, without its output and the keys that are left.
abbrev pub value : {A : Type 0} → Option (Reply A) → Option (A × List ℕ)
value none = none
value (some r) = some (r.result, r.keys)

module _ (body : Bytes → ℕ → Bytes × List Out) where
  -- the line after some keys
  abbrev pub typed : Bytes → List ℕ → Bytes
  typed line [] = line
  typed line (c ∷ keys) = typed (body line c).0 keys

  pub readline_by_lem :
      (line : Bytes) (keys rest : List ℕ)
      → All (λ c. c ≢ newline) keys
      → value (readline_by body line (keys ++ newline ∷ rest)) ≡ some (typed line keys, rest)
  unfolding readline_by
  readline_by_lem line [] rest h = refl
  readline_by_lem line (c ∷ keys) rest h =
      ground (arith, readline_by_lem (body line c).0 keys rest h.1)

length-edit :
    (len : ℕ) (line : Bytes) (c : ℕ) → length line ≤ len - 1 → length (edit len line c).0 ≤ len - 1
unfolding edit
length-edit len line c h =
    ground (arith, length-take (length line - 1) line, length-append line (c ∷ []))

length-typed :
    (len : ℕ) (line : Bytes) (keys : List ℕ)
    → length line ≤ len - 1
    → length (typed (edit len) line keys) ≤ len - 1
length-typed len line [] h = h
length-typed len line (c ∷ keys) h =
    length-typed len (edit len line c).0 keys (length-edit len line c h)

-- `readline` takes the keys up to the first '\n' and no more, returns what they leave of the line,
-- and the line and its NUL fit the buffer of `len` bytes.
pub readline_lem :
    (len : ℕ) (keys rest : List ℕ)
    → All (λ c. c ≢ newline) keys
    → (value (readline len (keys ++ newline ∷ rest)) ≡ some (typed (edit len) [] keys, rest))
      × (length (typed (edit len) [] keys) ≤ len - 1)
unfolding readline
readline_lem len keys rest h =
    (readline_by_lem (edit len) [] keys rest h, length-typed len [] keys (omega arith))
