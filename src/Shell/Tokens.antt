-- ===== src/Shell/Tokens.antt =====
-- `parse_cmd` of src/shell.c on lines made of words.
use mathlib.Core.List.{append_assoc}
use dug_os.Common.{
  ℕ, zero, suc, ◌≡◌, refl, ap, ◌∙◌, false, ◌||◌, List, [], ◌∷◌, ◌++◌, take, arith, ◌==◌,
}
use dug_os.Strings.{Bytes}
use dug_os.Shell.{is_blank, skip_blanks, token, after_token, parse_args, parse_cmd, max_args}

-- No byte is a NUL or a blank.
abbrev pub IsPlain : Bytes → Type 0
IsPlain [] = Unit
IsPlain (c ∷ w) = ((c == 0 || is_blank c) ≡ false) × IsPlain w

-- A word has a byte, and all of them are plain.
abbrev pub IsWord : Bytes → Type 0
IsWord [] = ⊥
IsWord (c ∷ w) = IsPlain (c ∷ w)

abbrev pub AreWords : List Bytes → Type 0
AreWords [] = Unit
AreWords (w ∷ ws) = IsWord w × AreWords ws

-- Words with a blank between every two.
abbrev pub line_of : List Bytes → Bytes
line_of [] = []
line_of (w ∷ []) = w
line_of (w ∷ v ∷ ws) = w ++ b' ' ∷ line_of (v ∷ ws)

token-append : (w p : Bytes) → IsPlain w → token (w ++ b' ' ∷ p) ≡ w
unfolding token
token-append [] p h = refl
token-append (c ∷ w) p h = ground (arith, h.0, token-append w p h.1)

after_token-append : (w p : Bytes) → IsPlain w → after_token (w ++ b' ' ∷ p) ≡ p
unfolding after_token
after_token-append [] p h = refl
after_token-append (c ∷ w) p h = ground (arith, h.0, after_token-append w p h.1)

skip_blanks-append :
    (c : ℕ) (p : Bytes) → (c == 0 || is_blank c) ≡ false → skip_blanks (c ∷ p) ≡ c ∷ p
unfolding skip_blanks
skip_blanks-append c p h = ground arith

token-last : (w p : Bytes) → IsPlain w → token (w ++ 0 ∷ p) ≡ w
unfolding token
token-last [] p h = refl
token-last (c ∷ w) p h = ground (arith, h.0, token-last w p h.1)

after_token-last : (w p : Bytes) → IsPlain w → after_token (w ++ 0 ∷ p) ≡ 0 ∷ p
unfolding after_token
after_token-last [] p h = refl
after_token-last (c ∷ w) p h = ground (arith, h.0, after_token-last w p h.1)

-- A round of the loop at a word, when what is behind the word is parsed to `more`.
parse_word :
    (n c : ℕ) (w p others : Bytes) (more : List Bytes)
    → IsPlain (c ∷ w)
    → token (c ∷ p) ≡ c ∷ w
    → after_token (c ∷ p) ≡ others
    → parse_args n others ≡ more
    → parse_args (suc n) (c ∷ p) ≡ (c ∷ w) ∷ more
unfolding parse_args
parse_word n c w p others more plain word behind rest =
    let skipped = skip_blanks-append c p plain.0 in
    let shown : (c == 0) ≡ false = (let q = plain.0 in ground arith) in
    rw (skipped, shown, word, behind, rest) refl

parse_args-line_of :
    (n : ℕ) (behind : Bytes) (ws : List Bytes)
    → AreWords ws
    → parse_args n (line_of ws ++ 0 ∷ behind) ≡ take n ws
unfolding parse_args
parse_args-line_of zero behind ws h = refl
parse_args-line_of (suc n) behind [] h = refl
parse_args-line_of (suc n) behind ([] ∷ ws) h = absurd h.0
parse_args-line_of (suc n) behind ((c ∷ w) ∷ []) h =
    parse_word n c w (w ++ 0 ∷ behind) (0 ∷ behind) (take n []) h.0 (token-last (c ∷ w) behind h.0)
      (after_token-last (c ∷ w) behind h.0) (parse_args-line_of n behind [] tt)
parse_args-line_of (suc n) behind ((c ∷ w) ∷ v ∷ ws) h =
    let others = line_of (v ∷ ws) ++ 0 ∷ behind in
    let whole : (c ∷ w ++ b' ' ∷ line_of (v ∷ ws)) ++ 0 ∷ behind ≡ c ∷ (w ++ b' ' ∷ others) =
      append_assoc (c ∷ w) (b' ' ∷ line_of (v ∷ ws)) (0 ∷ behind) in
    ap (parse_args (suc n)) whole
    ∙ parse_word n c w (w ++ b' ' ∷ others) others _ h.0 (token-append (c ∷ w) others h.0)
        (after_token-append (c ∷ w) others h.0) (parse_args-line_of n behind (v ∷ ws) h.1)

-- `parse_cmd` of words that are separated by single blanks, with the NUL at the end of the last one and any
-- bytes behind the NUL, gives these words, and no more than eight of them.
pub parse_cmd-line_of :
    (behind : Bytes) (ws : List Bytes)
    → AreWords ws
    → parse_cmd (line_of ws ++ 0 ∷ behind) ≡ take max_args ws
unfolding parse_cmd
parse_cmd-line_of behind ws h = parse_args-line_of max_args behind ws h
