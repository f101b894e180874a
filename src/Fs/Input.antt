-- ===== src/Fs/Input.antt =====
-- The interactive input of `fs_write` and `fs_edit` in src/fs.c: `trim_line`, and the loop that
-- collects lines up to a single ".".
use dug_os.Common.{
  ℕ, zero, suc, ◌+◌, ◌*◌, Bool, ◌||◌, List, [], ◌∷◌, ◌++◌, Option, none, some, leb, ◌==◌,
  if◌then◌else◌, get_or, set, take, length,
}
use dug_os.Common.Int.{is_zero}
use dug_os.Strings.{Bytes, kstrlen, kstrcmp}
use dug_os.Console.{Reply, answer, say, ◌>>=◌, write, newline, tab, readline}
use dug_os.Fs.{n_blocks, block_size}

abbrev pub line_len : ℕ
line_len = 256

abbrev pub is_space : ℕ → Bool
is_space c = c == b' ' || c == tab || c == 13 || c == newline

-- `while (i >= 0 && is_space(s[i])) s[i--] = '\0';` from `i = n - 1` down.
unfoldable pub trim_loop : ℕ → Bytes → Bytes
trim_loop zero s = s
trim_loop (suc i) s =
    let rest = trim_loop i (set s i 0) in if is_space (get_or s i 0) then rest else s

unfoldable pub trim_line : Bytes → Bytes
unfolding trim_loop
trim_line s = trim_loop (kstrlen s) s

-- The static buffer `tmp`: the bytes that the call has put there, and `total`.
pub record Buffer : Type 0 where
  pub tmp : Bytes
  pub total : ℕ

abbrev pub dot : Bytes
dot = b'.' ∷ []

-- A line and '\n' go behind the first `total` bytes, if `sizeof(tmp)` has room for them.
unfoldable pub append_line : Buffer → Bytes → Buffer
append_line b line =
    let n = kstrlen line in
    if leb (b.total + n + 1) (n_blocks * block_size)
    then record { tmp = take b.total b.tmp ++ take n line ++ newline ∷ []; total = b.total + n + 1 }
    else b

-- The loop, with fuel for its lines. Every line takes a key or more.
unfoldable pub collect_loop : ℕ → Buffer → List ℕ → Option (Reply Buffer)
unfolding append_line
collect_loop zero b keys = none
collect_loop (suc f) b keys = say (write "  > " ∷ []) (
    readline line_len keys >>= λ typed rest_keys.
    let line = trim_line typed in
    let more = collect_loop f (append_line b line) rest_keys in
    if is_zero (kstrcmp line dot) then some (answer b rest_keys []) else more)

unfoldable pub collect : Buffer → List ℕ → Option (Reply Buffer)
unfolding collect_loop
collect b keys = collect_loop (length keys + 1) b keys
