-- ===== src/Dir/Find.antt =====
-- `find_dir`: the row with a path, or the sentinel exactly when no row in use has it.
use dug_os.Common.{
  ℕ, zero, suc, ◌+◌, ◌<◌, ◌≤◌, ◌≡◌, refl, ◌≢◌, ◌⊎◌, List, [], ◌∷◌, length, take, length-take, arith,
  Bool-cases, inl, inr,
}
use dug_os.Common.Int.{is_zero}
use dug_os.Strings.{Bytes, cstr, kstrcmp}
use dug_os.Strings.Cstr.{kstrcmp_iff}
use dug_os.Dir.{Dirs, dir_max, row, find_dir, find_dir_from}

data FindFrom (path : Bytes) (rows : List Bytes) (i r : ℕ) : Type 0 where
  missing :
      r ≡ dir_max
      → ((j : ℕ) → j < length rows → cstr (row rows j) ≢ cstr path)
      → FindFrom path rows i r
  at :
      (d : ℕ) → r ≡ i + d → d < length rows → cstr (row rows d) ≡ cstr path → FindFrom path rows i r

find_dir_from_lem :
    (path : Bytes) (rows : List Bytes) (i : ℕ) → FindFrom path rows i (find_dir_from path rows i)
unfolding find_dir_from
find_dir_from_lem path [] i = missing refl (λ j h. absurd (omega arith))
find_dir_from_lem path (r ∷ rows) i = elim (Bool-cases (is_zero (kstrcmp r path))) [
  | inl same ↦ rw same (at zero (omega arith) (omega arith) ((kstrcmp_iff r path).0 same))
  | inr other ↦ rw other (
      cons (find_dir_from path rows (i + 1)) (find_dir_from_lem path rows (i + 1))
        (λ e. absurd (let same = (kstrcmp_iff r path).1 e in cc)))
]
  where
    cons :
        (q : ℕ) → FindFrom path rows (i + 1) q → cstr r ≢ cstr path → FindFrom path (r ∷ rows) i q
    cons q (at d p lt same) ne = at (suc d) (omega arith) (omega arith) same
    cons q (missing p none_there) ne = missing p below
      where
        below : (j : ℕ) → j < length (r ∷ rows) → cstr (row (r ∷ rows) j) ≢ cstr path
        below zero h = ne
        below (suc j) h = none_there j (omega arith)

pub row-take : (n j : ℕ) (rows : List Bytes) → j < n → row (take n rows) j ≡ row rows j
row-take zero j rows h = absurd (omega arith)
row-take (suc n) j [] h = refl
row-take (suc n) zero (r ∷ rows) h = refl
row-take (suc n) (suc j) (r ∷ rows) h = row-take n j rows (omega arith)

-- No row in use has the path.
abbrev pub IsMissing : Bytes → Dirs → Type 0
IsMissing path st = (j : ℕ) → j < st.dir_count → cstr (row st.dirs j) ≢ cstr path

-- Row `i` is in use and has the path.
abbrev pub IsAt : Bytes → Dirs → ℕ → Type 0
IsAt path st i = (i < st.dir_count) × (cstr (row st.dirs i) ≡ cstr path)

-- `find_dir` returns a row in use that has the path, or the sentinel when no row in use has it, if the
-- count is within the table.
pub find_dir_lem :
    (path : Bytes) (st : Dirs)
    → st.dir_count ≤ length st.dirs
    → ((find_dir path st ≡ dir_max) × IsMissing path st) ⊎ IsAt path st (find_dir path st)
unfolding find_dir
find_dir_lem path st fits =
    cases (find_dir_from path (take st.dir_count st.dirs) 0)
      (find_dir_from_lem path (take st.dir_count st.dirs) 0)
  where
    cases :
        (r : ℕ)
        → FindFrom path (take st.dir_count st.dirs) 0 r
        → ((r ≡ dir_max) × IsMissing path st) ⊎ IsAt path st r
    cases r (missing p none_there) = inl (
      p,
      λ j h.
          let same = row-take st.dir_count j st.dirs h in
          rw (← same) (none_there j (omega (arith, length-take st.dir_count st.dirs))),
    )
    cases r (at d p lt same) =
        let e : r ≡ d = omega arith in
        let lt' : d < st.dir_count = omega (arith, length-take st.dir_count st.dirs) in
        let here = row-take st.dir_count d st.dirs lt' in inr (rw e (lt', rw here at same))
