-- ===== src/Dir/Remove.antt =====
-- `dir_rmdir`: the rows behind the removed one move down, and the working directory keeps its path.
use dug_os.Common.{
  ℕ, zero, suc, ◌+◌, ◌-◌, ◌<◌, ◌≤◌, ◌≡◌, refl, sym, ap, ◌∙◌, ◌≢◌, ◌⊎◌, List, [], length, set,
  length-set, get_or-set_self, get_or-set_ne, arith, ltb, if◌then◌else◌, if_cases, inl, inr, dec_lt,
  ℕ_discrete,
}
use dug_os.Strings.{Bytes, cstr, kstrlen, kstrncpy}
use dug_os.Strings.Copy.{length-kstrncpy, kstrncpy_ends}
use dug_os.Dir.{Dirs, dir_name_len, dir_max, row, cwd}
use dug_os.Dir.Find.{IsAt}
use dug_os.Dir.Command.{shift_rows, remove_row}
use dug_os.Dir.Valid.{IsValid}

length-shift_rows : (n i : ℕ) (dirs : List Bytes) → length (shift_rows n i dirs) ≡ length dirs
unfolding shift_rows
length-shift_rows zero i dirs = refl
length-shift_rows (suc n) i dirs =
    length-shift_rows n (i + 1) _
    ∙ length-set dirs i (kstrncpy (row dirs i) (row dirs (i + 1)) dir_name_len)

-- The rows outside those that move.
shift_rows-out :
    (n i j : ℕ) (dirs : List Bytes)
    → (j < i) ⊎ (i + n ≤ j)
    → row (shift_rows n i dirs) j ≡ row dirs j
unfolding shift_rows
shift_rows-out zero i j dirs h = refl
shift_rows-out (suc n) i j dirs h =
    let moved = kstrncpy (row dirs i) (row dirs (i + 1)) dir_name_len in
    let out : (j < i + 1) ⊎ (i + 1 + n ≤ j) = (elim h [
      | inl l ↦ inl (omega arith)
      | inr g ↦ inr (omega arith)
    ]) in
    let ne : i ≢ j = (elim h [ inl l ↦ omega arith | inr g ↦ omega arith ]) in
    shift_rows-out n (i + 1) j (set dirs i moved) out ∙ get_or-set_ne dirs i j moved [] ne

-- Those that move take the text of the next.
shift_rows-in :
    (n i j : ℕ) (dirs : List Bytes)
    → i ≤ j
    → j < i + n
    → j < length dirs
    → row (shift_rows n i dirs) j ≡ kstrncpy (row dirs j) (row dirs (j + 1)) dir_name_len
unfolding shift_rows
shift_rows-in zero i j dirs h k m = absurd (omega arith)
shift_rows-in (suc n) i j dirs h k m =
    let moved = kstrncpy (row dirs i) (row dirs (i + 1)) dir_name_len in
    elim (ℕ_discrete i j) [
      | yes e ↦
          shift_rows-out n (i + 1) j (set dirs i moved) (inl (omega arith))
          ∙ rw (← e) (get_or-set_self dirs i moved [] (omega arith))
      | no ne ↦
          let here = get_or-set_ne dirs i j moved [] ne in
          let next = get_or-set_ne dirs i (j + 1) moved [] (omega arith) in
          shift_rows-in n (i + 1) j (set dirs i moved) (omega arith) (omega arith)
            (omega (arith, length-set dirs i moved))
          ∙ rw (here, next) refl
    ]

-- The row that stands at `j` once row `idx` is gone.
abbrev pub skip : ℕ → ℕ → ℕ
skip idx j = if ltb j idx then j else j + 1

module _ (idx : ℕ) (st : Dirs) (v : IsValid st) (lt : idx < st.dir_count) where
  -- Each row that is left in use has the text of the one that it stands for.
  pub removed_row :
      (j : ℕ)
      → j < st.dir_count - 1
      → (cstr (row (remove_row idx st).dirs j) ≡ cstr (row st.dirs (skip idx j)))
        × (kstrlen (row (remove_row idx st).dirs j) < dir_name_len)
  unfolding remove_row
  removed_row j h =
      let last = st.dir_count - 1 in
      let n = last - idx in
      let shifted = shift_rows n idx st.dirs in
      let kept : row (set shifted last (set (row shifted last) 0 0)) j ≡ row shifted j =
        get_or-set_ne shifted last j _ [] (omega arith) in
      let P : ℕ → Type 0 = λ (k : ℕ).
        (cstr (row (remove_row idx st).dirs j) ≡ cstr (row st.dirs k))
        × (kstrlen (row (remove_row idx st).dirs j) < dir_name_len) in
      if_cases P (ltb j idx) _ _
        (λ below.
          let same : row shifted j ≡ row st.dirs j =
            shift_rows-out n idx j st.dirs (inl (ground arith)) in
          rw (kept, same) (refl, v.ends j (omega arith)))
        (λ above.
          let same =
            shift_rows-in n idx j st.dirs (ground arith) (ground arith)
              (omega (arith, v.n_rows, v.fits)) in
          rw (kept, same)
            (kstrncpy_ends (row st.dirs j) (row st.dirs (j + 1)) dir_name_len
              (v.ends (j + 1) (omega arith)) (v.sizes j (omega (arith, v.fits)))))

  removed_sizes : (j : ℕ) → j < dir_max → length (row (remove_row idx st).dirs j) ≡ dir_name_len
  unfolding remove_row
  removed_sizes j h =
      let last = st.dir_count - 1 in
      let n = last - idx in
      let shifted = shift_rows n idx st.dirs in
      let size : length (row shifted j) ≡ dir_name_len = elim (dec_lt j idx) [
        | yes below ↦ let e = shift_rows-out n idx j st.dirs (inl below) in rw e (v.sizes j h)
        | no above ↦ elim (dec_lt j last) [
          | yes moved ↦
              let e =
                shift_rows-in n idx j st.dirs (omega arith) (omega arith)
                  (omega (arith, v.n_rows)) in
              rw e
                (length-kstrncpy (row st.dirs j) (row st.dirs (j + 1)) dir_name_len ∙ v.sizes j h)
          | no out ↦
              let e = shift_rows-out n idx j st.dirs (inr (omega arith)) in rw e (v.sizes j h)
        ]
      ] in
      elim (ℕ_discrete j last) [
        | yes e ↦
            let here : row (set shifted last (set (row shifted last) 0 0)) j
                ≡ set (row shifted last) 0 0 =
              rw e (
                get_or-set_self shifted last _ []
                  (omega (arith, length-shift_rows n idx st.dirs, v.n_rows))) in
            rw here (length-set (row shifted last) 0 0 ∙ rw e at size)
        | no ne ↦
            let kept : row (set shifted last (set (row shifted last) 0 0)) j ≡ row shifted j =
              get_or-set_ne shifted last j _ [] (λ e. ne (sym e)) in
            rw kept size
      ]

  -- `skip` keeps rows apart.
  skip-inj : (i j : ℕ) → skip idx i ≡ skip idx j → i ≡ j
  skip-inj i j e = ground arith

  pub removed-IsValid : idx ≢ 0 → idx ≢ st.cwd_idx → IsValid (remove_row idx st)
  unfolding remove_row
  removed-IsValid not_root not_here = record {
    n_rows =
        length-set (shift_rows (st.dir_count - 1 - idx) idx st.dirs) (st.dir_count - 1) _
        ∙ length-shift_rows (st.dir_count - 1 - idx) idx st.dirs
        ∙ v.n_rows;
    sizes = removed_sizes;
    fits = omega (arith, v.fits);
    here = (let h = v.here in ground arith);
    ends = λ j h. (removed_row j h).1;
    root =
        (removed_row 0 (let h = v.here in omega arith)).0
        ∙ (let first : skip idx 0 ≡ 0 = ground arith in rw first v.root);
    unique = λ i j hi hj e. skip-inj i j (
        v.unique (skip idx i) (skip idx j) (ground arith) (ground arith)
          (sym (removed_row i hi).0 ∙ e ∙ (removed_row j hj).0));
  }

  -- The working directory has the same path.
  pub removed_cwd : idx ≢ st.cwd_idx → cstr (cwd (remove_row idx st)) ≡ cstr (cwd st)
  unfolding remove_row
  removed_cwd not_here =
      let h = v.here in
      let k = (remove_row idx st).cwd_idx in
      let there : skip idx k ≡ st.cwd_idx = ground arith in
      (removed_row k (ground arith)).0 ∙ ap (λ i. cstr (row st.dirs i)) there

  -- A path is left exactly if it was there and is not the removed one.
  pub removed_paths :
      (path : Bytes) (j : ℕ)
      → IsAt path (remove_row idx st) j
      → IsAt path st (skip idx j) × (cstr path ≢ cstr (row st.dirs idx))
  unfolding remove_row
  removed_paths path j at =
      let before : cstr (row st.dirs (skip idx j)) ≡ cstr path =
        sym (removed_row j at.0).0 ∙ at.1 in
      let lt' : skip idx j < st.dir_count = ground (arith, at.0) in
      (
        (lt', before),
        λ e. absurd (let same = v.unique (skip idx j) idx lt' lt (before ∙ e) in ground arith),
      )

  pub kept_paths :
      (path : Bytes) (i : ℕ)
      → IsAt path st i
      → cstr path ≢ cstr (row st.dirs idx)
      → IsAt path (remove_row idx st) (if ltb i idx then i else i - 1)
  unfolding remove_row
  kept_paths path i at ne =
      let other : i ≢ idx = λ e. absurd (ne (sym at.1 ∙ ap (λ k. cstr (row st.dirs k)) e)) in
      let j = (if ltb i idx then i else i - 1) in
      let lt' : j < st.dir_count - 1 = ground (arith, at.0) in
      let back : skip idx j ≡ i = ground arith in
      (lt', (removed_row j lt').0 ∙ ap (λ k. cstr (row st.dirs k)) back ∙ at.1)
