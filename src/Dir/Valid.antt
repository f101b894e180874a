-- ===== src/Dir/Valid.antt =====
-- The invariant of the directory table, and what keeps it.
use dug_os.Common.{
  ℕ, zero, suc, ◌+◌, ◌<◌, ◌≤◌, ◌≡◌, refl, sym, ap, ◌∙◌, ◌≢◌, ◌⊎◌, List, [], length, set, length-set,
  replicate, ltb, ◌==◌, get_or-set_self, get_or-set_ne, arith, if_cases, inl, inr, ℕ_discrete,
}
use dug_os.Strings.{Bytes, cstr, kstrlen, kstrncpy}
use dug_os.Strings.Copy.{length-kstrncpy, kstrncpy_ends}
use dug_os.Console.{Out}
use dug_os.Dir.{Dirs, dir_name_len, dir_max, root_path, row, find_dir, dir_init, bss_dirs}
use dug_os.Dir.Find.{find_dir_lem, IsMissing}
use dug_os.Dir.Command.{mkdir_path, cd_to}

-- Every row in use ends in its array, the first is "/", no path stands twice, and the working directory
-- is in use.
pub record IsValid (st : Dirs) : Type 0 where
  pub n_rows : length st.dirs ≡ dir_max
  pub sizes : (i : ℕ) → i < dir_max → length (row st.dirs i) ≡ dir_name_len
  pub fits : st.dir_count ≤ dir_max
  pub here : st.cwd_idx < st.dir_count
  pub ends : (i : ℕ) → i < st.dir_count → kstrlen (row st.dirs i) < dir_name_len
  pub root : cstr (row st.dirs 0) ≡ cstr root_path
  pub unique :
      (i j : ℕ)
      → i < st.dir_count
      → j < st.dir_count
      → cstr (row st.dirs i) ≡ cstr (row st.dirs j)
      → i ≡ j

-- `dir_cd` moves to a row that is in use, and leaves the table.
pub cd_to-IsValid : (newpath : Bytes) (st : Dirs) → IsValid st → IsValid (cd_to newpath st).0
unfolding cd_to
cd_to-IsValid newpath st v =
    if_cases (λ (r : Dirs × List Out). IsValid r.0) (find_dir newpath st == dir_max) _ _
      (λ missing. v)
      (λ found. elim (find_dir_lem newpath st (omega (arith, v.n_rows, v.fits))) [
        | inl missing ↦ absurd (ground (arith, missing.0))
        | inr at ↦ record {
          n_rows = v.n_rows;
          sizes = v.sizes;
          fits = v.fits;
          here = at.0;
          ends = v.ends;
          root = v.root;
          unique = v.unique;
        }
      ])

-- The row that `dir_mkdir` adds.
module _ (newpath : Bytes) (st : Dirs) (v : IsValid st) (ends : kstrlen newpath < dir_name_len)
    (room : st.dir_count < dir_max) (fresh : IsMissing newpath st) where
  abbrev pub added : Dirs
  added = record st {
    dirs = set st.dirs st.dir_count (kstrncpy (row st.dirs st.dir_count) newpath dir_name_len);
    dir_count = st.dir_count + 1;
  }

  pub row-added_other : (i : ℕ) → i ≢ st.dir_count → row added.dirs i ≡ row st.dirs i
  row-added_other i ne = get_or-set_ne st.dirs st.dir_count i _ [] (λ e. ne (sym e))

  pub added_text :
      (cstr (row added.dirs st.dir_count) ≡ cstr newpath)
      × (kstrlen (row added.dirs st.dir_count) < dir_name_len)
  added_text =
      let new = kstrncpy (row st.dirs st.dir_count) newpath dir_name_len in
      let here : row added.dirs st.dir_count ≡ new =
        get_or-set_self st.dirs st.dir_count new [] (omega (arith, v.n_rows, room)) in
      rw here (
        kstrncpy_ends (row st.dirs st.dir_count) newpath dir_name_len ends
          (v.sizes st.dir_count room))

  -- A path in the new table is an old one, or the new one.
  pub added_path :
      (i : ℕ)
      → i < st.dir_count + 1
      → ((i ≡ st.dir_count) × (cstr (row added.dirs i) ≡ cstr newpath))
        ⊎ ((i < st.dir_count) × (row added.dirs i ≡ row st.dirs i))
  added_path i h = elim (ℕ_discrete i st.dir_count) [
    | yes e ↦ inl (e, rw e added_text.0)
    | no ne ↦ inr (omega arith, row-added_other i ne)
  ]

  pub added-IsValid : IsValid added
  added-IsValid = record {
    n_rows = length-set st.dirs st.dir_count _ ∙ v.n_rows;
    sizes = sizes;
    fits = omega arith;
    here = omega (arith, v.here);
    ends = ends';
    root = (let e = row-added_other 0 (omega (arith, v.here)) in rw e v.root);
    unique = unique;
  }
    where
      sizes : (i : ℕ) → i < dir_max → length (row added.dirs i) ≡ dir_name_len
      sizes i h = elim (ℕ_discrete i st.dir_count) [
        | yes e ↦
            let new = kstrncpy (row st.dirs st.dir_count) newpath dir_name_len in
            let here : row added.dirs i ≡ new =
              rw e (get_or-set_self st.dirs st.dir_count new [] (omega (arith, v.n_rows, room))) in
            rw here (
              length-kstrncpy (row st.dirs st.dir_count) newpath dir_name_len
              ∙ v.sizes st.dir_count room)
        | no ne ↦ let e = row-added_other i ne in rw e (v.sizes i h)
      ]

      ends' : (i : ℕ) → i < st.dir_count + 1 → kstrlen (row added.dirs i) < dir_name_len
      ends' i h = elim (ℕ_discrete i st.dir_count) [
        | yes e ↦ rw e added_text.1
        | no ne ↦ let e = row-added_other i ne in rw e (v.ends i (omega arith))
      ]

      unique :
          (i j : ℕ)
          → i < st.dir_count + 1
          → j < st.dir_count + 1
          → cstr (row added.dirs i) ≡ cstr (row added.dirs j)
          → i ≡ j
      unique i j hi hj e = elim (added_path i hi) [
        | inl new_i ↦ elim (added_path j hj) [
          | inl new_j ↦ new_i.0 ∙ sym new_j.0
          | inr old_j ↦ absurd (fresh j old_j.0 (sym (ap cstr old_j.1) ∙ sym e ∙ new_i.1))
        ]
        | inr old_i ↦ elim (added_path j hj) [
          | inl new_j ↦ absurd (fresh i old_i.0 (sym (ap cstr old_i.1) ∙ e ∙ new_j.1))
          | inr old_j ↦ v.unique i j old_i.0 old_j.0 (sym (ap cstr old_i.1) ∙ e ∙ ap cstr old_j.1)
        ]
      ]

pub mkdir_path-IsValid :
    (newpath : Bytes) (st : Dirs)
    → IsValid st
    → kstrlen newpath < dir_name_len
    → st.dir_count < dir_max
    → IsValid (mkdir_path newpath st).0
unfolding mkdir_path
mkdir_path-IsValid newpath st v ends room =
    if_cases (λ (r : Dirs × List Out). IsValid r.0) (ltb (find_dir newpath st) dir_max) _ _
      (λ taken. v)
      (λ fresh. elim (find_dir_lem newpath st (omega (arith, v.n_rows, v.fits))) [
        | inl missing ↦ added-IsValid newpath st v ends room missing.1
        | inr at ↦ absurd (ground (arith, at.0))
      ])

-- `dir_init` makes a valid table of the zeroed one.
pub dir_init-IsValid : IsValid (dir_init bss_dirs)
unfolding dir_init bss_dirs kstrlen cstr
dir_init-IsValid = record {
  n_rows = refl;
  sizes = sizes;
  fits = omega arith;
  here = omega arith;
  ends = ends;
  root = refl;
  unique = λ i j hi hj e. omega arith;
}
  where
    sizes_of :
        (n i : ℕ)
        → i < n
        → length {A = ℕ} (row (replicate n (replicate dir_name_len 0)) i) ≡ dir_name_len
    sizes_of zero i h = absurd (omega arith)
    sizes_of (suc n) zero h = refl
    sizes_of (suc n) (suc i) h = sizes_of n i (omega arith)

    sizes : (i : ℕ) → i < dir_max → length (row (dir_init bss_dirs).dirs i) ≡ dir_name_len
    sizes zero h = refl
    sizes (suc i) h = sizes_of 31 i (omega arith)

    ends : (i : ℕ) → i < 1 → kstrlen (row (dir_init bss_dirs).dirs i) < dir_name_len
    ends zero h = omega arith
    ends (suc i) h = absurd (omega arith)
