-- ===== src/Domains/Valid.antt =====
-- Labels of generated hosts are valid DNS labels.
use kubwave.Common.{
  ℕ, ◌≡◌, refl, inl, inr, Bool, true, false, not, ◌&&◌, [], ◌∷◌, arith, if◌then◌else◌, All,
  Bool-cases,
}
use kubwave.Common.Units.{Units, replace_runs}
use kubwave.Domains.Labels.{
  is_hyphen, is_label_unit, hyphen, drop_first_hyphen, drop_last_hyphen, or_app, hyphenate,
  sanitize_dns_label,
}

abbrev pub IsLabelUnit : ℕ → Type 0
IsLabelUnit c = is_label_unit c ≡ true

abbrev pub starts_well : Units → Bool
starts_well [] = false
starts_well (c ∷ s) = not (is_hyphen c)

abbrev pub ends_well : Units → Bool
ends_well [] = true
ends_well (c ∷ []) = not (is_hyphen c)
ends_well (c ∷ d ∷ s) = ends_well (d ∷ s)

-- Lower-case letters, digits and hyphens, at least one of them, with no hyphen at either end.
pub record IsWellFormed (s : Units) : Type 0 where
  pub label_units : All IsLabelUnit s
  pub starts : starts_well s ≡ true
  pub ends : ends_well s ≡ true

-- No two hyphens stand side by side.
abbrev is_single : Units → Bool
is_single [] = true
is_single (c ∷ []) = true
is_single (c ∷ d ∷ s) = not (is_hyphen c && is_hyphen d) && is_single (d ∷ s)

abbrev not_hyphen_first : Units → Bool
not_hyphen_first [] = true
not_hyphen_first (c ∷ s) = not (is_hyphen c)

single-cons :
    (c : ℕ) (s : Units) → is_hyphen c ≡ false → is_single s ≡ true → is_single (c ∷ s) ≡ true
single-cons c [] n h = refl
single-cons c (d ∷ s) n h = rw (n, h) refl

single-hyphen :
    (c : ℕ) (s : Units) → not_hyphen_first s ≡ true → is_single s ≡ true → is_single (c ∷ s) ≡ true
single-hyphen c [] n h = refl
single-hyphen c (d ∷ s) n h = ground (arith, n, h)

squeezed :
    (in_run : Bool) (s : Units)
    → (is_single (replace_runs is_hyphen hyphen in_run s) ≡ true)
      × (in_run ≡ true → not_hyphen_first (replace_runs is_hyphen hyphen in_run s) ≡ true)
squeezed in_run [] = (refl, λ h. refl)
squeezed in_run (c ∷ s) = elim (Bool-cases (is_hyphen c)) [
  | inl e ↦ let (single, first) = squeezed true s in rw e (run in_run _ single (first refl))
  | inr e ↦ rw e (single-cons c _ e (squeezed false s).0, λ h. rw e refl)
]
  where
    run :
        (in_run : Bool) (t : Units)
        → is_single t ≡ true
        → not_hyphen_first t ≡ true
        → (is_single (if in_run then t else hyphen ∷ t) ≡ true)
          × (in_run ≡ true → not_hyphen_first (if in_run then t else hyphen ∷ t) ≡ true)
    run true t single first = (single, λ h. first)
    run false t single first = (single-hyphen hyphen t first single, λ h. absurd (cc))

run_units :
    (in_run : Bool) (t : Units)
    → All IsLabelUnit t
    → All IsLabelUnit (if in_run then t else hyphen ∷ t)
run_units true t h = h
run_units false t h = (refl, h)

replaced_units :
    (in_run : Bool) (s : Units)
    → All IsLabelUnit (replace_runs (λ c. not (is_label_unit c)) hyphen in_run s)
replaced_units in_run [] = tt
replaced_units in_run (c ∷ s) = elim (Bool-cases (is_label_unit c)) [
  | inl e ↦ rw e (e, replaced_units false s)
  | inr e ↦ rw e (run_units in_run _ (replaced_units true s))
]

squeezed_units :
    (in_run : Bool) (s : Units)
    → All IsLabelUnit s
    → All IsLabelUnit (replace_runs is_hyphen hyphen in_run s)
squeezed_units in_run [] h = tt
squeezed_units in_run (c ∷ s) (l, h) = elim (Bool-cases (is_hyphen c)) [
  | inl e ↦ rw e (run_units in_run _ (squeezed_units true s h))
  | inr e ↦ rw e (l, squeezed_units false s h)
]

drop_first :
    (s : Units)
    → All IsLabelUnit s
    → is_single s ≡ true
    → All IsLabelUnit (drop_first_hyphen s)
      × (is_single (drop_first_hyphen s) ≡ true)
      × (not_hyphen_first (drop_first_hyphen s) ≡ true)
drop_first [] h single = (tt, refl, refl)
drop_first (c ∷ []) (l, h) single = elim (Bool-cases (is_hyphen c)) [
  | inl e ↦ rw e (tt, refl, refl)
  | inr e ↦ rw e ((l, tt), refl, rw e refl)
]
drop_first (c ∷ d ∷ s) (l, h) single = elim (Bool-cases (is_hyphen c)) [
  | inl e ↦ rw e (h, ground arith, ground arith)
  | inr e ↦ rw e ((l, h), single, rw e refl)
]

last_units : (s : Units) → All IsLabelUnit s → All IsLabelUnit (drop_last_hyphen s)
last_units [] h = tt
last_units (c ∷ []) (l, h) = elim (Bool-cases (is_hyphen c)) [
  | inl e ↦ rw e tt
  | inr e ↦ rw e (l, tt)
]
last_units (c ∷ d ∷ s) (l, h) = (l, last_units (d ∷ s) h)

last_ends : (s : Units) → is_single s ≡ true → ends_well (drop_last_hyphen s) ≡ true
last_ends [] single = refl
last_ends (c ∷ []) single = elim (Bool-cases (is_hyphen c)) [
  | inl e ↦ rw e refl
  | inr e ↦ rw e (rw e refl)
]
last_ends (c ∷ d ∷ []) single = elim (Bool-cases (is_hyphen d)) [
  | inl e ↦ rw e (ground arith)
  | inr e ↦ rw e (rw e refl)
]
last_ends (c ∷ d ∷ e ∷ s) single = last_ends (d ∷ e ∷ s) (ground arith)

last_starts : (s : Units) → not_hyphen_first s ≡ true → not_hyphen_first (drop_last_hyphen s) ≡ true
last_starts [] h = refl
last_starts (c ∷ []) h = elim (Bool-cases (is_hyphen c)) [ inl e ↦ rw e refl | inr e ↦ rw e h ]
last_starts (c ∷ d ∷ s) h = h

or_app-IsWellFormed :
    (s : Units)
    → All IsLabelUnit s
    → not_hyphen_first s ≡ true
    → ends_well s ≡ true
    → IsWellFormed (or_app s)
or_app-IsWellFormed [] h b e = record {
  label_units = (refl, (refl, (refl, tt)));
  starts = refl;
  ends = refl;
}
or_app-IsWellFormed (c ∷ s) h b e = record { label_units = h; starts = b; ends = e }

pub sanitize_dns_label-IsWellFormed :
    (lower : Units → Units) (name : Units) → IsWellFormed (sanitize_dns_label lower name)
unfolding sanitize_dns_label
sanitize_dns_label-IsWellFormed lower name =
    let s = replace_runs (λ c. not (is_label_unit c)) hyphen false (lower name) in
    let t = replace_runs is_hyphen hyphen false s in
    let (u, single, first) =
      drop_first t (squeezed_units false s (replaced_units false (lower name)))
        (squeezed false s).0 in
    or_app-IsWellFormed (hyphenate (lower name)) (last_units (drop_first_hyphen t) u)
      (last_starts (drop_first_hyphen t) first) (last_ends (drop_first_hyphen t) single)
