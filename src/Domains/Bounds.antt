-- ===== src/Domains/Bounds.antt =====
-- The lengths of generated labels and hosts, and what clamping keeps of a label.
use kubwave.Common.{
  ℕ, zero, suc, ◌-◌, ◌≤◌, ◌≡◌, refl, inl, inr, true, false, ◌&&◌, Option, none, some, [], ◌∷◌, ◌++◌,
  arith, leb, if◌then◌else◌, length, take, all, All, All-append, All-take, length-append,
  length-take-le, Bool-cases,
}
use kubwave.Common.Units.{Units, is_blank, trim, strip_end, drop}
use kubwave.Domains.Labels.{is_hyphen, is_hex, sanitize_dns_label, is_id_suffix, clamp_label}
use kubwave.Domains.Hosts.{NamedService, rendered, build_default_domain_host, dot}
use kubwave.Domains.Valid.{
  IsLabelUnit, IsWellFormed, starts_well, ends_well, sanitize_dns_label-IsWellFormed,
}

stripped_units : (s : Units) → All IsLabelUnit s → All IsLabelUnit (strip_end is_hyphen s)
stripped_units [] h = tt
stripped_units (c ∷ s) (l, h) =
    elim (Bool-cases (is_hyphen c && is_blank (strip_end is_hyphen s))) [
      | inl e ↦ rw e tt
      | inr e ↦ rw e (l, stripped_units s h)
    ]

ends-cons :
    (c : ℕ) (t : Units)
    → (is_hyphen c && is_blank t) ≡ false
    → ends_well t ≡ true
    → ends_well (c ∷ t) ≡ true
ends-cons c [] e h = ground arith
ends-cons c (d ∷ t) e h = h

stripped_ends : (s : Units) → ends_well (strip_end is_hyphen s) ≡ true
stripped_ends [] = refl
stripped_ends (c ∷ s) = elim (Bool-cases (is_hyphen c && is_blank (strip_end is_hyphen s))) [
  | inl e ↦ rw e refl
  | inr e ↦ rw e (ends-cons c (strip_end is_hyphen s) e (stripped_ends s))
]

stripped_starts : (s : Units) → starts_well s ≡ true → starts_well (strip_end is_hyphen s) ≡ true
stripped_starts [] h = h
stripped_starts (c ∷ s) h =
    let plain : is_hyphen c ≡ false = ground arith in rw (plain) (rw plain refl)

stripped_length : (s : Units) → length (strip_end is_hyphen s) ≤ length s
stripped_length [] = omega arith
stripped_length (c ∷ s) = ground (arith, stripped_length s)

starts-append : (s t : Units) → starts_well s ≡ true → starts_well (s ++ t) ≡ true
starts-append [] t h = absurd (cc)
starts-append (c ∷ s) t h = h

ends-append : (s : Units) (c : ℕ) (t : Units) → ends_well (s ++ c ∷ t) ≡ ends_well (c ∷ t)
ends-append [] c t = refl
ends-append (d ∷ []) c t = refl
ends-append (d ∷ e ∷ s) c t = ends-append (e ∷ s) c t

starts-take : (n : ℕ) (s : Units) → starts_well s ≡ true → starts_well (take (suc n) s) ≡ true
starts-take n [] h = h
starts-take n (c ∷ s) h = h

All-drop : (n : ℕ) (s : Units) → All IsLabelUnit s → All IsLabelUnit (drop n s)
All-drop zero s h = h
All-drop (suc n) [] h = tt
All-drop (suc n) (c ∷ s) (l, h) = All-drop n s h

length-drop : (n : ℕ) (s : Units) → length (drop n s) ≡ length s - n
length-drop zero s = omega arith
length-drop (suc n) [] = omega arith
length-drop (suc n) (c ∷ s) = omega (arith, length-drop n s)

hex_ends : (c : ℕ) (s : Units) → all is_hex (c ∷ s) ≡ true → ends_well (c ∷ s) ≡ true
hex_ends c [] h = ground arith
hex_ends c (d ∷ s) h = hex_ends d s (ground arith)

suffix_ends : (s : Units) → 2 ≤ length s → is_id_suffix s ≡ true → ends_well s ≡ true
suffix_ends [] two h = absurd (omega arith)
suffix_ends (c ∷ []) two h = absurd (omega arith)
suffix_ends (c ∷ d ∷ s) two h = hex_ends d s (ground arith)

-- A head, no longer than it may be, before a suffix.
abbrev IsLabel : Units → Type 0
IsLabel s = IsWellFormed s × (length s ≤ 63)

suffixed-IsLabel :
    (head suffix : Units)
    → All IsLabelUnit head
    → starts_well head ≡ true
    → length head ≤ 54
    → All IsLabelUnit suffix
    → length suffix ≡ 9
    → is_id_suffix suffix ≡ true
    → IsLabel (head ++ suffix)
suffixed-IsLabel head [] h b short k nine id = absurd (omega arith)
suffixed-IsLabel head (c ∷ s) h b short k nine id = (
  record {
    label_units = All-append IsLabelUnit head (c ∷ s) h k;
    starts = starts-append head (c ∷ s) b;
    ends = rw (ends-append head c s) (suffix_ends (c ∷ s) (omega arith) id);
  },
  omega (arith, length-append head (c ∷ s)),
)

stripped-take :
    (n : ℕ) (s : Units)
    → IsWellFormed s
    → All IsLabelUnit (strip_end is_hyphen (take (suc n) s))
      × (starts_well (strip_end is_hyphen (take (suc n) s)) ≡ true)
      × (ends_well (strip_end is_hyphen (take (suc n) s)) ≡ true)
      × (length (strip_end is_hyphen (take (suc n) s)) ≤ suc n)
stripped-take n s w = (
  stripped_units (take (suc n) s) (All-take IsLabelUnit (suc n) s w.label_units),
  stripped_starts (take (suc n) s) (starts-take n s w.starts),
  stripped_ends (take (suc n) s),
  omega (arith, stripped_length (take (suc n) s), length-take-le {0} (suc n) s),
)

clamp_label-IsLabel : (s : Units) → IsWellFormed s → IsLabel (clamp_label s)
unfolding clamp_label
clamp_label-IsLabel s w = elim (Bool-cases (leb (length s) 63)) [
  | inl short ↦ rw short (w, ground arith)
  | inr long ↦
      let suffix = drop (length s - 9) s in
      let nine : length suffix ≡ 9 =
        let many : 64 ≤ length s = ground arith in omega (arith, length-drop (length s - 9) s) in
      rw long (elim (Bool-cases (is_id_suffix suffix)) [
        | inl id ↦
            let (h, b, e, n) = stripped-take 53 s w in
            rw (id, nine)
              (suffixed-IsLabel (strip_end is_hyphen (take 54 s)) suffix h b n
                (All-drop (length s - 9) s w.label_units) nine id)
        | inr other ↦
            let (h, b, e, n) = stripped-take 62 s w in
            rw other (record { label_units = h; starts = b; ends = e }, n)
      ])
]

starts-not_blank : (s : Units) → starts_well s ≡ true → is_blank s ≡ false
starts-not_blank [] h = absurd (cc)
starts-not_blank (c ∷ s) h = refl

-- On a base that is not blank, whatever the template, the service's name and id, and what the
-- engine takes for lower case, there is a label of 1 to 63 lower-case letters, digits and hyphens
-- with no hyphen at either end, such that the host is the label, a dot and the trimmed base if
-- that has at most 253 units, and there is none otherwise.
pub build_default_domain_host-label :
    (lower : Units → Units) (base : Units) (template : Option Units) (service : NamedService)
    → is_blank (trim base) ≡ false
    → (label : Units) × IsWellFormed label
      × (length label ≤ 63)
      × (build_default_domain_host lower (some base) template service ≡ (
          if leb (length (label ++ dot ∷ trim base)) 253
          then some (label ++ dot ∷ trim base)
          else none))
unfolding build_default_domain_host
build_default_domain_host-label lower base template service given =
    let name = sanitize_dns_label lower (rendered lower template service) in
    let (w, n) =
      clamp_label-IsLabel name
        (sanitize_dns_label-IsWellFormed lower (rendered lower template service)) in
    (clamp_label name, w, n, rw (given, starts-not_blank (clamp_label name) w.starts) refl)
