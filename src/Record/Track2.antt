-- ===== src/Record/Track2.antt =====
-- Track 2 equivalent data of src/record.rs, as its nibbles are laid out.
use hyperion_x_emv.Base.{
  ℕ, zero, suc, ◌+◌, ◌-◌, ◌≤◌, ◌≡◌, ◌↔◌, inl, inr, refl, sym, ap, ◌∙◌, Bool, true, false, not, ◌&&◌,
  ◌||◌, List, [], ◌∷◌, ◌++◌, ltb, leb, ◌==◌, length, is_empty, All, replicate, length-append, arith,
  KernelError, okay, fail_if, >>=-eq-okay, Bool-cases,
}
use mathlib.Core.List.{append_assoc, append-nil}
use hyperion_x_emv.Numeric.{nibbles}
use hyperion_x_emv.Record.{
  ParsedTrack2EquivalentData, Track2State, track2_step, track2_loop, validate_pan_length,
  parse_track2_equivalent_data,
}

abbrev pub IsDigit : ℕ → Type 0
IsDigit d = d ≤ 9

-- The nibbles of track 2 data: the PAN, the separator, further digits, and padding.
pub record IsLaidOut (ns pan digits : List ℕ) (padding : ℕ) : Type 0 where
  pub layout : ns ≡ pan ++ (0x0d ∷ (digits ++ replicate padding 0x0f))
  pub pan_digits : All IsDigit pan
  pub other_digits : All IsDigit digits
  pub pan_length : (1 ≤ length pan) × (length pan ≤ 19)
  pub enough_digits : 7 ≤ length digits

abbrev state : List ℕ → Bool → ℕ → Bool → Track2State
state p separator count padding = record {
  pan = p;
  saw_separator = separator;
  post_separator_digits = count;
  saw_padding = padding;
}

-- The loop past the first padding nibble.
padding_sound :
    (ns p : List ℕ) (n : ℕ) (s : Track2State)
    → track2_loop ns (state p true n true) ≡ okay s
    → (k : ℕ) × (ns ≡ replicate k 0x0f) × (s ≡ state p true n true)
unfolding track2_loop track2_step
padding_sound [] p n s h = (0, refl, ground arith)
padding_sound (x ∷ ns) p n s h = elim (Bool-cases (x == 0x0f)) [
  | inl e ↦
      let (k, same, final) = padding_sound ns p n s (ground (arith, e)) in
      (suc k, ground (arith, e, same), final)
  | inr e ↦ ground (arith, e)
]

-- The loop between the separator and the padding.
digits_sound :
    (ns p : List ℕ) (n : ℕ) (s : Track2State)
    → track2_loop ns (state p true n false) ≡ okay s
    → (digits : List ℕ) × (k : ℕ) × (ns ≡ digits ++ replicate k 0x0f)
      × All IsDigit digits
      × (s ≡ state p true (n + length digits) (ltb 0 k))
unfolding track2_loop track2_step
digits_sound [] p n s h = ([], 0, refl, tt, ground arith)
digits_sound (x ∷ ns) p n s h = elim (Bool-cases (leb x 9)) [
  | inl e ↦
      let (digits, k, same, each, final) = digits_sound ns p (n + 1) s (ground (arith, e)) in
      (x ∷ digits, k, ground (arith, same), (ground (arith, e), each), ground (arith, final))
  | inr e ↦ elim (Bool-cases (x == 0x0f)) [
    | inl f ↦
        let (k, same, final) = padding_sound ns p n s (ground (arith, e, f)) in
        ([], suc k, ground (arith, f, same), tt, ground (arith, final))
    | inr f ↦ ground (arith, e, f)
  ]
]

-- The loop up to the separator.
pan_sound :
    (ns p : List ℕ) (s : Track2State)
    → track2_loop ns (state p false 0 false) ≡ okay s
    → s.saw_separator ≡ true
    → (rest digits : List ℕ) × (k : ℕ) × (ns ≡ rest ++ (0x0d ∷ (digits ++ replicate k 0x0f)))
      × All IsDigit rest
      × All IsDigit digits
      × (s ≡ state (p ++ rest) true (length digits) (ltb 0 k))
unfolding track2_loop track2_step
pan_sound [] p s h sep = ground arith
pan_sound (x ∷ ns) p s h sep = elim (Bool-cases (leb x 9)) [
  | inl e ↦
      let (rest, digits, k, same, each, others, final) =
        pan_sound ns (p ++ (x ∷ [])) s (ground (arith, e)) sep in
      (
        x ∷ rest,
        digits,
        k,
        ap (λ t. x ∷ t) same,
        (ground (arith, e), each),
        others,
        final ∙ ap (λ t. state t true (length digits) (ltb 0 k)) (append_assoc p (x ∷ []) rest),
      )
  | inr e ↦ elim (Bool-cases (x == 0x0d && not (is_empty p))) [
    | inl f ↦
        let (digits, k, same, each, final) = digits_sound ns p 0 s (ground (arith, e, f)) in
        ([], digits, k, ground (arith, f, same), tt, each, ground (arith, final, append-nil p))
    | inr f ↦ ground (arith, e, f)
  ]
]

abbrev pub summary_of : List ℕ → List ℕ → ℕ → ParsedTrack2EquivalentData
summary_of p digits k = record {
  pan_digits = p;
  summary = record {
    pan_digit_count = length p;
    post_separator_digit_count = length digits;
    discretionary_digit_count = length digits - 7;
    padded = ltb 0 k;
  };
}

-- What is accepted is laid out as track 2 data, and the result describes the layout.
parse_track2_equivalent_data_sound :
    (value : List ℕ) (t : ParsedTrack2EquivalentData)
    → parse_track2_equivalent_data value ≡ okay t
    → (p digits : List ℕ) × (k : ℕ) × IsLaidOut (nibbles value) p digits k
      × (t ≡ summary_of p digits k)
unfolding parse_track2_equivalent_data validate_pan_length
parse_track2_equivalent_data_sound value t h =
    let (u, nonempty, h1) = >>=-eq-okay (fail_if (is_empty value) KernelError.parse_error) _ h in
    let (s, run, h2) = >>=-eq-okay (track2_loop (nibbles value) (state [] false 0 false)) _ h1 in
    let (u1, enough, h3) =
      >>=-eq-okay
        (fail_if (not s.saw_separator || ltb s.post_separator_digits 7) KernelError.parse_error) _
        h2 in
    let (u2, sized, h4) = >>=-eq-okay (validate_pan_length s.pan) _ h3 in
    let (p, digits, k, layout, each, others, final) =
      pan_sound (nibbles value) [] s run (ground (arith, enough)) in
    (
      p,
      digits,
      k,
      record {
        layout = layout;
        pan_digits = each;
        other_digits = others;
        pan_length = ground (arith, sized, final);
        enough_digits = ground (arith, enough, final);
      },
      ground (arith, h4, final),
    )

-- The loop along a layout.
padding_complete :
    (k : ℕ) (p : List ℕ) (n : ℕ)
    → track2_loop (replicate k 0x0f) (state p true n true) ≡ okay (state p true n true)
unfolding track2_loop track2_step
padding_complete zero p n = refl
padding_complete (suc k) p n = padding_complete k p n

digits_complete :
    (digits : List ℕ) (k : ℕ) (p : List ℕ) (n : ℕ)
    → All IsDigit digits
    → track2_loop (digits ++ replicate k 0x0f) (state p true n false)
      ≡ okay (state p true (n + length digits) (ltb 0 k))
unfolding track2_loop track2_step
digits_complete [] zero p n h = ground arith
digits_complete [] (suc k) p n h = ground (arith, padding_complete k p n)
digits_complete (x ∷ digits) k p n h = ground (arith, h.0, digits_complete digits k p (n + 1) h.1)

pan_complete :
    (rest digits : List ℕ) (k : ℕ) (p : List ℕ)
    → is_empty (p ++ rest) ≡ false
    → All IsDigit rest
    → All IsDigit digits
    → track2_loop (rest ++ (0x0d ∷ (digits ++ replicate k 0x0f))) (state p false 0 false)
      ≡ okay (state (p ++ rest) true (length digits) (ltb 0 k))
unfolding track2_loop track2_step
pan_complete [] digits k p e h g = ground (arith, append-nil p, digits_complete digits k p 0 g)
pan_complete (x ∷ rest) digits k p e h g = ground (
  arith,
  h.0,
  append_assoc p (x ∷ []) rest,
  pan_complete rest digits k (p ++ (x ∷ [])) (rw (append_assoc p (x ∷ []) rest) e) h.1 g,
)

nonempty : (p : List ℕ) → 1 ≤ length p → is_empty p ≡ false
nonempty [] h = absurd (omega arith)
nonempty (x ∷ p) h = refl

-- Whatever is laid out as track 2 data is accepted.
parse_track2_equivalent_data_complete :
    (value p digits : List ℕ) (k : ℕ)
    → IsLaidOut (nibbles value) p digits k
    → parse_track2_equivalent_data value ≡ okay (summary_of p digits k)
unfolding parse_track2_equivalent_data validate_pan_length
parse_track2_equivalent_data_complete [] p digits k h =
    let layout : [] ≡ p ++ (0x0d ∷ (digits ++ replicate k 0x0f)) = unfold nibbles in h.layout in
    let bad = ap length layout ∙ length-append p (0x0d ∷ (digits ++ replicate k 0x0f)) in
    absurd (omega arith)
parse_track2_equivalent_data_complete (b ∷ bs) p digits k h =
    let run =
      ap (λ ns. track2_loop ns (state [] false 0 false)) h.layout
      ∙ pan_complete p digits k [] (nonempty p h.pan_length.0) h.pan_digits h.other_digits in
    ground (arith, run, nonempty p h.pan_length.0, h.pan_length, h.enough_digits)

-- Track 2 data is accepted exactly when it is 1 to 19 digits, the separator D, at least 7 digits and
-- padding F; the result has the digits of the PAN and counts the digits.
pub parse_track2_equivalent_data_lem :
    (value : List ℕ) (t : ParsedTrack2EquivalentData)
    → (parse_track2_equivalent_data value ≡ okay t) ↔ (
        (p digits : List ℕ) × (k : ℕ) × IsLaidOut (nibbles value) p digits k
        × (t ≡ summary_of p digits k))
parse_track2_equivalent_data_lem value t = (
  parse_track2_equivalent_data_sound value t,
  λ (p, digits, k, laid_out, same).
      parse_track2_equivalent_data_complete value p digits k laid_out ∙ ap okay (sym same),
)
