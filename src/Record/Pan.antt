-- ===== src/Record/Pan.antt =====
-- The PAN of src/record.rs: the digits of tag 5A, and their agreement with track 2.
use hyperion_x_emv.Base.{
  ℕ, ◌≤◌, ◌≡◌, ◌↔◌, ◌⊎◌, inl, inr, refl, sym, ap, ◌∙◌, true, false, List, [], ◌∷◌, ◌++◌, ◌&&◌,
  Option, some, leb, ◌==◌, =s=_iff, length, is_empty, All, arith, KernelError, KernelResult, okay,
  ◌>>=◌, fail_if, >>=-eq-okay, Bool-cases,
}
use mathlib.Core.Path.{subst}
use hyperion_x_emv.Dol.Store.{DataStore, get}
use hyperion_x_emv.Record.{
  pan_loop, Entries, traverse, record_or_store_value, pan_digits_from_5a, validate_pan_length,
  pan_digits_from_track2, validate_cardholder_data_consistency, parse_read_record_body,
}
use hyperion_x_emv.Numeric.{nibbles}
use hyperion_x_emv.Record.Children.{pairs_of}
use hyperion_x_emv.Record.Effects.{parse_read_record_body-Taken}

traverse-some :
    (f : List ℕ → KernelResult (List ℕ)) (v : List ℕ) (o : Option (List ℕ))
    → traverse f (some v) ≡ okay o
    → (ds : List ℕ) × (f v ≡ okay ds) × (o ≡ some ds)
traverse-some f v o h = let (ds, e, r) = >>=-eq-okay (f v) _ h in (ds, e, ground (arith, r))

consistent_pans :
    (es : Entries) (s : DataStore) (pan track2 : List ℕ)
    → record_or_store_value es s (0x5a ∷ []) ≡ some pan
    → record_or_store_value es s (0x57 ∷ []) ≡ some track2
    → validate_cardholder_data_consistency es s ≡ okay tt
    → (ds : List ℕ) × (pan_digits_from_5a pan ≡ okay ds) × (pan_digits_from_track2 track2 ≡ okay ds)
unfolding validate_cardholder_data_consistency
consistent_pans es s pan track2 a b h =
    let (x, px, h1) =
      >>=-eq-okay (traverse pan_digits_from_5a (record_or_store_value es s (0x5a ∷ []))) _ h in
    let (y, py, h2) =
      >>=-eq-okay (traverse pan_digits_from_track2 (record_or_store_value es s (0x57 ∷ []))) _ h1 in
    let (ds, p, xs) =
      traverse-some pan_digits_from_5a pan x (ap (traverse pan_digits_from_5a) (sym a) ∙ px) in
    let (es', q, ys) =
      traverse-some pan_digits_from_track2 track2 y
        (ap (traverse pan_digits_from_track2) (sym b) ∙ py) in
    let same : ds ≡ es' = ground (arith, h2, xs, ys, =s=_iff ds es') in
    (ds, p, q ∙ ap okay (sym same))

-- After a record is taken, a stored PAN and stored track 2 data are well formed and have the same digits.
pub parse_read_record_body-pans :
    (body : List ℕ) (s s' : DataStore) (n : ℕ) (pan track2 : List ℕ)
    → parse_read_record_body body s ≡ (s', okay n)
    → get s' (0x5a ∷ []) ≡ some pan
    → get s' (0x57 ∷ []) ≡ some track2
    → (ds : List ℕ) × (pan_digits_from_5a pan ≡ okay ds) × (pan_digits_from_track2 track2 ≡ okay ds)
unfolding record_or_store_value
parse_read_record_body-pans body s s' n pan track2 h a b =
    let taken = parse_read_record_body-Taken body s s' n h in
    consistent_pans (pairs_of taken.kids) s pan track2 (sym (taken.reads (0x5a ∷ [])) ∙ a)
      (sym (taken.reads (0x57 ∷ [])) ∙ b) taken.consistent

-- The digits of tag 5A with the padding that fills the last byte.
pub record IsPan (ns digits : List ℕ) : Type 0 where
  pub layout : (ns ≡ digits) ⊎ (ns ≡ digits ++ (0x0f ∷ []))
  pub each_digit : All (λ d. d ≤ 9) digits
  pub sized : (1 ≤ length digits) × (length digits ≤ 19)

abbrev Padded : List ℕ → List ℕ → Type 0
Padded ns digits = ((ns ≡ digits) ⊎ (ns ≡ digits ++ (0x0f ∷ []))) × All (λ d. d ≤ 9) digits

pan_loop_sound : (ns digits : List ℕ) → pan_loop ns ≡ okay digits → Padded ns digits
unfolding pan_loop
pan_loop_sound [] digits h = (inl (ground (arith, h)), ground (arith, h))
pan_loop_sound (x ∷ ns) digits h = elim (Bool-cases (leb x 9)) [
  | inl e ↦
      let step : (pan_loop ns >>= λ ds. okay (x ∷ ds)) ≡ okay digits = ground (arith, e) in
      let (ds, run, same) = >>=-eq-okay (pan_loop ns) (λ ds. okay (x ∷ ds)) step in
      let (layout, each) = pan_loop_sound ns ds run in
      let whole : x ∷ ds ≡ digits = ground (arith, same) in
      subst (Padded (x ∷ ns)) (whole) (
        elim layout [ inl l ↦ inl (ap (λ t. x ∷ t) l) | inr l ↦ inr (ap (λ t. x ∷ t) l) ],
        (ground (arith, e), each),
      )
  | inr e ↦ elim (Bool-cases (x == 0x0f && is_empty ns)) [
    | inl f ↦ last ns e f h
    | inr f ↦ ground (arith, e, f)
  ]
]
  where
    last :
        (ns : List ℕ)
        → leb x 9 ≡ false
        → (x == 0x0f && is_empty ns) ≡ true
        → pan_loop (x ∷ ns) ≡ okay digits
        → Padded (x ∷ ns) digits
    last [] e f h =
        let empty : [] ≡ digits = ground (arith, e, f, h) in
        subst (Padded (x ∷ [])) (empty) (inr (ground (arith, f)), tt)
    last (y ∷ ns) e f h = ground (arith, f)

pan_loop_complete :
    (digits : List ℕ)
    → All (λ d. d ≤ 9) digits
    → (pan_loop digits ≡ okay digits) × (pan_loop (digits ++ (0x0f ∷ [])) ≡ okay digits)
unfolding pan_loop
pan_loop_complete [] h = (refl, refl)
pan_loop_complete (x ∷ digits) h =
    let (plain, padded) = pan_loop_complete digits h.1 in
    (ground (arith, plain, h.0), ground (arith, padded, h.0))

is_empty-length : (xs : List ℕ) → is_empty xs ≡ leb (length xs) 0
is_empty-length [] = refl
is_empty-length (x ∷ xs) = ground arith

some_nibbles : (value digits : List ℕ) → IsPan (nibbles value) digits → is_empty value ≡ false
unfolding nibbles
some_nibbles [] [] h = absurd (omega (arith, h.sized.0))
some_nibbles [] (d ∷ ds) h = elim h.layout [ inl l ↦ cc | inr l ↦ cc ]
some_nibbles (b ∷ bs) digits h = refl

-- Tag 5A is accepted exactly when its nibbles are 1 to 19 digits, with at most one padding F behind
-- them; the result is the digits.
pub pan_digits_from_5a_lem :
    (value digits : List ℕ)
    → (pan_digits_from_5a value ≡ okay digits) ↔ IsPan (nibbles value) digits
unfolding pan_digits_from_5a validate_pan_length
pan_digits_from_5a_lem value digits = (sound, complete)
  where
    sound : pan_digits_from_5a value ≡ okay digits → IsPan (nibbles value) digits
    sound h =
        let (u, nonempty, h1) =
          >>=-eq-okay (fail_if (is_empty value) KernelError.parse_error) _ h in
        let (ds, run, h2) = >>=-eq-okay (pan_loop (nibbles value)) _ h1 in
        let (u1, sized, h3) = >>=-eq-okay (validate_pan_length ds) _ h2 in
        let same : ds ≡ digits = ground (arith, h3) in
        let (layout, each) = pan_loop_sound (nibbles value) digits (run ∙ ap okay same) in
        record {
          layout = layout;
          each_digit = each;
          sized = ground (arith, sized, same, is_empty-length ds);
        }

    run_of : IsPan (nibbles value) digits → pan_loop (nibbles value) ≡ okay digits
    run_of p =
        let (plain, padded) = pan_loop_complete digits p.each_digit in
        elim p.layout [ inl l ↦ ap pan_loop l ∙ plain | inr l ↦ ap pan_loop l ∙ padded ]

    complete : IsPan (nibbles value) digits → pan_digits_from_5a value ≡ okay digits
    complete p =
        ground (arith, run_of p, some_nibbles value digits p, p.sized, is_empty-length digits)
