-- ===== src/Tlv/Complete.antt =====
-- `parse_many` of src/tlv.rs on the encodings of well-formed nodes.
use hyperion_x_emv.Base.{
  ℕ, zero, suc, ◌+◌, ◌<◌, ◌≤◌, ◌≡◌, ◌≢◌, refl, Bool, true, false, List, [], ◌∷◌, ◌++◌, length, okay,
  arith, length-append, take_prefix, drop_prefix, ap, ◌∙◌,
}
use mathlib.Core.List.{append_assoc}
use hyperion_x_emv.Tlv.{
  Tlvs, node, nil, cons, descend, parse_items, parse_many, max_tlv_nodes, max_tlv_depth,
}
use hyperion_x_emv.Tlv.Tags.{read_tag_complete}
use hyperion_x_emv.Tlv.Lengths.{encode_length, read_length_complete}
use hyperion_x_emv.Tlv.Spec.{encode, size, WellFormed}
use hyperion_x_emv.Tlv.Round.{round_lem}
use hyperion_x_emv.Dol.Store.{validate_data_tag}

-- A valid tag is not empty.
pub valid_tag_cons : (t : List ℕ) → validate_data_tag t ≡ okay tt → 0 < length t
unfolding validate_data_tag
valid_tag_cons [] v = cc
valid_tag_cons (x ∷ xs) v = omega arith

append-ne-nil : (t rest : List ℕ) → 0 < length t → t ++ rest ≢ []
append-ne-nil [] rest h = absurd (omega arith)
append-ne-nil (x ∷ xs) rest h = λ e. cc

-- The children of a well-formed node, by a parser that reads them back.
descend_complete :
    (fuel : ℕ) (c : Bool) (v : List ℕ) (kids : Tlvs) (d m : ℕ)
    → (c ≡ true → (encode kids ≡ v) × (d ≤ max_tlv_depth))
    → (c ≡ false → kids ≡ nil)
    → (c ≡ true → parse_items fuel (encode kids) d m ≡ okay (kids, m + size kids))
    → descend (parse_items fuel) c v d m ≡ okay (kids, m + size kids)
unfolding descend
descend_complete fuel true v kids d m below leaf ih =
    let (enc, deep) = below refl in
    ground (arith, deep, ap (λ z. parse_items fuel z d m) enc, ih refl)
descend_complete fuel false v kids d m below leaf ih =
    rw (leaf refl) (ap (λ k. okay (nil, k)) (omega arith))

-- The length of an encoded node and what follows it.
length_node :
    (t e v rest : List ℕ)
    → length ((t ++ (e ++ v)) ++ rest) ≡ length t + (length e + length v) + length rest
length_node t e v rest =
    omega (arith, length-append (t ++ (e ++ v)) rest, length-append t (e ++ v), length-append e v)

parse_items_complete :
    (fuel : ℕ) (ts : Tlvs) (d n : ℕ)
    → WellFormed d ts
    → n + size ts ≤ max_tlv_nodes
    → length (encode ts) ≤ fuel
    → parse_items fuel (encode ts) d n ≡ okay (ts, n + size ts)
parse_items_complete fuel nil d n w h f =
    unfold parse_items in ap (λ k. okay (nil, k)) (omega arith)
parse_items_complete zero (cons (node t v c kids) ts) d n (w, ws) h f =
    absurd
      (omega (arith, length_node t (encode_length (length v)) v (encode ts), valid_tag_cons t w.0))
parse_items_complete (suc fuel) (cons (node t v c kids) ts) d n
      ((valid, flag, small, below, leaf, inner), ws) h f =
    let e = encode_length (length v) in
    let total = length_node t e v (encode ts) in
    let inside : c ≡ true
        → parse_items fuel (encode kids) (d + 1) (n + 1) ≡ okay (kids, n + 1 + size kids) =
      λ q.
        parse_items_complete fuel kids (d + 1) (n + 1) inner (omega arith)
          (omega (arith, f, total, valid_tag_cons t valid, ap length (below q).0)) in
    let read_kids = descend_complete fuel c v kids (d + 1) (n + 1) below leaf inside in
    let read_rest =
      parse_items_complete fuel ts d (n + 1 + size kids) ws (omega arith)
        (omega (arith, f, total, valid_tag_cons t valid)) in
    rw (append_assoc t (e ++ v) (encode ts), append_assoc e v (encode ts))
      (round_lem fuel (t ++ (e ++ (v ++ encode ts))) d n
        (append-ne-nil t (e ++ (v ++ encode ts)) (valid_tag_cons t valid))
        (record {
          c = c;
          t = t;
          after_tag = e ++ (v ++ encode ts);
          len = length v;
          after_length = v ++ encode ts;
          kids = kids;
          n1 = n + 1 + size kids;
          siblings = ts;
          room = omega arith;
          has_tag = rw flag (read_tag_complete t (e ++ (v ++ encode ts)) valid);
          has_length = read_length_complete (length v) (v ++ encode ts) small;
          fits = omega (arith, length-append v (encode ts));
          has_kids = rw (take_prefix v (encode ts)) read_kids;
          has_siblings =
              rw (drop_prefix v (encode ts)) (read_rest ∙ ap (λ k. okay (ts, k)) (omega arith));
          shape = rw (take_prefix v (encode ts));
        }))

-- Well-formed nodes, at most 512 of them, are parsed back from their encoding.
pub parse_many_complete :
    (ts : Tlvs) → WellFormed 0 ts → size ts ≤ max_tlv_nodes → parse_many (encode ts) ≡ okay ts
unfolding parse_many
parse_many_complete ts w h =
    let e = parse_items_complete (length (encode ts)) ts 0 0 w (omega arith) (omega arith) in rw e
