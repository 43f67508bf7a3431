-- ===== src/Tlv/Round.antt =====
-- One round of the loop of `parse_sequence` in src/tlv.rs, taken apart and put together.
use hyperion_x_emv.Base.{
  ℕ, suc, ◌+◌, ◌<◌, ◌≤◌, ◌≡◌, ◌≢◌, refl, Bool, List, [], ◌∷◌, length, take, drop, okay,
  KernelResult-cases, inl, inr, arith,
}
use hyperion_x_emv.Tlv.{
  Tlvs, node, cons, read_tag, read_length, descend, parse_items, max_tlv_nodes,
}

pub record Round (fuel : ℕ) (input : List ℕ) (d n : ℕ) (ts : Tlvs) (n' : ℕ) : Type 0 where
  pub c : Bool
  pub t : List ℕ
  pub after_tag : List ℕ
  pub len : ℕ
  pub after_length : List ℕ
  pub kids : Tlvs
  pub n1 : ℕ
  pub siblings : Tlvs
  pub room : n < max_tlv_nodes
  pub has_tag : read_tag input ≡ okay (c, t, after_tag)
  pub has_length : read_length after_tag ≡ okay (len, after_length)
  pub fits : len ≤ length after_length
  pub has_kids :
      descend (parse_items fuel) c (take len after_length) (d + 1) (n + 1) ≡ okay (kids, n1)
  pub has_siblings : parse_items fuel (drop len after_length) d n1 ≡ okay (siblings, n')
  pub shape : ts ≡ cons (node t (take len after_length) c kids) siblings

pub Round-of :
    (fuel b : ℕ) (bs : List ℕ) (d n : ℕ) (ts : Tlvs) (n' : ℕ)
    → parse_items (suc fuel) (b ∷ bs) d n ≡ okay (ts, n')
    → Round fuel (b ∷ bs) d n ts n'
unfolding parse_items
Round-of fuel b bs d n ts n' e = elim (KernelResult-cases (read_tag (b ∷ bs))) [
  | inl ((c, t, after_tag), p) ↦ elim (KernelResult-cases (read_length after_tag)) [
    | inl ((len, after), q) ↦
        elim (KernelResult-cases (descend (parse_items fuel) c (take len after) (d + 1) (n + 1))) [
          | inl ((kids, n1), r) ↦
              elim (KernelResult-cases (parse_items fuel (drop len after) d n1)) [
                | inl ((sib, m), s) ↦ record {
                  c = c;
                  t = t;
                  after_tag = after_tag;
                  len = len;
                  after_length = after;
                  kids = kids;
                  n1 = n1;
                  siblings = sib;
                  room = ground (arith, p);
                  has_tag = p;
                  has_length = q;
                  fits = ground (arith, p, q);
                  has_kids = r;
                  has_siblings = ground (arith, p, q, r, s);
                  shape = ground (arith, p, q, r, s);
                }
                | inr (x, s) ↦ absurd (ground (arith, p, q, r, s))
              ]
          | inr (x, r) ↦ absurd (ground (arith, p, q, r))
        ]
    | inr (x, q) ↦ absurd (ground (arith, p, q))
  ]
  | inr (x, p) ↦ absurd (ground (arith, p))
]

-- The same round, forwards.
pub round_lem :
    (fuel : ℕ) (input : List ℕ) (d n : ℕ) {ts : Tlvs} {n' : ℕ}
    → input ≢ []
    → Round fuel input d n ts n'
    → parse_items (suc fuel) input d n ≡ okay (ts, n')
unfolding parse_items
round_lem fuel [] d n ne r = absurd (ne refl)
round_lem fuel (b ∷ bs) d n ne r = ground arith
