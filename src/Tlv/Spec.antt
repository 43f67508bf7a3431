-- ===== src/Tlv/Spec.antt =====
-- What a sequence of nodes of src/tlv.rs encodes, and when it is one that the parser can return.
use hyperion_x_emv.Base.{ℕ, suc, ◌+◌, ◌≤◌, ◌≡◌, true, false, List, [], ◌++◌, length, okay}
use hyperion_x_emv.Tlv.{Tlv, Tlvs, node, nil, cons, max_tlv_depth, max_tlv_value_length}
use hyperion_x_emv.Tlv.Tags.{is_constructed}
use hyperion_x_emv.Tlv.Lengths.{encode_length}
use hyperion_x_emv.Dol.Store.{validate_data_tag}

abbrev pub encode_node : Tlv → List ℕ
encode_node (node t v c kids) = t ++ (encode_length (length v) ++ v)

abbrev pub encode : Tlvs → List ℕ
encode nil = []
encode (cons item items) = encode_node item ++ encode items

abbrev mutual
  -- The number of nodes, children included.
  pub size : Tlvs → ℕ
  size nil = 0
  size (cons item items) = size_node item + size items

  pub size_node : Tlv → ℕ
  size_node (node t v c kids) = suc (size kids)

abbrev mutual
  -- Valid tags, bounded values, children exactly in constructed nodes and only down to the bound on
  -- the depth, and the value of a constructed node encodes its children.
  pub WellFormed : ℕ → Tlvs → Type 0
  WellFormed d nil = Unit {0}
  WellFormed d (cons item items) = WellFormedNode d item × WellFormed d items

  pub WellFormedNode : ℕ → Tlv → Type 0
  WellFormedNode d (node t v c kids) =
      (validate_data_tag t ≡ okay tt)
      × (c ≡ is_constructed t)
      × (length v ≤ max_tlv_value_length)
      × (c ≡ true → (encode kids ≡ v) × (d + 1 ≤ max_tlv_depth))
      × (c ≡ false → kids ≡ nil)
      × WellFormed (d + 1) kids
