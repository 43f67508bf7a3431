-- ===== src/Tlv.antt =====
-- src/tlv.rs: the BER-TLV parser. A slice with an offset is the list of bytes from the offset on; what
-- a reader consumes is returned with the rest. A node and its list of children stand in one block.
pub mod Tags
pub mod Lengths
pub mod Spec
pub mod Round
pub mod Sound
pub mod Complete
pub mod Total
pub mod Queries
pub mod TagList
mod Tests
use hyperion_x_emv.Base.{
  ℕ, zero, suc, ◌+◌, ◌*◌, ◌%◌, ◌^◌, bit_and, bit_or, Bool, true, false, ◌&&◌, ◌||◌, List, [], ◌∷◌,
  ◌++◌, Option, some, none, ltb, leb, ◌==◌, ◌=s=◌, if◌then◌else◌, length, take, drop, is_empty, any,
  KernelError, KernelResult, okay, err, ◌>>=◌, ◌>>◌, fail_if, is_some,
}
use hyperion_x_emv.Base.Bits.{meets}

abbrev pub max_tlv_depth : ℕ
max_tlv_depth = 8

abbrev pub max_tlv_nodes : ℕ
max_tlv_nodes = 512

abbrev pub max_tlv_value_length : ℕ
max_tlv_value_length = 4096

mutual
  -- tag, value, constructed, children
  pub data Tlv : Type 0 where
    node : List ℕ → List ℕ → Bool → Tlvs → Tlv

  pub data Tlvs : Type 0 where
    nil : Tlvs
    cons : Tlv → Tlvs → Tlvs

abbrev pub tag : Tlv → List ℕ
tag (node t v c k) = t

abbrev pub value : Tlv → List ℕ
value (node t v c k) = v

abbrev pub constructed : Tlv → Bool
constructed (node t v c k) = c

abbrev pub children : Tlv → Tlvs
children (node t v c k) = k

-- The loop over the tag's continuation bytes, `count` of which are read.
unfoldable pub read_continuation : ℕ → List ℕ → KernelResult (List ℕ × List ℕ)
read_continuation count [] = err KernelError.parse_error
read_continuation count (byte ∷ rest) =
    let more = do (bytes, rest') ← read_continuation (count + 1) rest; okay (byte ∷ bytes, rest')
    in if count + 1 == 1 && bit_and byte 0x7f == 0
      then err KernelError.parse_error
      else if ltb 3 (count + 1)
      then err KernelError.parse_error
      else if meets byte 0x80
      then more
      else okay (byte ∷ [], rest)

-- The constructed flag, the bytes of the tag, and the rest.
unfoldable pub read_tag : List ℕ → KernelResult (Bool × List ℕ × List ℕ)
unfolding read_continuation
read_tag [] = err KernelError.parse_error
read_tag (first ∷ rest) =
    let long = do
      (more, rest') ← read_continuation 0 rest
      okay (meets first 0x20, first ∷ more, rest')
    in if first == 0x00 || first == 0xff
      then err KernelError.parse_error
      else if bit_and first 0x1f == 0x1f
      then long
      else okay (meets first 0x20, first ∷ [], rest)

-- `for _ in 0..octets { length = (length << 8) | byte }`, on a 64-bit `usize`.
unfoldable pub read_octets : ℕ → ℕ → List ℕ → KernelResult (ℕ × List ℕ)
read_octets zero len rest = okay (len, rest)
read_octets (suc octets) len [] = err KernelError.parse_error
read_octets (suc octets) len (byte ∷ rest) =
    read_octets octets (bit_or (len * 2 ^ 8 % 2 ^ 64) byte) rest

unfoldable pub check_length : ℕ → ℕ → List ℕ → KernelResult (ℕ × List ℕ)
check_length octets len rest =
    if ltb len 0x80 || (leb len 0xff && ltb 1 octets) || (leb len 0xffff && ltb 2 octets)
    then err KernelError.parse_error
    else if ltb max_tlv_value_length len
    then err KernelError.length_overflow
    else okay (len, rest)

unfoldable pub read_length : List ℕ → KernelResult (ℕ × List ℕ)
unfolding read_octets check_length
read_length [] = err KernelError.parse_error
read_length (first ∷ rest) =
    let octets = bit_and first 0x7f in
    let long = do (len, rest') ← read_octets octets 0 rest; check_length octets len rest'
    in if bit_and first 0x80 == 0
      then okay (first, rest)
      else if octets == 0 || ltb 3 octets
      then err KernelError.parse_error
      else long

-- `parse_sequence(value, &mut 0, depth + 1, nodes)` for a constructed node, by the given parser;
-- the check of the depth is the one at the head of `parse_sequence`.
unfoldable pub descend :
    (List ℕ → ℕ → ℕ → KernelResult (Tlvs × ℕ)) → Bool → List ℕ → ℕ → ℕ → KernelResult (Tlvs × ℕ)
descend sequence true input depth nodes =
    if ltb max_tlv_depth depth then err KernelError.parse_error else sequence input depth nodes
descend sequence false input depth nodes = okay (nil, nodes)

-- The loop of `parse_sequence`; it returns the nodes read so far too. Each round and each level
-- down leaves fewer bytes, so the length of the input is fuel enough (Tlv/Total); `internal_error`,
-- which this file of the source never returns, marks that the fuel ran out.
unfoldable pub parse_items : ℕ → List ℕ → ℕ → ℕ → KernelResult (Tlvs × ℕ)
unfolding descend
parse_items fuel [] depth nodes = okay (nil, nodes)
parse_items zero (b ∷ bs) depth nodes = err KernelError.internal_error
parse_items (suc fuel) (b ∷ bs) depth nodes =
    let item = do
      (is_constructed, t, after_tag) ← read_tag (b ∷ bs)
      (len, after_length) ← read_length after_tag
      fail_if (ltb (length after_length) len) KernelError.length_overflow
      (kids, nodes') ←
          descend (parse_items fuel) is_constructed (take len after_length) (depth + 1) (nodes + 1)
      (siblings, nodes'') ← parse_items fuel (drop len after_length) depth nodes'
      okay (cons (node t (take len after_length) is_constructed kids) siblings, nodes'')
    in if leb max_tlv_nodes nodes then err KernelError.length_overflow else item

unfoldable pub parse_many : List ℕ → KernelResult Tlvs
unfolding parse_items
parse_many input = do (tlvs, nodes) ← parse_items (length input) input 0 0; okay tlvs

abbrev pub length_tlvs : Tlvs → ℕ
length_tlvs nil = 0
length_tlvs (cons item items) = suc (length_tlvs items)

-- `iter().any(|child| child.constructed)`
unfoldable pub any_constructed : Tlvs → Bool
any_constructed nil = false
any_constructed (cons item items) = constructed item || any_constructed items

unfoldable mutual
  pub find_first : Tlvs → List ℕ → Option (List ℕ)
  find_first nil t = none
  find_first (cons item items) t = first_of_node item t (find_first items t)

  pub first_of_node : Tlv → List ℕ → Option (List ℕ) → Option (List ℕ)
  first_of_node (node t' v c kids) t later =
      if t' =s= t
      then some v
      else elim (find_first kids t) [ some found ↦ some found | none ↦ later ]

-- The loop of `find_unique_direct`, with what is found so far.
unfoldable pub find_unique_from : Option (List ℕ) → Tlvs → List ℕ → KernelResult (Option (List ℕ))
find_unique_from found nil t = okay found
find_unique_from found (cons item items) t =
    let later = find_unique_from (if tag item =s= t then some (value item) else found) items t in
    if (tag item =s= t) && is_some found then err KernelError.parse_error else later

unfoldable pub find_unique_direct : Tlvs → List ℕ → KernelResult (Option (List ℕ))
unfolding find_unique_from
find_unique_direct tlvs t = find_unique_from none tlvs t

pub record FlatTlv : Type 0 where
  pub flat_tag : List ℕ
  pub flat_value : List ℕ
  pub flat_constructed : Bool

unfoldable mutual
  pub flatten : Tlvs → List FlatTlv
  flatten nil = []
  flatten (cons item items) = walk item ++ flatten items

  pub walk : Tlv → List FlatTlv
  walk (node t v c kids) =
      record { flat_tag = t; flat_value = v; flat_constructed = c } ∷ flatten kids

-- The loop of `parse_unique_primitive_tag_list`, with the tags read so far; fuel as above.
unfoldable pub tag_list_from : ℕ → List ℕ → ℕ → List (List ℕ) → KernelResult (List (List ℕ))
tag_list_from fuel [] max_tags tags = okay tags
tag_list_from zero (b ∷ bs) max_tags tags = err KernelError.internal_error
tag_list_from (suc fuel) (b ∷ bs) max_tags tags =
    let more = do
      (is_constructed, t, rest) ← read_tag (b ∷ bs)
      fail_if (is_constructed || any (λ existing. existing =s= t) tags) KernelError.parse_error
      tag_list_from fuel rest max_tags (tags ++ (t ∷ []))
    in if leb max_tags (length tags) then err KernelError.length_overflow else more

unfoldable pub parse_unique_primitive_tag_list : List ℕ → ℕ → KernelResult (List (List ℕ))
unfolding tag_list_from
parse_unique_primitive_tag_list input max_tags = do
  fail_if (is_empty input || max_tags == 0) KernelError.parse_error
  tag_list_from (length input) input max_tags []
