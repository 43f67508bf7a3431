-- ===== src/Gpo.antt =====
-- src/gpo.rs and src/aip.rs: the answer to GET PROCESSING OPTIONS and the PDOL of an FCI.
pub mod Formats
mod Tests
use hyperion_x_emv.Base.{
  ℕ, Bool, true, false, not, ◌&&◌, ◌||◌, List, [], ◌∷◌, Option, some, none, leb, ◌=s=◌,
  if◌then◌else◌, length, take, drop, is_some, KernelError, KernelResult, okay, err, ◌>>=◌, ◌>>◌,
  fail_if, ok_or,
}
use hyperion_x_emv.Tlv.{
  Tlv, Tlvs, node, nil, cons, tag, constructed, children, parse_many, find_unique_direct,
  any_constructed,
}
use hyperion_x_emv.Dol.{DolEntry, parse_dol}
use hyperion_x_emv.Afl.{AflEntry, parse_afl}

pub data GpoResponseFormat : Type 0 where
  template77 template80 : GpoResponseFormat

pub record GpoResponse : Type 0 where
  pub format : GpoResponseFormat
  pub aip : List ℕ
  pub afl : List AflEntry

-- `ApplicationInterchangeProfile::parse(value)?.raw()`
unfoldable pub fixed_aip : List ℕ → KernelResult (List ℕ)
fixed_aip (b0 ∷ b1 ∷ []) = okay (b0 ∷ b1 ∷ [])
fixed_aip _ = err KernelError.missing_mandatory_tag

-- The loop over the children of the FCI, with the PDOL found so far.
unfoldable pub find_pdol : Tlvs → Option (List ℕ) → KernelResult (Option (List ℕ))
find_pdol nil found = okay found
find_pdol (cons child rest) found =
    let skip = find_pdol rest found in
    let look = do
      pdol ← find_unique_direct (children child) (0x9f ∷ 0x38 ∷ [])
      elim pdol [
        | none ↦ find_pdol rest found
        | some value ↦
            if is_some found then err KernelError.parse_error else find_pdol rest (some value)
      ]
    in if not (tag child =s= (0xa5 ∷ [])) || not (constructed child) then skip else look

unfoldable pub pdol_of : Option (List ℕ) → KernelResult (List DolEntry)
pdol_of (some pdol) = parse_dol pdol
pdol_of none = okay []

-- `parsed.len() != 1 || parsed[0].tag != [0x6f] || !parsed[0].constructed`, then the search.
unfoldable pub pdol_from_templates : Tlvs → KernelResult (List DolEntry)
unfolding find_pdol pdol_of
pdol_from_templates (cons (node t v c kids) nil) = do
  fail_if (not (t =s= (0x6f ∷ [])) || not c) KernelError.missing_mandatory_tag
  found ← find_pdol kids none
  pdol_of found
pdol_from_templates _ = err KernelError.missing_mandatory_tag

unfoldable pub parse_pdol_from_fci : List ℕ → KernelResult (List DolEntry)
unfolding pdol_from_templates
parse_pdol_from_fci fci = do parsed ← parse_many fci; pdol_from_templates parsed

unfoldable pub parse_template_77 : Tlvs → KernelResult GpoResponse
unfolding fixed_aip
parse_template_77 kids = do
  fail_if (any_constructed kids) KernelError.parse_error
  found ← find_unique_direct kids (0x82 ∷ [])
  value ← ok_or found KernelError.missing_mandatory_tag
  profile ← fixed_aip value
  found_afl ← find_unique_direct kids (0x94 ∷ [])
  afl_value ← ok_or found_afl KernelError.missing_mandatory_tag
  entries ← parse_afl afl_value
  okay (record { format = GpoResponseFormat.template77; aip = profile; afl = entries })

unfoldable pub parse_template_80 : List ℕ → KernelResult GpoResponse
unfolding fixed_aip
parse_template_80 value = do
  fail_if (leb (length value) 2) KernelError.missing_mandatory_tag
  profile ← fixed_aip (take 2 value)
  entries ← parse_afl (drop 2 value)
  okay (record { format = GpoResponseFormat.template80; aip = profile; afl = entries })

-- The `match` on the one template.
unfoldable pub from_templates : Tlvs → KernelResult GpoResponse
unfolding parse_template_77 parse_template_80
from_templates (cons (node t v c kids) nil) =
    if t =s= (0x77 ∷ [])
    then parse_template_77 kids
    else if t =s= (0x80 ∷ [])
    then parse_template_80 v
    else err KernelError.missing_mandatory_tag
from_templates _ = err KernelError.missing_mandatory_tag

unfoldable pub parse_gpo_response : List ℕ → KernelResult GpoResponse
unfolding from_templates
parse_gpo_response body = do parsed ← parse_many body; from_templates parsed
