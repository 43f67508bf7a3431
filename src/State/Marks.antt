-- ===== src/State/Marks.antt =====
-- Setting bits in use of a TVR on conditions, as the stages of a transaction do (src/trm.rs,
-- src/restrictions.rs).
use hyperion_x_emv.Base.{
  ◌≡◌, refl, Bool, true, false, ◌&&◌, ◌||◌, List, [], ◌∷◌, ◌==◌, ltb, length, get_or, get_elem?,
  bit_and, arith, Option-cases, inl, inr, length-set, bit_or, All, ◌∙◌,
}
use hyperion_x_emv.Base.Bits.{meets}
use hyperion_x_emv.State.Bitmap.{Bit}
use hyperion_x_emv.State.Tvr
use hyperion_x_emv.State.Tvr.{Tvr}
use hyperion_x_emv.State.Reads.{is_set-set}

-- A mask of one byte that has no reserved bit.
abbrev pub IsUsed : Bit → Type 0
IsUsed (i, m) = (ltb i 5 ≡ true) × (bit_and m (get_or Tvr.allowed_masks i 0) ≡ m)

-- Two masks of the same byte with a common bit.
abbrev pub touches : Bit → Bit → Bool
touches (i, m) (j, n) = i == j && meets m n

pub length-set_bit : (t : Tvr) (bit : Bit) → length (Tvr.set t bit).bytes ≡ length t.bytes
unfolding Tvr.set
length-set_bit t (i, m) = elim (Option-cases (get_elem? t.bytes i)) [
  | inl e ↦ rw (e, Tvr.set) refl
  | inr (b, e) ↦
      rw (e, Tvr.set) (length-set t.bytes i (bit_or b (bit_and m (get_or Tvr.allowed_masks i 0))))
]

pub is_set-set_used :
    (t : Tvr) (bit place : Bit)
    → length t.bytes ≡ 5
    → IsUsed bit
    → Tvr.is_set (Tvr.set t bit) place ≡ Tvr.is_set t place || touches bit place
is_set-set_used t (i, m) (j, n) five used =
    ground (arith, is_set-set t i m j n, five, used.0, used.1)

-- `if condition { tvr.set(bit); flag = true; }`
unfoldable pub mark : Bool → Bit → Tvr × Bool → Tvr × Bool
mark true bit (tvr, flag) = (Tvr.set tvr bit, true)
mark false bit (tvr, flag) = (tvr, flag)

-- Several such statements in a row.
abbrev pub mark_all : List (Bool × Bit) → Tvr × Bool → Tvr × Bool
mark_all [] s = s
mark_all ((c, bit) ∷ marks) s = mark_all marks (mark c bit s)

abbrev pub any_condition : List (Bool × Bit) → Bool
any_condition [] = false
any_condition ((c, bit) ∷ marks) = c || any_condition marks

-- One of the conditions holds and its bit lies in the place.
abbrev pub reaches : List (Bool × Bit) → Bit → Bool
reaches [] place = false
reaches ((c, bit) ∷ marks) place = (c && touches bit place) || reaches marks place

abbrev pub IsUsedMark : Bool × Bit → Type 0
IsUsedMark (c, bit) = IsUsed bit

pub flag-mark_all :
    (marks : List (Bool × Bit)) (s : Tvr × Bool) → (mark_all marks s).1 ≡ s.1 || any_condition marks
unfolding mark
flag-mark_all [] s = ground arith
flag-mark_all ((true, bit) ∷ marks) s = ground (arith, flag-mark_all marks (Tvr.set s.0 bit, true))
flag-mark_all ((false, bit) ∷ marks) s = flag-mark_all marks s

pub length-mark_all :
    (marks : List (Bool × Bit)) (s : Tvr × Bool)
    → length (mark_all marks s).0.bytes ≡ length s.0.bytes
unfolding mark
length-mark_all [] s = refl
length-mark_all ((true, bit) ∷ marks) s =
    length-mark_all marks (Tvr.set s.0 bit, true) ∙ length-set_bit s.0 bit
length-mark_all ((false, bit) ∷ marks) s = length-mark_all marks s

pub is_set-mark_all :
    (marks : List (Bool × Bit)) (s : Tvr × Bool) (place : Bit)
    → length s.0.bytes ≡ 5
    → All IsUsedMark marks
    → Tvr.is_set (mark_all marks s).0 place ≡ Tvr.is_set s.0 place || reaches marks place
unfolding mark
is_set-mark_all [] s place five used = ground arith
is_set-mark_all ((true, bit) ∷ marks) s place five used = ground (
  arith,
  is_set-mark_all marks (Tvr.set s.0 bit, true) place (length-set_bit s.0 bit ∙ five) used.1,
  is_set-set_used s.0 bit place five used.0,
)
is_set-mark_all ((false, bit) ∷ marks) s place five used = is_set-mark_all marks s place five used.1
