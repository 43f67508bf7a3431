-- ===== src/State/Reads.antt =====
-- What `is_set` of src/state.rs sees after `set` and `clear`.
use hyperion_x_emv.Base.{
  ℕ, ◌-◌, ◌<◌, bit_and, bit_or, ◌≡◌, ◌≢◌, ◌&&◌, ◌||◌, false, get_elem?, ◌==◌, ltb, length, get_or,
  arith, Option-cases, inl, inr, get_elem?-set, get_elem?_in_range, get_elem?_out_of_range,
}
use hyperion_x_emv.Base.Bits.{meets, meets-bit_or, meets-clear}
use hyperion_x_emv.State.Tvr
use hyperion_x_emv.State.Tvr.{Tvr}
use hyperion_x_emv.State.Tsi
use hyperion_x_emv.State.Tsi.{Tsi}

-- Setting bits and reading any place of a TVR: what was set before stays set, and the new bits are
-- exactly those of the mask that are in use in an existing byte.
pub is_set-set :
    (t : Tvr) (i m j n : ℕ)
    → Tvr.is_set (Tvr.set t (i, m)) (j, n)
      ≡ Tvr.is_set t (j, n)
        || (i == j && ltb i (length t.bytes) && meets (bit_and m (get_or Tvr.allowed_masks i 0)) n)
unfolding Tvr.is_set Tvr.set
is_set-set t i m j n = elim (Option-cases (get_elem? t.bytes i)) [
  | inl e ↦ ground (arith, e, get_elem?_out_of_range t.bytes i e)
  | inr (b, e) ↦ ground (
    arith,
    e,
    get_elem?_in_range t.bytes i e,
    get_elem?-set t.bytes i j (bit_or b (bit_and m (get_or Tvr.allowed_masks i 0))),
    meets-bit_or b (bit_and m (get_or Tvr.allowed_masks i 0)) n,
  )
]

-- The same for the TSI.
pub is_set-set_tsi :
    (t : Tsi) (i m j n : ℕ)
    → Tsi.is_set (Tsi.set t (i, m)) (j, n)
      ≡ Tsi.is_set t (j, n)
        || (i == j && ltb i (length t.bytes) && meets (bit_and m (get_or Tsi.allowed_masks i 0)) n)
unfolding Tsi.is_set Tsi.set
is_set-set_tsi t i m j n = elim (Option-cases (get_elem? t.bytes i)) [
  | inl e ↦ ground (arith, e, get_elem?_out_of_range t.bytes i e)
  | inr (b, e) ↦ ground (
    arith,
    e,
    get_elem?_in_range t.bytes i e,
    get_elem?-set t.bytes i j (bit_or b (bit_and m (get_or Tsi.allowed_masks i 0))),
    meets-bit_or b (bit_and m (get_or Tsi.allowed_masks i 0)) n,
  )
]

-- After clearing a mask of one byte no bit of it is set, and every other byte reads as before.
pub is_set-clear :
    (t : Tvr) (i m j n : ℕ)
    → m < 256
    → i ≢ j
    → (Tvr.is_set (Tvr.clear t (i, m)) (i, m) ≡ false)
      × (Tvr.is_set (Tvr.clear t (i, m)) (j, n) ≡ Tvr.is_set t (j, n))
unfolding Tvr.is_set Tvr.clear
is_set-clear t i m j n h d = elim (Option-cases (get_elem? t.bytes i)) [
  | inl e ↦ (ground (arith, e), ground (arith, e))
  | inr (b, e) ↦ (
    ground (
      arith,
      e,
      get_elem?_in_range t.bytes i e,
      get_elem?-set t.bytes i i (bit_and b (255 - m)),
      meets-clear b m h,
    ),
    ground (arith, e, get_elem?-set t.bytes i j (bit_and b (255 - m))),
  )
]
