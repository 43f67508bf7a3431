-- ===== src/State/Reserved.antt =====
-- The reserved bits of the bitmaps of src/state.rs under sequences of updates.
use hyperion_x_emv.Base.{
  ℕ, zero, suc, ◌-◌, ◌<◌, bit_and, bit_or, ◌≡◌, refl, ap, ◌||◌, true, false, List, [], ◌∷◌, some,
  get_elem?, length, set as set_elem, get_or, arith, Option-cases, inl, inr, length-set, All,
}
use hyperion_x_emv.Base.Bits.{
  meets, meets-bit_or, bit_and_assoc, bit_and-not, bit_and-zero, bit_and_comm, zero-bit_and,
}
use hyperion_x_emv.State.Bitmap.{Bit, any_rfu}
use hyperion_x_emv.State.Tvr
use hyperion_x_emv.State.Tvr.{Tvr}
use hyperion_x_emv.State.Tsi
use hyperion_x_emv.State.Tsi.{Tsi}

-- A mask cut down to the bits in use meets no reserved bit.
allowed-meets : (m a : ℕ) → a < 256 → meets (bit_and m a) (255 - a) ≡ false
allowed-meets m a h =
    ground (
      arith,
      bit_and_assoc m a (255 - a),
      bit_and_comm a (255 - a),
      bit_and-not a h,
      bit_and-zero m,
    )

any_rfu-set :
    (bytes masks : List ℕ) (i b m : ℕ)
    → All (λ a. a < 256) masks
    → get_elem? bytes i ≡ some b
    → any_rfu (set_elem bytes i (bit_or b (bit_and m (get_or masks i 0)))) masks
      ≡ any_rfu bytes masks
unfolding any_rfu
any_rfu-set [] masks i b m h e = cc
any_rfu-set (x ∷ xs) [] zero b m h e = refl
any_rfu-set (x ∷ xs) [] (suc i) b m h e = refl
any_rfu-set (x ∷ xs) (a ∷ rest) zero b m h e =
    ground (arith, meets-bit_or b (bit_and m a) (255 - a), allowed-meets m a h.0)
any_rfu-set (x ∷ xs) (a ∷ rest) (suc i) b m h e =
    ap (λ r. meets x (255 - a) || r) (any_rfu-set xs rest i b m h.1 e)

-- `x & k` meets nothing that `x` does not meet.
meets_mono : (x k m : ℕ) → meets (bit_and x k) m ≡ true → meets x m ≡ true
meets_mono x k m h =
    ground (arith, bit_and_assoc x k m, bit_and_comm k m, bit_and_assoc x m k, zero-bit_and k)

any_rfu-clear :
    (bytes masks : List ℕ) (i b k : ℕ)
    → get_elem? bytes i ≡ some b
    → any_rfu (set_elem bytes i (bit_and b k)) masks ≡ true
    → any_rfu bytes masks ≡ true
unfolding any_rfu
any_rfu-clear [] masks i b k e h = cc
any_rfu-clear (x ∷ xs) [] zero b k e h = h
any_rfu-clear (x ∷ xs) [] (suc i) b k e h = h
any_rfu-clear (x ∷ xs) (a ∷ rest) zero b k e h = ground (arith, meets_mono b k (255 - a))
any_rfu-clear (x ∷ xs) (a ∷ rest) (suc i) b k e h = ground (arith, any_rfu-clear xs rest i b k e)

has_rfu_bits-set : (t : Tvr) (bit : Bit) → Tvr.has_rfu_bits (Tvr.set t bit) ≡ Tvr.has_rfu_bits t
unfolding Tvr.has_rfu_bits Tvr.set
has_rfu_bits-set t (i, m) = elim (Option-cases (get_elem? t.bytes i)) [
  | inl e ↦ rw (e, Tvr.set)
  | inr (b, e) ↦ rw (e, Tvr.set) (any_rfu-set t.bytes Tvr.allowed_masks i b m (omega arith) e)
]

pub has_rfu_bits-set_tsi :
    (t : Tsi) (bit : Bit) → Tsi.has_rfu_bits (Tsi.set t bit) ≡ Tsi.has_rfu_bits t
unfolding Tsi.has_rfu_bits Tsi.set
has_rfu_bits-set_tsi t (i, m) = elim (Option-cases (get_elem? t.bytes i)) [
  | inl e ↦ rw (e, Tsi.set)
  | inr (b, e) ↦ rw (e, Tsi.set) (any_rfu-set t.bytes Tsi.allowed_masks i b m (omega arith) e)
]

has_rfu_bits-clear :
    (t : Tvr) (bit : Bit) → Tvr.has_rfu_bits t ≡ false → Tvr.has_rfu_bits (Tvr.clear t bit) ≡ false
unfolding Tvr.has_rfu_bits Tvr.clear
has_rfu_bits-clear t (i, m) h = elim (Option-cases (get_elem? t.bytes i)) [
  | inl e ↦ rw (e, Tvr.clear) h
  | inr (b, e) ↦
      rw (e, Tvr.clear) (ground (arith, any_rfu-clear t.bytes Tvr.allowed_masks i b (255 - m) e))
]

length_bytes-set : (t : Tvr) (bit : Bit) → length (Tvr.set t bit).bytes ≡ length t.bytes
unfolding Tvr.set
length_bytes-set t (i, m) = elim (Option-cases (get_elem? t.bytes i)) [
  | inl e ↦ rw (e, Tvr.set, length)
  | inr (b, e) ↦
      rw (e, Tvr.set, length)
        (length-set t.bytes i (bit_or b (bit_and m (get_or Tvr.allowed_masks i 0))))
]

length_bytes-clear : (t : Tvr) (bit : Bit) → length (Tvr.clear t bit).bytes ≡ length t.bytes
unfolding Tvr.clear
length_bytes-clear t (i, m) = elim (Option-cases (get_elem? t.bytes i)) [
  | inl e ↦ rw (e, Tvr.clear, length)
  | inr (b, e) ↦ rw (e, Tvr.clear, length) (length-set t.bytes i (bit_and b (255 - m)))
]

-- Any sequence of updates of a TVR.
pub data Update : Type 0 where
  set clear : Bit → Update

unfoldable pub updates : Tvr → List Update → Tvr
updates t [] = t
updates t (set bit ∷ us) = updates (Tvr.set t bit) us
updates t (clear bit ∷ us) = updates (Tvr.clear t bit) us

updates_keep :
    (us : List Update) (t : Tvr)
    → Tvr.has_rfu_bits t ≡ false
    → (Tvr.has_rfu_bits (updates t us) ≡ false) × (length (updates t us).bytes ≡ length t.bytes)
unfolding updates
updates_keep [] t h = (h, refl)
updates_keep (set bit ∷ us) t h =
    ground (arith, has_rfu_bits-set t bit, length_bytes-set t bit, updates_keep us (Tvr.set t bit))
updates_keep (clear bit ∷ us) t h =
    ground (
      arith,
      has_rfu_bits-clear t bit h,
      length_bytes-clear t bit,
      updates_keep us (Tvr.clear t bit),
    )

-- Every sequence of `set` and `clear`, at any bytes and masks, takes the cleared TVR to five bytes
-- with no reserved bit.
pub updates-cleared :
    (us : List Update)
    → (Tvr.has_rfu_bits (updates Tvr.cleared us) ≡ false)
      × (length (updates Tvr.cleared us).bytes ≡ 5)
updates-cleared us = updates_keep us Tvr.cleared (unfold Tvr.has_rfu_bits in refl)
