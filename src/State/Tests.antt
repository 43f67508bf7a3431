-- ===== src/State/Tests.antt =====
-- Runs of src/state.rs, and its theorems at concrete inputs.
use hyperion_x_emv.Base.{◌≡◌, refl, false, List, [], ◌∷◌, length}
use hyperion_x_emv.State.Tvr
use hyperion_x_emv.State.Tvr.{Tvr}
use hyperion_x_emv.State.Reserved.{Update, set, clear, updates, updates-cleared}

abbrev new_card : Tvr
new_card = record { bytes = 0 ∷ 0x08 ∷ 0 ∷ 0 ∷ 0 ∷ [] }

set-new_card : Tvr.set Tvr.cleared Tvr.b2_new_card ≡ new_card
unfolding Tvr.set
set-new_card = refl

-- A reserved bit and a byte out of range are ignored.
set_reserved : Tvr.set (Tvr.set new_card (0, 0x03)) (9, 0xff) ≡ new_card
unfolding Tvr.set
set_reserved = refl

abbrev some_updates : List Update
some_updates = set (0, 0xff) ∷ clear (0, 0x80) ∷ set (4, 0x0f) ∷ set (7, 0xff) ∷ []

updates-cleared_example :
    (Tvr.has_rfu_bits (updates Tvr.cleared some_updates) ≡ false)
    × (length (updates Tvr.cleared some_updates).bytes ≡ 5)
updates-cleared_example = updates-cleared some_updates
