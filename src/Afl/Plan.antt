-- ===== src/Afl/Plan.antt =====
-- The plan of the records to read and their commands (src/afl.rs).
use hyperion_x_emv.Base.{
  ℕ, zero, suc, ◌+◌, ◌-◌, ◌*◌, ◌%◌, ◌^◌, ◌≡◌, ◌≤◌, ◌<◌, ◌∙◌, bit_or, sym, ap, refl, false, ◌&&◌,
  ◌==◌, ltb, List, [], ◌∷◌, ◌++◌, map, length, length-append, any, All, All-append, okay, some,
  arith, KernelResult-cases, inl, inr,
}
use mathlib.Core.Path.{subst}
use mathlib.Core.List.{append_assoc, append-nil}
use hyperion_x_emv.Apdu.{CommandApdu, read_record}
use hyperion_x_emv.Afl.{
  AflEntry, RecordLocator, record_count, locator_of, plan_entry, plan_from, record_plan, read_all,
  read_record_commands,
}
use hyperion_x_emv.Afl.Entries.{IsEntry}

-- The locators of the records of one entry, from an index on.
abbrev locators_from : AflEntry → ℕ → ℕ → List RecordLocator
locators_from entry zero index = []
locators_from entry (suc rounds) index =
    locator_of entry index ∷ locators_from entry rounds (index + 1)

-- The locators of all records of a list of entries, in order.
abbrev pub all_locators : List AflEntry → List RecordLocator
all_locators [] = []
all_locators (entry ∷ entries) = locators_from entry (record_count entry) 0 ++ all_locators entries

-- The records of an entry as its fields have them: from a number on, so many, the first of which
-- count for offline authentication.
abbrev records_from : AflEntry → ℕ → ℕ → List RecordLocator
records_from entry zero number = []
records_from entry (suc left) number =
    record {
      sfi = entry.sfi;
      number = number;
      contributes_to_offline_auth =
          ltb number (entry.first_record + entry.offline_auth_record_count);
    }
    ∷ records_from entry left (number + 1)

-- The records of all entries, each from its first to its last, in order.
abbrev pub all_records : List AflEntry → List RecordLocator
all_records [] = []
all_records (entry ∷ entries) =
    records_from entry (suc entry.last_record - entry.first_record) entry.first_record
    ++ all_records entries

-- On a valid entry no number wraps around.
locators_from-records_from :
    (entry : AflEntry) (rounds index : ℕ)
    → entry.first_record + index + rounds ≤ 256
    → locators_from entry rounds index ≡ records_from entry rounds (entry.first_record + index)
locators_from-records_from entry zero index h = refl
locators_from-records_from entry (suc rounds) index h =
    let rest = locators_from-records_from entry rounds (index + 1) (omega (arith, h)) in
    let same : (entry.first_record + index) % 2 ^ 8 ≡ entry.first_record + index =
      omega (arith, h) in
    let counts : ltb index entry.offline_auth_record_count
        ≡ ltb (entry.first_record + index) (entry.first_record + entry.offline_auth_record_count) =
      ground arith in
    let on : entry.first_record + (index + 1) ≡ entry.first_record + index + 1 = omega arith in
    rw (same, counts, rest, on) refl

all_locators-all_records :
    (entries : List AflEntry) → All IsEntry entries → all_locators entries ≡ all_records entries
all_locators-all_records [] i = refl
all_locators-all_records (entry ∷ entries) i =
    let e = i.0 in
    let count : record_count entry ≡ suc entry.last_record - entry.first_record =
      omega (arith, e.first_low, e.first_high, e.last_high) in
    let start : entry.first_record + 0 ≡ entry.first_record = omega arith in
    let one =
      locators_from-records_from entry (record_count entry) 0
        (omega (arith, e.first_low, e.first_high, e.last_high, count)) in
    rw (one, count, start, all_locators-all_records entries i.1) refl

-- No record stands twice in the list, or once in it and once among those before.
abbrev pub EachOnce : List RecordLocator → List RecordLocator → Type 0
EachOnce before [] = Unit {0}
EachOnce before (l ∷ ls) =
    (any (λ (m : RecordLocator). m.sfi == l.sfi && m.number == l.number) before ≡ false)
    × EachOnce (before ++ (l ∷ [])) ls

EachOnce-append :
    (before xs ys : List RecordLocator)
    → EachOnce before xs
    → EachOnce (before ++ xs) ys
    → EachOnce before (xs ++ ys)
EachOnce-append before [] ys h k = subst (λ b. EachOnce b ys) (append-nil before) k
EachOnce-append before (x ∷ xs) ys h k = (
  h.0,
  EachOnce-append (before ++ (x ∷ [])) xs ys h.1
      (subst (λ b. EachOnce b ys) (sym (append_assoc before (x ∷ []) xs)) k),
)

record Extends (out extra out' : List RecordLocator) : Type 0 where
  appended : out' ≡ out ++ extra
  once : EachOnce out extra
  few : length out ≤ 256 → length out' ≤ 256

plan_entry_sound :
    (entry : AflEntry) (rounds index : ℕ) (out out' : List RecordLocator)
    → plan_entry entry rounds index out ≡ okay out'
    → Extends out (locators_from entry rounds index) out'
unfolding plan_entry
plan_entry_sound entry zero index out out' e =
    let same : out' ≡ out = ground arith in
    record {
      appended = same ∙ sym (append-nil out);
      once = tt;
      few = λ h. omega (arith, ap length same);
    }
plan_entry_sound entry (suc rounds) index out out' e =
    let l = locator_of entry index in
    let r = plan_entry_sound entry rounds (index + 1) (out ++ (l ∷ [])) out' (ground arith) in
    let fits : length out < 256 = ground arith in
    record {
      appended = r.appended ∙ append_assoc out (l ∷ []) (locators_from entry rounds (index + 1));
      once = (ground arith, r.once);
      few = λ h. r.few (omega (arith, length-append out (l ∷ []), fits));
    }

plan_from_sound :
    (entries : List AflEntry) (out out' : List RecordLocator)
    → plan_from entries out ≡ okay out'
    → Extends out (all_locators entries) out'
unfolding plan_from
plan_from_sound [] out out' e =
    let same : out' ≡ out = ground arith in
    record {
      appended = same ∙ sym (append-nil out);
      once = tt;
      few = λ h. omega (arith, ap length same);
    }
plan_from_sound (entry ∷ entries) out out' e =
    elim (KernelResult-cases (plan_entry entry (record_count entry) 0 out)) [
      | inr (x, q) ↦ absurd (ground (arith, q))
      | inl (mid, q) ↦
          let ls = locators_from entry (record_count entry) 0 in
          let one = plan_entry_sound entry (record_count entry) 0 out mid q in
          let others = plan_from_sound entries mid out' (ground (arith, q)) in
          record {
            appended =
                others.appended
                ∙ ap (λ b. b ++ all_locators entries) one.appended
                ∙ append_assoc out ls (all_locators entries);
            once =
                EachOnce-append out ls (all_locators entries) one.once
                  (subst (λ b. EachOnce b (all_locators entries)) one.appended others.once);
            few = λ h. others.few (one.few h);
          }
    ]

-- A plan that is accepted for valid entries holds the records of all entries, each from its first to
-- its last, in order, with those marked that an entry counts for offline authentication; none of them
-- stands twice, and they are 256 at most.
pub record_plan_sound :
    (entries : List AflEntry) (plan : List RecordLocator)
    → All IsEntry entries
    → record_plan entries ≡ okay plan
    → (plan ≡ all_records entries) × EachOnce [] plan × (length plan ≤ 256)
unfolding record_plan
record_plan_sound entries plan i e =
    let r = plan_from_sound entries [] plan e in
    (
      r.appended ∙ all_locators-all_records entries i,
      subst (EachOnce []) (sym r.appended) r.once,
      r.few (omega arith),
    )

abbrev IsReadable : RecordLocator → Type 0
IsReadable l = (1 ≤ l.sfi) × (l.sfi ≤ 30) × (1 ≤ l.number) × (l.number ≤ 255)

-- READ RECORD for a locator.
abbrev pub command_of : RecordLocator → CommandApdu
command_of l = record {
  cla = 0x00;
  ins = 0xb2;
  p1 = l.number;
  p2 = bit_or (l.sfi * 8 % 2 ^ 8) 0x04;
  data_field = [];
  le = some 0x00;
}

read_record_readable :
    (l : RecordLocator) → IsReadable l → read_record l.number l.sfi ≡ okay (command_of l)
unfolding read_record
read_record_readable l r = ground (arith, r.0, r.1, r.2)

read_all_lem :
    (ls : List RecordLocator) → All IsReadable ls → read_all ls ≡ okay (map command_of ls)
unfolding read_all
read_all_lem [] r = refl
read_all_lem (l ∷ ls) r = rw (read_record_readable l r.0, read_all_lem ls r.1) refl

locators_from-IsReadable :
    (entry : AflEntry) (rounds index : ℕ)
    → IsEntry entry
    → rounds + index ≤ record_count entry
    → All IsReadable (locators_from entry rounds index)
locators_from-IsReadable entry zero index i h = tt
locators_from-IsReadable entry (suc rounds) index i h =
    let numbers : record_count entry ≡ entry.last_record - entry.first_record + 1 =
      omega (arith, i.first_low, i.first_high, i.last_high) in
    (
      (
        i.sfi_low,
        i.sfi_high,
        omega (arith, i.first_low, i.first_high, i.last_high, numbers, h),
        omega (arith, i.first_low, i.first_high, i.last_high, numbers, h),
      ),
      locators_from-IsReadable entry rounds (index + 1) i (omega (arith, h)),
    )

all_locators-IsReadable :
    (entries : List AflEntry) → All IsEntry entries → All IsReadable (all_locators entries)
all_locators-IsReadable [] i = tt
all_locators-IsReadable (entry ∷ entries) i =
    All-append IsReadable (locators_from entry (record_count entry) 0) (all_locators entries)
      (locators_from-IsReadable entry (record_count entry) 0 i.0 (omega arith))
      (all_locators-IsReadable entries i.1)

-- For valid entries with a plan, the commands are one READ RECORD for each locator of the plan, in
-- its order: no command is refused.
pub read_record_commands_lem :
    (entries : List AflEntry) (plan : List RecordLocator)
    → All IsEntry entries
    → record_plan entries ≡ okay plan
    → read_record_commands entries ≡ okay (map command_of plan)
unfolding read_record_commands record_plan
read_record_commands_lem entries plan i e =
    let same = (plan_from_sound entries [] plan e).appended in
    rw e (read_all_lem plan (subst (All IsReadable) (sym same) (all_locators-IsReadable entries i)))
