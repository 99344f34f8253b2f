-- ===== src/Storage/Faults.antt =====
-- storage/faults.py: deterministic failure injection.
use civ4_turn_relay.Prelude.{
  ℕ, ◌+◌, ◌==◌, if◌then◌else◌, Bool, true, false, ◌&&◌, ◌||◌, Option, none, some, List, [], ◌∷◌,
  ◌-◌, Bytes, ltb, leb,
}

pub data StorageOp : Type 0 where
  write read mkdir list remove_file remove_dir publish_no_replace atomic_replace : StorageOp

abbrev pub op_index : StorageOp → ℕ
op_index write = 0
op_index read = 1
op_index mkdir = 2
op_index list = 3
op_index remove_file = 4
op_index remove_dir = 5
op_index publish_no_replace = 6
op_index atomic_replace = 7

-- `a is b`
abbrev pub op_eq : StorageOp → StorageOp → Bool
op_eq a b = op_index a == op_index b

pub data FaultMoment : Type 0 where
  before after : FaultMoment

abbrev pub moment_eq : FaultMoment → FaultMoment → Bool
moment_eq before before = true
moment_eq after after = true
moment_eq _ _ = false

pub record FaultSpec : Type 0 where
  pub operation : StorageOp
  pub moment : FaultMoment
  pub occurrence : ℕ

-- `counts` is the dictionary over all operations; a read corruption is its occurrence.
pub record FaultController : Type 0 where
  pub faults : List FaultSpec
  pub read_corruptions : List ℕ
  pub counts : StorageOp → ℕ

abbrev pub no_faults : FaultController
no_faults = record { faults = []; read_corruptions = []; counts = λ o. 0 }

-- The test by which `inject` and `_take_fault` find a schedule.
unfoldable pub is_fault : StorageOp → ℕ → FaultMoment → FaultSpec → Bool
is_fault operation occurrence moment spec =
    op_eq spec.operation operation && spec.occurrence == occurrence && moment_eq spec.moment moment

has_fault : StorageOp → ℕ → FaultMoment → List FaultSpec → Bool
has_fault operation occurrence moment [] = false
has_fault operation occurrence moment (spec ∷ specs) =
    is_fault operation occurrence moment spec || has_fault operation occurrence moment specs

-- The schedule, or nothing where it raises `FaultScheduleError`.
pub inject : FaultController → StorageOp → FaultMoment → ℕ → Option FaultController
unfolding has_fault is_fault
inject c operation moment occurrence =
    if ltb occurrence 1
    then none
    else if leb occurrence (c.counts operation)
    then none
    else if has_fault operation occurrence moment c.faults
    then none
    else some (record c {
      faults =
          append c.faults
            (record { operation = operation; moment = moment; occurrence = occurrence });
    })
  where
    append : List FaultSpec → FaultSpec → List FaultSpec
    append [] x = x ∷ []
    append (y ∷ ys) x = y ∷ append ys x

-- The first schedule that fits is taken out: whether there was one, and the others.
take_fault : StorageOp → ℕ → FaultMoment → List FaultSpec → Bool × List FaultSpec
take_fault operation occurrence moment [] = (false, [])
take_fault operation occurrence moment (spec ∷ specs) =
    let rest = take_fault operation occurrence moment specs in
    if is_fault operation occurrence moment spec then (true, specs) else (rest.0, spec ∷ rest.1)

without_fault : StorageOp → ℕ → FaultMoment → List FaultSpec → List FaultSpec
without_fault operation occurrence moment [] = []
without_fault operation occurrence moment (spec ∷ specs) =
    let rest = without_fault operation occurrence moment specs in
    if is_fault operation occurrence moment spec then rest else spec ∷ rest

without_corruption : ℕ → List ℕ → List ℕ
without_corruption n [] = []
without_corruption n (m ∷ ms) =
    let rest = without_corruption n ms in if m == n then rest else m ∷ rest

retire_unreachable_for_call : FaultController → StorageOp → ℕ → FaultController
retire_unreachable_for_call c operation occurrence = record c {
  faults = without_fault operation occurrence after c.faults;
  read_corruptions =
      if op_eq operation read
      then without_corruption occurrence c.read_corruptions
      else c.read_corruptions;
}

-- Whether the BEFORE fault of this call fires.
unfoldable pub begin : FaultController → StorageOp → Bool × FaultController
unfolding take_fault without_fault without_corruption retire_unreachable_for_call is_fault
begin c operation =
    let count = c.counts operation + 1 in
    let counted : FaultController = record c {
      counts = λ o. if op_eq o operation then count else c.counts o;
    } in
    let taken = take_fault operation count before counted.faults in
    if taken.0
    then (true, retire_unreachable_for_call (record counted { faults = taken.1 }) operation count)
    else (false, counted)

-- Whether the AFTER fault of this call fires.
unfoldable pub finish : FaultController → StorageOp → Bool × FaultController
unfolding take_fault is_fault
finish c operation =
    let taken = take_fault operation (c.counts operation) after c.faults in
    (taken.0, record c { faults = taken.1 })

unfoldable pub abort : FaultController → StorageOp → FaultController
unfolding retire_unreachable_for_call without_fault without_corruption is_fault
abort c operation = retire_unreachable_for_call c operation (c.counts operation)

-- `first ^ 0xFF` of a byte is `255 - first`.
unfoldable pub corrupt_bytes : Bytes → Bytes
corrupt_bytes [] = 0 ∷ []
corrupt_bytes (first ∷ rest) = (255 - first) ∷ rest

has_corruption : ℕ → List ℕ → Bool
has_corruption n [] = false
has_corruption n (m ∷ ms) = m == n || has_corruption n ms

drop_corruption : ℕ → List ℕ → List ℕ
drop_corruption n [] = []
drop_corruption n (m ∷ ms) = let rest = drop_corruption n ms in if m == n then ms else m ∷ rest

-- What the current READ returns.
unfoldable pub corrupt_read_payload : FaultController → Bytes → Bytes × FaultController
unfolding has_corruption drop_corruption corrupt_bytes
corrupt_read_payload c content =
    let count = c.counts read in
    if has_corruption count c.read_corruptions
    then (
      corrupt_bytes content,
      record c { read_corruptions = drop_corruption count c.read_corruptions },
    )
    else (content, c)
