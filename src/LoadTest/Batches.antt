-- ===== src/LoadTest/Batches.antt =====
-- The batches that the load test cuts its events into.
use network_actions_aggregat.Prelude.{
  ℕ, zero, suc, ◌+◌, ◌-◌, ◌≤◌, ◌<◌, ◌≡◌, refl, subst, Bool-cases, inl, inr, List, [], ◌∷◌, arith,
  length, All, ltb,
}
use network_actions_aggregat.LoadTest.{batch_at, batch_sizes}

abbrev pub sum : List ℕ → ℕ
sum [] = 0
sum (n ∷ ns) = n + sum ns

-- Batches that are not empty nor longer than the size, and hold a number of events together.
pub record AreBatches (size total : ℕ) (sizes : List ℕ) : Type 0 where
  pub bounded : All (λ n. (1 ≤ n) × (n ≤ size)) sizes
  pub whole : sum sizes ≡ total

cons_batch :
    (total size i : ℕ) (ns : List ℕ)
    → 0 < size
    → i < total
    → AreBatches size (total - (i + size)) ns
    → AreBatches size (total - i) (batch_at total size i ∷ ns)
cons_batch total size i ns pos lt r = record {
  bounded = ((ground (arith, pos, lt), ground (arith, pos, lt)), r.bounded);
  whole = ground (arith, pos, lt, r.whole);
}

from_batch :
    (fuel total size i : ℕ)
    → 0 < size
    → total - i ≤ fuel
    → AreBatches size (total - i) (batch_sizes fuel total size i)
unfolding batch_sizes
from_batch zero total size i pos enough = record { bounded = tt; whole = omega arith }
from_batch (suc fuel) total size i pos enough = elim (Bool-cases (ltb i total)) [
  | inl more ↦ rw more (
      cons_batch total size i (batch_sizes fuel total size (i + size)) pos (ground (arith, more))
        (from_batch fuel total size (i + size) pos (omega arith)))
  | inr over ↦ rw over (record { bounded = tt; whole = ground (arith, over) })
]

-- With a batch size above 0, the loop that cuts a number of events into batches ends within as many
-- rounds as there are events: the batches hold that number together, none is empty and none is longer
-- than the size.
pub batch_sizes-AreBatches :
    (fuel total size : ℕ)
    → 0 < size
    → total ≤ fuel
    → AreBatches size total (batch_sizes fuel total size 0)
batch_sizes-AreBatches fuel total size pos enough =
    let whole : total - 0 ≡ total = omega arith in
    subst (λ n. AreBatches size n (batch_sizes fuel total size 0)) whole
      (from_batch fuel total size 0 pos (omega arith))

-- With a batch size of 0 the loop does not end: however many rounds it is given it uses them all, if
-- there is an event to send.
pub length-batch_sizes : (fuel total i : ℕ) → i < total → length (batch_sizes fuel total 0 i) ≡ fuel
unfolding batch_sizes
length-batch_sizes zero total i lt = refl
length-batch_sizes (suc fuel) total i lt =
    ground (arith, lt, length-batch_sizes fuel total (i + 0) (omega (arith, lt)))
