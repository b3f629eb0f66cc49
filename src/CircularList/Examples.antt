-- ===== src/CircularList/Examples.antt =====
-- A ring of two nodes, and what the theorems on rings say of it.
use cortex_m3_rtos.Prelude.{
  ℕ, ◌+◌, ◌<◌, ◌≡◌, refl, Option, some, ◌∷◌, [], arith, ◌==◌, ltb, if◌then◌else◌, Outcome, done,
  remove_at,
}
use cortex_m3_rtos.MemoryBuffer.Slots.{in_use}
use cortex_m3_rtos.CircularList.{CircularList, add, remove, find}
use cortex_m3_rtos.CircularList.Ring.{IsRing, contents, nodes}
use cortex_m3_rtos.CircularList.Ring.Add.{Adds, add_lem}
use cortex_m3_rtos.CircularList.Ring.Remove.{without, remove_lem}

-- The data 7 in slot 0 and then 9 in slot 1.
abbrev pub two : CircularList
two = record {
  m_buffer = record {
    m_data = λ i.
        if i == 0
        then record { m_next = 1; m_prev = 1; m_data = 7 }
        else record { m_next = 0; m_prev = 0; m_data = 9 };
    m_status = λ i. ltb i 2;
  };
  m_first = 0;
  m_last = 1;
  m_count = 2;
}

abbrev pub same : ℕ → ℕ
same k = k

pub two-IsRing : (n : ℕ) → 2 ≡ in_use n (λ i. ltb i 2) → 1 < n → IsRing n two same
two-IsRing n counted h = record {
  counted = counted;
  inside = λ k lt. omega arith;
  used = λ k lt. ground arith;
  distinct = λ j k hj hk e. e;
  first = λ _. refl;
  last = λ _. refl;
  next = λ k lt. ground arith;
  prev = λ k lt. ground arith;
}

add-two : Outcome (Option ℕ × CircularList)
add-two = add 3 two 5

add-two_slot :
    (l : CircularList) × (add-two ≡ done (some 2, l)) × (contents l same ≡ 7 ∷ 9 ∷ 5 ∷ [])
unfolding add-two add
add-two_slot = (_, refl, refl)

find-two : find 3 two 9 ≡ done (some 1)
unfolding find
find-two = refl

counted_three : 2 ≡ in_use 3 (λ i. ltb i 2)
unfolding in_use
counted_three = refl

add_lem_example : Adds 3 two same 5 (add 3 two 5)
add_lem_example = add_lem 3 two same 5 (omega arith) (two-IsRing 3 counted_three (omega arith))

remove_lem_example :
    (l : CircularList) × (remove 3 two (same 0) ≡ done l)
    × IsRing 3 l (without 0 same)
    × (l.m_count + 1 ≡ two.m_count)
    × ((k : ℕ)
        → k + 1 < two.m_count
        → (nodes l (without 0 same k)).m_data
          ≡ (if ltb k 0 then (nodes two (same k)).m_data else (nodes two (same (k + 1))).m_data))
    × (contents l (without 0 same) ≡ remove_at 0 (contents two same))
remove_lem_example =
    remove_lem 3 two same 0 (omega arith) (two-IsRing 3 counted_three (omega arith)) (omega arith)
