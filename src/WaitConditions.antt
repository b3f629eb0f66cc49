-- ===== src/WaitConditions.antt =====
-- source/scheduler/wait_conditions.hpp: what a waiting task waits for.
pub mod Reset
pub mod Laws
pub mod Total
pub mod Examples
use cortex_m3_rtos.Prelude.{
  ℕ, zero, suc, ◌+◌, ◌-◌, ◌%◌, Bool, true, false, not, ◌&&◌, Option, none, some, ltb, if◌then◌else◌,
  update, Outcome, done, halted, ◌>>=◌, ◌>>◌, assert, sub32,
}
use cortex_m3_rtos.Config.{max_input_signals}
use cortex_m3_rtos.Api.{WaitResult, object_set, timeout_occurred, wait_failed}
use cortex_m3_rtos.Handle.{Objects, test_condition, reset_state}

-- `Type`
pub data WaitType : Type 0 where
  sleep wait_for_obj : WaitType

pub record Conditions : Type 0 where
  pub m_type : WaitType
  pub m_wait_signals : ℕ → ℕ
  pub m_number_of_signals : ℕ
  pub m_wait_for_all_signals : Bool
  pub m_wait_forver : Bool
  pub m_interval : ℕ
  pub m_start : ℕ

unfoldable pub init_sleep : Conditions → ℕ → ℕ → Conditions
init_sleep c interval current = record c {
  m_type = sleep;
  m_interval = interval;
  m_start = current;
}

-- The loop that copies the handles, from index `i`, with `n` rounds left.
unfoldable pub copy_signals : ℕ → ℕ → (ℕ → ℕ) → (ℕ → ℕ) → ℕ → ℕ
copy_signals zero i to from = to
copy_signals (suc n) i to from = copy_signals n (i + 1) (update to i (from i)) from

-- The null pointer to the handles is `none`. The result is what the function returns and the
-- conditions afterwards.
unfoldable pub init_wait_for_obj :
    Conditions → Option (ℕ → ℕ) → ℕ → Bool → Bool → ℕ → ℕ → Outcome (Bool × Conditions)
unfolding copy_signals
init_wait_for_obj c none n all forever timeout current = halted
init_wait_for_obj c (some signals) n all forever timeout current = do
  assert (ltb 0 n)
  if ltb n max_input_signals
      then done (
        true,
        record {
          m_type = wait_for_obj;
          m_wait_signals = copy_signals n 0 c.m_wait_signals signals;
          m_number_of_signals = n;
          m_wait_for_all_signals = all;
          m_wait_forver = forever;
          m_interval = timeout;
          m_start = current;
        },
      )
      else done (false, c)

-- What a test returns, and what it leaves in its reference arguments.
pub record Verdict : Type 0 where
  pub fulfilled : Bool
  pub objects : Objects
  pub result : WaitResult
  pub signaled_item_index : ℕ

-- The second loop of `testWaitSignals`, which resets the objects.
unfoldable pub reset_all : ℕ → ℕ → (ℕ → ℕ) → Objects → Outcome Objects
reset_all zero i signals o = done o
reset_all (suc n) i signals o = do o' ← reset_state o (signals i); reset_all n (i + 1) signals o'

-- The part of `testWaitSignals` behind the first loop.
unfoldable pub finish : ℕ → (ℕ → ℕ) → Bool → Bool → Verdict → Outcome Verdict
finish number signals all condition_fulfilled v =
    if all && condition_fulfilled
    then (do
      o ← reset_all number 0 signals v.objects
      done (record v { fulfilled = true; objects = o; result = object_set }))
    else done (record v { fulfilled = false })

-- The first loop, from index `i`, with `n` of `number` rounds left. The function returns from inside
-- the loop, or goes on behind it. (`condition_fulfilled &= condition_fulfilled` changes nothing.)
unfoldable pub test_from : ℕ → ℕ → ℕ → (ℕ → ℕ) → Bool → Bool → Verdict → Outcome Verdict
test_from zero i number signals all condition_fulfilled v =
    finish number signals all condition_fulfilled v
test_from (suc n) i number signals all condition_fulfilled v = do
  (valid_handle, condition) ← test_condition v.objects (signals i)
  if not valid_handle
      then done (record v { fulfilled = false; result = wait_failed })
      else (if not all
          then (if condition
              then (do
                o ← reset_state v.objects (signals i)
                done (record {
                  fulfilled = true;
                  objects = o;
                  result = object_set;
                  signaled_item_index = i;
                }))
              else done (record v { fulfilled = false }))
          else (elim condition [
            | false ↦ done (record v { fulfilled = false })
            | true ↦ test_from n (i + 1) number signals all true v
          ]))

unfoldable pub test_wait_signals : ℕ → (ℕ → ℕ) → Bool → Verdict → Outcome Verdict
unfolding test_from
test_wait_signals number signals all v = test_from number 0 number signals all true v

-- Whether the interval has passed.
unfoldable pub is_over : Conditions → ℕ → Bool
is_over c current = ltb c.m_interval (sub32 current c.m_start)

-- `objects`, `result` and `index` are the reference arguments on entry.
unfoldable pub check : Conditions → Objects → WaitResult → ℕ → ℕ → Outcome Verdict
unfolding is_over
check c objects result current index =
    let v : Verdict = record {
      fulfilled = false;
      objects = objects;
      result = result;
      signaled_item_index = index;
    } in
    elim c.m_type [
      | sleep ↦
          done (if is_over c current then record v { fulfilled = true; result = object_set } else v)
      | wait_for_obj ↦
          let w : Verdict = record v { signaled_item_index = 0 } in
          if not c.m_wait_forver && is_over c current
          then done (record w { fulfilled = true; result = timeout_occurred })
          else test_wait_signals c.m_number_of_signals c.m_wait_signals c.m_wait_for_all_signals w
    ]
