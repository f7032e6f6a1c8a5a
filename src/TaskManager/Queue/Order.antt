-- ===== src/TaskManager/Queue/Order.antt =====
-- The order of the entries, where no priority is a NaN.
use ds_service.Base.{◌≡◌, ◌≢◌, ◌≤◌, true, false, arith}
use ds_service.Double
use ds_service.Double.{Double, is_nan}
use ds_service.TaskManager.Queue.{TaskQueueEntry, order}

abbrev pub IsNumber : TaskQueueEntry → Type 0
IsNumber e = is_nan e.priority ≡ false

-- `x` does not leave after `y`.
abbrev pub Before : TaskQueueEntry → TaskQueueEntry → Type 0
Before x y = order x y ≡ false

pub Before-refl : (x : TaskQueueEntry) → Before x x
unfolding order Double.lt Double.eq
Before-refl x = ground arith

-- `y` has no higher priority than `x`, nor the same priority and an earlier place.
pub record IsAhead (x y : TaskQueueEntry) : Type 0 where
  pub priority : Double.lt x.priority y.priority ≡ false
  pub place : Double.eq x.priority y.priority ≡ true → x.seq ≤ y.seq

pub Before-IsAhead : (x y : TaskQueueEntry) → Before x y → IsAhead x y
unfolding order Double.lt Double.eq
Before-IsAhead x y h = record { priority = ground arith; place = λ same. ground arith }

module _ (x y z : TaskQueueEntry) (nx : IsNumber x) (ny : IsNumber y) (nz : IsNumber z) where
  pub Before-order : order x y ≡ true → Before y x
  unfolding order Double.lt Double.eq
  Before-order h = ground arith

  pub Before-trans : Before x y → Before y z → Before x z
  unfolding order Double.lt Double.eq
  Before-trans h k = ground arith

-- With a NaN as a priority the order is no strict weak order, which std::priority_queue needs: the entry
-- `x` with the NaN is equivalent to two entries of which one is less than the other.
pub order_nan :
    (x a b : TaskQueueEntry)
    → is_nan x.priority ≡ true
    → order a b ≡ true
    → (order x a ≡ false)
      × (order a x ≡ false)
      × (order x b ≡ false)
      × (order b x ≡ false)
      × (order a b ≢ order b a)
unfolding order Double.lt Double.eq
order_nan x a b h k = ground arith
