-- ===== src/Bindings/Equal.antt =====
-- cpp/python/bindings.cpp: `__eq__` of the responses.
use ds_service.Base.{◌≡◌, ◌↔◌, ◌==◌, eq_iff, eqb, ◌&&◌, Bool, true, false, arith}
use ds_service.Base.Int.{ℤ, pos, negsuc}
use ds_service.Double
use ds_service.Double.{Double, is_nan}
use ds_service.Messages.{TaskGetCountByStateResponse, TaskGetResponse, TimeSeriesDataPoint}

unfoldable pub task_get_response_eq : TaskGetResponse → TaskGetResponse → Bool
task_get_response_eq self other =
    self.task_id == other.task_id && self.function == other.function && self.input == other.input

unfoldable pub count_by_state_response_eq :
    TaskGetCountByStateResponse → TaskGetCountByStateResponse → Bool
count_by_state_response_eq self other =
    eqb self.waiting other.waiting
    && eqb self.ready other.ready
    && eqb self.running other.running
    && eqb self.finished other.finished
    && eqb self.failed other.failed
    && eqb self.canceled other.canceled

eqb_ℤ : ℤ → ℤ → Bool
eqb_ℤ (pos m) (pos n) = eqb m n
eqb_ℤ (negsuc m) (negsuc n) = eqb m n
eqb_ℤ (pos m) (negsuc n) = false
eqb_ℤ (negsuc m) (pos n) = false

unfoldable pub data_point_eq : TimeSeriesDataPoint → TimeSeriesDataPoint → Bool
unfolding eqb_ℤ
data_point_eq self other =
    Double.eq self.value other.value
    && self.datetime == other.datetime
    && eqb_ℤ self.step other.step

-- The __eq__ of TaskGetResponse and that of TaskGetCountByStateResponse hold exactly for equal
-- responses. That of TimeSeriesDataPoint holds between a point and itself exactly if the value is not a
-- NaN.
pub eq_iff_same :
    ((a b : TaskGetResponse) → (task_get_response_eq a b ≡ true) ↔ (a ≡ b))
    × ((a b : TaskGetCountByStateResponse) → (count_by_state_response_eq a b ≡ true) ↔ (a ≡ b))
    × ((p : TimeSeriesDataPoint) → (data_point_eq p p ≡ true) ↔ (is_nan p.value ≡ false))
unfolding task_get_response_eq count_by_state_response_eq data_point_eq Double.eq eqb_ℤ
eq_iff_same = (
  λ a b.
      ground
        (arith, eq_iff a.task_id b.task_id, eq_iff a.function b.function, eq_iff a.input b.input),
  λ a b. ground arith,
  λ p. ground (arith, eq_iff p.datetime p.datetime),
)
