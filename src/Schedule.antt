-- ===== src/Schedule.antt =====
-- The schedule of the releases and of the triggered communications: the enqueueing of
-- app/services/schedule_service.py and the tasks of app/services/task_queue.py.
pub mod Jobs
pub mod Arm
pub mod Worker
pub mod Settled
pub mod Due
