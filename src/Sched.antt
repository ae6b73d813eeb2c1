-- ===== src/Sched.antt =====
-- kernel/sched.cpp, with what it takes of kernel/task.h, kernel/signal.cpp and kernel/task_exit.cpp:
-- the queues of the tasks, the signals, the timers and the end of a task.
pub mod State
pub mod Queues
pub mod Signal
pub mod Timer
pub mod Delivery
pub mod Check
pub mod Settled
pub mod Due
pub mod Clock
pub mod Exit
pub mod ExitLaws
pub mod Consistent
pub mod Runnable
pub mod Pick
pub mod Tests
pub mod ClockTests
pub mod ExitTests
